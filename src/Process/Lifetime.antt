-- ===== src/Process/Lifetime.antt =====
-- What the destructor and the methods of src/process.C do to the child and to the object.
use wye.Common.{true, ℕ, refl, subst, ◌∙◌, Option-cases, inl, inr, ◌≡◌, some, ◌≢◌, arith}
use wye.Outcome.{ok, Fault, throws, aborts}
use wye.Kernel.{Kernel, Child, gone}
use wye.Process.{Process, destroy}

module _ ⦃k : Kernel⦄ where
  open k use {
    Os, kill, wait, phase, heeds, kill_gone, kill_known, wait_killed, wait_reaps, kill_other,
    wait_other,
  }

  -- No exception leaves a destructor.
  pub destroy-ne-throws : (q : Process) (s : Os) (e : Fault) → (destroy q s).0 ≢ throws e
  unfolding destroy
  destroy-ne-throws q s e = ground arith

  -- The destructor of a worker whose child the system no longer knows ends the program.
  pub destroy_gone :
      (q : Process) (c : Child) (s : Os)
      → q.proc ≡ some c
      → phase c.pid s ≡ gone
      → (destroy q s).0 ≡ aborts
  unfolding destroy
  destroy_gone q c s h g = ground (arith, kill_gone c.pid s g)

  -- No child of the object is the process `p`.
  abbrev pub Spares : ℕ → Process → Type 0
  Spares p q = (c : Child) → q.proc ≡ some c → p ≢ c.pid

  -- The object's child, if there is one, has been reaped.
  abbrev pub Reaped : Os → Process → Type 0
  Reaped s q = (c : Child) → q.proc ≡ some c → phase c.pid s ≡ gone

  -- A destructor that returns has reaped the child.
  pub destroy-Reaped : (q : Process) (s : Os) → (destroy q s).0 ≡ ok tt → Reaped (destroy q s).1 q
  unfolding destroy
  destroy-Reaped q s h c e = ground (arith, wait_reaps c.pid (kill c.pid s).1)

  -- It leaves every other process alone.
  pub destroy_other :
      (q : Process) (p : ℕ) (s : Os)
      → Spares p q
      → (phase p (destroy q s).1 ≡ phase p s) × (heeds p (destroy q s).1 ≡ heeds p s)
  unfolding destroy
  destroy_other q p s h = elim (Option-cases q.proc) [
    | inl e ↦ rw e (refl, refl)
    | inr (c, e) ↦
        ground (arith, kill_other c.pid p s (h c e), wait_other c.pid p (kill c.pid s).1 (h c e))
  ]

  -- The system knows the process, which ends on the signal.
  abbrev pub Stoppable : ℕ → Os → Type 0
  Stoppable p s = (phase p s ≢ gone) × (heeds p s ≡ true)

  -- It returns when the child can be stopped.
  pub destroy_returns :
      (q : Process) (s : Os)
      → ((c : Child) → q.proc ≡ some c → Stoppable c.pid s)
      → (destroy q s).0 ≡ ok tt
  unfolding destroy
  destroy_returns q s h = elim (Option-cases q.proc) [
    | inl e ↦ rw e refl
    | inr (c, e) ↦
        ground (arith, kill_known c.pid s (h c e).0, wait_killed c.pid s (h c e).0 (h c e).1)
  ]

  -- What was reaped before stays so while destructors return.
  pub destroy_keeps_gone :
      (q : Process) (p : ℕ) (s : Os)
      → phase p s ≡ gone
      → (destroy q s).0 ≡ ok tt
      → phase p (destroy q s).1 ≡ gone
  destroy_keeps_gone q p s g h = (destroy_other q p s spares).0 ∙ g
    where
      spares : Spares p q
      spares c e same = absurd (cc (h, destroy_gone q c s e (subst (λ x. phase x s ≡ gone) same g)))
