-- ===== src/Process/Holding.antt =====
-- Which process the object of src/process.C holds, and what its methods do to the others.
use wye.Common.{
  ℕ, List, ◌≡◌, ◌≢◌, refl, sym, ◌∙◌, arith, ◌⊎◌, inl, inr, false, some, none, Option-cases,
  ℕ_discrete, Option, Bool-cases, ap,
}
use wye.Text.{Text}
use wye.Outcome.{ok}
use wye.Ptree.{PropertyTree}
use wye.Kernel.{Kernel, Child, Launch, started, refused, Phase, alive, zombie, gone}
use wye.Process.{Process, Model, destroy, is_running, run_model, run_process, run_application}
use wye.Process.Lifetime.{Spares, destroy-Reaped, destroy_keeps_gone}
use wye.Process.Running.{by_run_model, run_model-refused}
use wye.Worker.{WorkerState, running, stopped}

module _ ⦃k : Kernel⦄ where
  open k use {
    Os, phase, launch, launch_other, launch_refused, poll, poll_alive, poll_zombie, poll_gone,
    poll_other,
  }

  pub Spares-cases :
      (p : ℕ) (q : Process) → Spares p q ⊎ ((c : Child) × (q.proc ≡ some c) × (p ≡ c.pid))
  Spares-cases p q = elim (Option-cases q.proc) [
    | inl e ↦ inl (λ c pr. absurd (cc))
    | inr (c, e) ↦ elim (ℕ_discrete p c.pid) [
      | yes same ↦ inr (c, e, same)
      | no other ↦ inl (λ c' pr eq. other (ground arith))
    ]
  ]

  -- A process that is gone when the object does not hold it is gone once the destructor returns.
  pub destroy_leaves_gone :
      (q : Process) (p : ℕ) (s : Os)
      → (destroy q s).0 ≡ ok tt
      → (Spares p q → phase p s ≡ gone)
      → phase p (destroy q s).1 ≡ gone
  destroy_leaves_gone q p s h g = elim (Spares-cases p q) [
    | inl sp ↦ destroy_keeps_gone q p s (g sp) h
    | inr (c, e, same) ↦ rw same (destroy-Reaped q s h c e)
  ]

  poll_lost : (p : ℕ) (s : Os) → (poll p s).0 ≡ false → phase p (poll p s).1 ≡ gone
  poll_lost p s h = go (phase p s) refl
    where
      go : (ph : Phase) → phase p s ≡ ph → phase p (poll p s).1 ≡ gone
      go alive e = ground (arith, poll_alive p s e)
      go zombie e = (poll_zombie p s e).1
      go gone e = rw (poll_gone p s e) e

  is_running-proc :
      (q : Process) (s : Os)
      → ((is_running (q, s)).1.0.proc ≡ q.proc)
        ⊎ ((c : Child) × (q.proc ≡ some c)
            × ((poll c.pid s).0 ≡ false)
            × ((is_running (q, s)).1.1 ≡ (poll c.pid s).1))
  unfolding is_running
  is_running-proc q s = go q.state q.proc refl refl
    where
      go :
          (st : WorkerState) (o : Option Child)
          → q.state ≡ st
          → q.proc ≡ o
          → ((is_running (q, s)).1.0.proc ≡ q.proc)
            ⊎ ((c : Child) × (q.proc ≡ some c)
                × ((poll c.pid s).0 ≡ false)
                × ((is_running (q, s)).1.1 ≡ (poll c.pid s).1))
      go stopped o e f = inl (ground arith)
      go running none e f = inl (ground arith)
      go running (some c) e f = elim (Bool-cases (poll c.pid s).0) [
        | inl b ↦ inl (ground arith)
        | inr b ↦ inr (c, f, b, ground arith)
      ]

  -- A worker lets go of its child only when the system no longer knows the child.
  pub is_running_lets_go :
      (q : Process) (p : ℕ) (s : Os)
      → Spares p (is_running (q, s)).1.0
      → Spares p q ⊎ (phase p (is_running (q, s)).1.1 ≡ gone)
  is_running_lets_go q p s h = elim (is_running-proc q s) [
    | inl kept ↦ inl (λ c pr. h c (kept ∙ pr))
    | inr (c, pr, lost, os) ↦ elim (Spares-cases p q) [
      | inl sp ↦ inl sp
      | inr (d, pr', e) ↦
          let same : p ≡ c.pid = ground arith in inr (rw (os, same) (poll_lost c.pid s lost))
    ]
  ]

  -- No launch gives a child this number.
  abbrev pub NotReused : ℕ → Type 0
  NotReused p =
      (exec : Text) (args : List Text) (s : Os) (c : Child)
      → (launch exec args s).0 ≡ started c
      → p ≢ c.pid

  module _ ⦃t : PropertyTree⦄ where
    pub run_model-child :
        (q : Process) (s s' : Os) (c : Child)
        → launch q.exec q.args s ≡ (started c, s')
        → (m : Model) → ((run_model m (q, s)).1.0.proc ≡ some c) × ((run_model m (q, s)).1.1 ≡ s')
    run_model-child q s s' c l m =
        by_run_model (λ f. ((f (q, s)).1.0.proc ≡ some c) × ((f (q, s)).1.1 ≡ s')) m
          (unfold run_application in ground arith) (unfold run_process in ground arith)

    -- What the object does not hold after its start is as it was before.
    pub run_model_other :
        (q : Process) (p : ℕ) (s : Os) (m : Model)
        → Spares p (run_model m (q, s)).1.0
        → phase p (run_model m (q, s)).1.1 ≡ phase p s
    run_model_other q p s m sp = go (launch q.exec q.args s) refl
      where
        go :
            (l : Launch × Os)
            → launch q.exec q.args s ≡ l
            → phase p (run_model m (q, s)).1.1 ≡ phase p s
        go (refused x, s') l =
            ap (λ r. phase p r.1.1) (run_model-refused q s s' x l m)
            ∙ (ap (λ r. phase p r.1) (sym l) ∙ launch_refused q.exec q.args s x p (ap (λ r. r.0) l))
        go (started c, s') l =
            let (pr, os) = run_model-child q s s' c l m in
            ap (phase p) os
            ∙ (ap (λ r. phase p r.1) (sym l)
                ∙ launch_other q.exec q.args s c p (ap (λ r. r.0) l) (sp c pr))

    -- A process that is gone, and whose number no launch gives again, stays gone when a worker is
    -- started.
    pub run_model_keeps_gone :
        (q : Process) (p : ℕ) (s : Os) (m : Model)
        → NotReused p
        → phase p s ≡ gone
        → phase p (run_model m (q, s)).1.1 ≡ gone
    run_model_keeps_gone q p s m new g = go (launch q.exec q.args s) refl
      where
        go :
            (l : Launch × Os) → launch q.exec q.args s ≡ l → phase p (run_model m (q, s)).1.1 ≡ gone
        go (refused x, s') l =
            ap (λ r. phase p r.1.1) (run_model-refused q s s' x l m)
            ∙ ap (λ r. phase p r.1) (sym l)
            ∙ launch_refused q.exec q.args s x p (ap (λ r. r.0) l)
            ∙ g
        go (started c, s') l =
            let (_, os) = run_model-child q s s' c l m in
            let begun = ap (λ r. r.0) l in
            ap (phase p) os
            ∙ ap (λ r. phase p r.1) (sym l)
            ∙ launch_other q.exec q.args s c p begun (new q.exec q.args s c begun)
            ∙ g
