-- ===== src/Manager/Monitor/Sweep.antt =====
-- When a round of the background thread of src/manager.C ends the program.
use wye.Common.{◌≡◌, ◌≢◌, ◌⊎◌, inl, inr, refl, sym, ◌∙◌, Option, [], ◌∷◌, arith, none, some}
use wye.OrderedMap.{Map}
use wye.OrderedMap.Entries.{Entries}
use wye.Text.{Text}
use wye.Text.Order.{text_order}
use wye.Outcome.{ok, aborts}
use wye.Kernel.{Kernel, Child}
use wye.Worker.{WorkerState, running, stopped}
use wye.Process.{Process, is_running}
use wye.Manager.State.{World}
use wye.Manager.Monitor.{check_workers, sweep, thread_end}

-- A worker that counts as running has a child.
pub record HasChild (key : Text) (q : Process) : Type 0 where
  pub child : q.state ≡ running → q.proc ≢ none

abbrev pub IsOrphan : Process → Type 0
IsOrphan q = (q.state ≡ running) × (q.proc ≡ none)

child_or_IsOrphan : (key : Text) (q : Process) → HasChild key q ⊎ IsOrphan q
child_or_IsOrphan key q = go q.state q.proc refl refl
  where
    go :
        (st : WorkerState) (c : Option Child)
        → q.state ≡ st
        → q.proc ≡ c
        → HasChild key q ⊎ IsOrphan q
    go stopped c e f = inl (record { child = λ h. absurd (cc) })
    go running none e f = inr (e, f)
    go running (some c) e f = inl (record { child = λ h n. cc })

module _ ⦃k : Kernel⦄ where
  open k use {Os}

  is_running_child :
      (key : Text) (q : Process) (s : Os)
      → HasChild key q
      → thread_end (is_running (q, s)).0 ≡ ok tt
  unfolding is_running thread_end
  is_running_child key q s h = ground arith

  is_running_orphan :
      (q : Process) (s : Os) → IsOrphan q → thread_end (is_running (q, s)).0 ≡ aborts
  unfolding is_running thread_end
  is_running_orphan q s h = ground arith

  module _ (key : Text) (q : Process) (m : Map Text Process) (s : Os) where
    abbrev next : Os
    next = (is_running (q, s)).1.1

    check_on :
        thread_end (is_running (q, s)).0 ≡ ok tt
        → ((check_workers ((key, q) ∷ m) s).0 ≡ (check_workers m next).0)
          × ((check_workers ((key, q) ∷ m) s).1.0
              ≡ (key, (is_running (q, s)).1.0) ∷ (check_workers m next).1.0)
          × ((check_workers ((key, q) ∷ m) s).1.1 ≡ (check_workers m next).1.1)
    unfolding check_workers
    check_on h = ground arith

    check_abort :
        thread_end (is_running (q, s)).0 ≡ aborts → (check_workers ((key, q) ∷ m) s).0 ≡ aborts
    unfolding check_workers
    check_abort h = ground arith

  pub orphan-ne-child : (key : Text) (q : Process) → IsOrphan q → ¬ HasChild key q
  orphan-ne-child key q o h = h.child o.0 o.1

  check-end :
      (m : Map Text Process) (s : Os)
      → (((check_workers m s).0 ≡ ok tt) × Entries HasChild m)
        ⊎ (((check_workers m s).0 ≡ aborts) × ¬ Entries HasChild m)
  check-end [] s = inl (unfold check_workers in refl, tt)
  check-end ((key, q) ∷ m) s = elim (child_or_IsOrphan key q) [
    | inr o ↦
        inr (check_abort key q m s (is_running_orphan q s o), λ h. orphan-ne-child key q o h.0)
    | inl c ↦
        let on = check_on key q m s (is_running_child key q s c) in
        elim (check-end m (next key q m s)) [
          | inl (e, h) ↦ inl (on.0 ∙ e, (c, h))
          | inr (e, h) ↦ inr (on.0 ∙ e, λ h'. h h'.1)
        ]
  ]

  -- A round either checks every worker, when each one that counts as running has a child, or ends
  -- the whole program, when some worker counts as running and has none. Nothing else can happen.
  pub sweep-end :
      (w : World)
      → (((sweep w).0 ≡ ok tt) × Entries HasChild w.workers)
        ⊎ (((sweep w).0 ≡ aborts) × ¬ Entries HasChild w.workers)
  unfolding sweep
  sweep-end w = check-end w.workers w.os

module _ ⦃k : Kernel⦄ where
  -- A round that returns has called `is_running` on the first worker and then on the others.
  pub check_step :
      (key : Text) (q : Process) (m : Map Text Process) (s : k.Os)
      → (check_workers ((key, q) ∷ m) s).0 ≡ ok tt
      → let s' = (is_running (q, s)).1.1 in
        ((check_workers m s').0 ≡ ok tt)
        × ((check_workers ((key, q) ∷ m) s).1.0
            ≡ (key, (is_running (q, s)).1.0) ∷ (check_workers m s').1.0)
        × ((check_workers ((key, q) ∷ m) s).1.1 ≡ (check_workers m s').1.1)
  check_step key q m s h = elim (child_or_IsOrphan key q) [
    | inr o ↦ absurd (cc (check_abort key q m s (is_running_orphan q s o)))
    | inl c ↦ let (a, b, d) = check_on key q m s (is_running_child key q s c) in (sym a ∙ h, b, d)
  ]
