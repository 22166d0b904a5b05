-- ===== src/Manager/Invariant/Rounds.antt =====
-- A round of the background thread of src/manager.C, the end of the service, and the well-formedness
-- of the tables.
use Prim.Native.Nat.{Ordering}
use wye.Common.{◌≡◌, [], ◌∷◌, arith, All}
use wye.OrderedMap.{Map}
use wye.OrderedMap.Laws.{IsSorted}
use wye.OrderedMap.Entries.{Entries}
use wye.Text.{Text}
use wye.Text.Order.{text_order, compare_text}
use wye.Kernel.{Kernel}
use wye.Process.{Process, is_running}
use wye.Manager.State.{World}
use wye.Manager.Monitor.{check_workers, sweep, stop}
use wye.Manager.Invariant.{GoodWorker, WellFormed}

module _ ⦃k : Kernel⦄ where
  open k use {Os}

  is_running-GoodWorker :
      (key : Text) (q : Process) (s : Os)
      → GoodWorker key q
      → GoodWorker key (is_running (q, s)).1.0
  unfolding is_running
  is_running-GoodWorker key q s g = ground arith

  -- What `is_running` keeps of each worker, a round keeps of all.
  pub check-Entries :
      (P : Text → Process → Type 0)
      → ((key : Text) (q : Process) (s : Os) → P key q → P key (is_running (q, s)).1.0)
      → (m : Map Text Process) (s : Os) → Entries P m
      → Entries P (check_workers m s).1.0
  unfolding check_workers
  check-Entries P f [] s h = tt
  check-Entries P f ((key, q) ∷ m) s h =
      ground (arith, f key q s h.0, check-Entries P f m (is_running (q, s)).1.1 h.1)

  abbrev Below : Text → Map Text Process → Type 0
  Below i m = All (λ e. compare_text i e.0 ≡ Ordering.lt) m

  check-Below :
      (i : Text) (m : Map Text Process) (s : Os) → Below i m → Below i (check_workers m s).1.0
  unfolding check_workers
  check-Below i [] s h = tt
  check-Below i ((key, q) ∷ m) s h = ground (arith, check-Below i m (is_running (q, s)).1.1 h.1)

  pub check-IsSorted :
      (m : Map Text Process) (s : Os) → IsSorted m → IsSorted (check_workers m s).1.0
  unfolding check_workers
  check-IsSorted [] s h = tt
  check-IsSorted ((key, q) ∷ m) s h = ground (
    arith,
    check-IsSorted m (is_running (q, s)).1.1 h.1,
    check-Below key m (is_running (q, s)).1.1 h.0,
  )

  pub sweep-WellFormed : (w : World) → WellFormed w → WellFormed (sweep w).1
  unfolding sweep
  sweep-WellFormed w v = record {
    workers_sorted = check-IsSorted w.workers w.os v.workers_sorted;
    jobs_sorted = v.jobs_sorted;
    workers_good = check-Entries GoodWorker is_running-GoodWorker w.workers w.os v.workers_good;
    jobs_good = v.jobs_good;
  }

  pub stop-WellFormed : (w : World) → WellFormed w → WellFormed (stop w).1
  unfolding stop
  stop-WellFormed w v = record {
    workers_sorted = tt;
    jobs_sorted = v.jobs_sorted;
    workers_good = tt;
    jobs_good = v.jobs_good;
  }
