-- ===== src/Manager/Monitor/Launched.antt =====
-- The workers of src/manager.C while the system refuses no launch: each one that counts as running
-- has a child, so that no round of the background thread ends the program.
use wye.Common.{◌≡◌, ◌≢◌, sym, ap, ◌∙◌, List, none, some, arith}
use wye.OrderedMap.{insert}
use wye.OrderedMap.Entries.{Entries, insert-Entries, erase-Entries}
use wye.OrderedMap.Outside.{insert-insert}
use wye.Text.{Text}
use wye.Text.Order.{text_order}
use wye.Outcome.Settled.{Settles, bind_after-Settles}
use wye.Ptree.{PropertyTree}
use wye.Kernel.{Kernel, Child, started}
use wye.Process.{Process, is_running, run_model}
use wye.Process.Holding.{run_model-child}
use wye.Manager.State.{World}
use wye.Manager.Tables.{workers-erase, workers-store}
use wye.Manager.Errors.{store_worker-ne-throws}
use wye.Manager.Workers.{store_worker, on_worker, start_worker}
use wye.Manager.Kept.{Any, KeptByParts, handle-Settles}
use wye.Manager.Children.Requests.{catch_all-Settles}
use wye.Manager.Invariant.Rounds.{check-Entries}
use wye.Manager.Monitor.{sweep}
use wye.Manager.Monitor.Sweep.{HasChild}
use wye.Manager.{handle}

module _ ⦃k : Kernel⦄ where
  open k use {Os, launch}

  -- No launch is refused.
  abbrev pub Launches : Type 0
  Launches =
      (exec : Text) (args : List Text) (s : Os) → (c : Child) × ((launch exec args s).0 ≡ started c)

  -- Each worker of the table that counts as running has a child.
  abbrev pub AllHaveChild : World → Type 0
  AllHaveChild w = Entries HasChild w.workers

  is_running-HasChild :
      (key : Text) (q : Process) (s : Os) → HasChild key q → HasChild key (is_running (q, s)).1.0
  unfolding is_running
  is_running-HasChild key q s h = ground arith

  pub sweep-AllHaveChild : (w : World) → AllHaveChild w → AllHaveChild (sweep w).1
  unfolding sweep
  sweep-AllHaveChild w v = check-Entries HasChild is_running-HasChild w.workers w.os v

  module _ ⦃t : PropertyTree⦄ (can : Launches) where
    run_model-HasChild : (q : Process) (s : Os) → HasChild q.id (run_model q.model (q, s)).1.0
    run_model-HasChild q s =
        let (c, e) = can q.exec q.args s in
        let s' = (launch q.exec q.args s).1 in
        let (pr, _) = run_model-child q s s' c (ap (λ x. (x, s')) e) q.model in
        record { child = λ _ n. none-ne-child c (sym n ∙ pr) }
      where
        none-ne-child : (c : Child) → none ≢ some c
        none-ne-child c e = cc

    start_worker-AllHaveChild :
        (q : Process) (w : World) → AllHaveChild w → Settles AllHaveChild (start_worker q w)
    unfolding start_worker
    start_worker-AllHaveChild q w v = catch_all-Settles AllHaveChild _ w (
        bind_after-Settles AllHaveChild (λ _. on_worker q (run_model q.model)) (store_worker q) w
          (store_worker-ne-throws q w) (λ _ _ _ _. unfold on_worker in kept))
      where
        q' : Process
        q' = (run_model q.model (q, (store_worker q w).1.os)).1.0

        kept : Entries HasChild (insert q.id q' (store_worker q w).1.workers)
        kept =
            rw (workers-store w q, insert-insert q.id q q' w.workers)
              (insert-Entries HasChild q.id q' w.workers (run_model-HasChild q _) v)

    AllHaveChild-KeptByParts : KeptByParts Any AllHaveChild
    AllHaveChild-KeptByParts = record {
      erased = λ id w v _ _. rw (workers-erase w id) (erase-Entries HasChild id w.workers v);
      started = λ q w _ _ _ v. start_worker-AllHaveChild q w v;
      jobs_changed = λ w m v. v;
    }

    pub handle-AllHaveChild :
        (uuid : Text) (p : t.Tree) (w : World)
        → AllHaveChild w
        → Settles AllHaveChild (handle uuid p w)
    handle-AllHaveChild uuid p w v =
        handle-Settles Any AllHaveChild AllHaveChild-KeptByParts uuid p w tt v
