-- ===== src/Manager/Children/Requests.antt =====
-- The requests on src/manager.C and the children that its workers hold.
use wye.Common.{◌≡◌, refl, ap, none, some}
use wye.OrderedMap.{find}
use wye.OrderedMap.Laws.{find-insert, same_self}
use wye.Text.{Text}
use wye.Text.Order.{text_order}
use wye.Outcome.{Exec}
use wye.Outcome.Settled.{Settles, bind-Settles}
use wye.Ptree.{PropertyTree}
use wye.Kernel.{Kernel}
use wye.Process.{Process, run_model}
use wye.Manager.State.{World}
use wye.Manager.Tables.{workers-store}
use wye.Manager.Workers.{store_worker, on_worker, catch_all, as_runtime_error, start_worker}
use wye.Manager.Kept.{Any, KeptByParts, handle-Settles}
use wye.Manager.Children.{Tracked, erase_worker-Tracked, store_worker-Tracked, on_worker-Tracked}
use wye.Manager.{handle}

module _ ⦃k : Kernel⦄ where
  pub catch_all-Settles :
      {A : Type 0} (P : World → Type 0) (m : Exec World A) (w : World)
      → Settles P (m w)
      → Settles P (catch_all m w)
  unfolding catch_all as_runtime_error
  catch_all-Settles P m w h nb na =
      h (λ e. nb (ap as_runtime_error e)) (λ e. na (ap as_runtime_error e))

  module _ ⦃t : PropertyTree⦄ where
    start_worker-Tracked :
        (q : Process) (w : World) → q.proc ≡ none → Tracked w → Settles Tracked (start_worker q w)
    unfolding start_worker
    start_worker-Tracked q w n v = catch_all-Settles Tracked _ w (
        bind-Settles Tracked (λ _. on_worker q (run_model q.model)) (store_worker q) w
          (store_worker-Tracked q w v) (λ _ _ v' _ _. on_worker-Tracked q _ q.model stored n v'))
      where
        stored : find q.id (store_worker q w).1.workers ≡ some q
        stored = rw (workers-store w q, find-insert q.id q.id q w.workers, same_self q.id) refl

    Tracked-KeptByParts : KeptByParts Any Tracked
    Tracked-KeptByParts = record {
      erased = erase_worker-Tracked;
      started = λ q w _ _ n v. start_worker-Tracked q w n v;
      jobs_changed = λ w m v. record { sorted = v.sorted; held = v.held };
    }

    -- A request that returns or throws loses no process.
    pub handle-Tracked :
        (uuid : Text) (p : t.Tree) (w : World) → Tracked w → Settles Tracked (handle uuid p w)
    handle-Tracked uuid p w v = handle-Settles Any Tracked Tracked-KeptByParts uuid p w tt v
