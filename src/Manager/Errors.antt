-- ===== src/Manager/Errors.antt =====
-- Which errors a request can meet, and what they leave of the state.
use wye.Common.{ℕ, zero, suc, ◌≡◌, ◌≢◌, none, some, arith, Option}
use wye.OrderedMap.{find}
use wye.Text.{Text}
use wye.Text.Order.{text_order}
use wye.Outcome.{Outcome, Fault, throws, invalid_request}
use wye.Ptree.{PropertyTree}
use wye.Kernel.{Kernel}
use wye.Process.{Process}
use wye.Process.Lifetime.{destroy-ne-throws}
use wye.Manager.State.{World}
use wye.Manager.Workers.{
  create_worker, get_workers, delete_worker, start_worker, drop_worker, erase_worker, store_worker,
  catch_all,
}
use wye.Manager.Jobs.{create_job, get_job, get_jobs, delete_job, erase_workers_of, erase_all_of}
use wye.Manager.{handle, dispatch}

module _ ⦃k : Kernel⦄ where
  drop_worker-ne-throws :
      (o : Option Process) (w : World) (e : Fault) → (drop_worker o w).0 ≢ throws e
  unfolding drop_worker
  drop_worker-ne-throws none w e = ground arith
  drop_worker-ne-throws (some q) w e = destroy-ne-throws q w.os e

  pub store_worker-ne-throws :
      (q : Process) (w : World) (e : Fault) → (store_worker q w).0 ≢ throws e
  unfolding store_worker
  store_worker-ne-throws q w e = drop_worker-ne-throws (find q.id w.workers) _ e

  pub erase_worker-ne-throws :
      (id : Text) (w : World) (e : Fault) → (erase_worker id w).0 ≢ throws e
  unfolding erase_worker
  erase_worker-ne-throws id w e = drop_worker-ne-throws (find id w.workers) _ e

  pub erase_workers_of-ne-throws :
      (n : ℕ) (id : Text) (w : World) (e : Fault) → (erase_workers_of n id w).0 ≢ throws e
  unfolding erase_workers_of
  erase_workers_of-ne-throws zero id w e h = cc
  erase_workers_of-ne-throws (suc n) id w e h =
      grind (arith, erase_worker-ne-throws, erase_workers_of-ne-throws n)

  module _ ⦃t : PropertyTree⦄ where
    open t use {Tree}

    -- A refusal with `m` leaves the state as it was.
    abbrev RefusesClean : Text → Outcome Tree × World → World → Type 0
    RefusesClean m r w = r.0 ≡ throws (invalid_request m) → r.1 ≡ w

    create_worker_clean :
        (m uuid : Text) (p : Tree) (w : World) → RefusesClean m (create_worker uuid p w) w
    unfolding create_worker start_worker catch_all
    create_worker_clean m uuid p w h = ground arith

    delete_worker_clean : (m : Text) (p : Tree) (w : World) → RefusesClean m (delete_worker p w) w
    unfolding delete_worker
    delete_worker_clean m p w h = grind (arith, erase_worker-ne-throws)

    create_job_clean :
        (m uuid : Text) (p : Tree) (w : World) → RefusesClean m (create_job uuid p w) w
    unfolding create_job
    create_job_clean m uuid p w h = ground arith

    delete_job_clean : (m : Text) (p : Tree) (w : World) → RefusesClean m (delete_job p w) w
    unfolding delete_job erase_all_of
    delete_job_clean m p w h = grind (arith, erase_workers_of-ne-throws)

    get_job_clean : (m : Text) (p : Tree) (w : World) → RefusesClean m (get_job p w) w
    unfolding get_job
    get_job_clean m p w h = ground arith

    dispatch_clean :
        (m op uuid : Text) (p : Tree) (w : World) → RefusesClean m (dispatch op uuid p w) w
    unfolding dispatch get_jobs get_workers
    dispatch_clean m op uuid p w h = ground (
      arith,
      create_worker_clean m uuid p w,
      delete_worker_clean m p w,
      create_job_clean m uuid p w,
      delete_job_clean m p w,
      get_job_clean m p w,
    )

    pub handle_refusal_clean :
        (m uuid : Text) (p : Tree) (w : World)
        → (handle uuid p w).0 ≡ throws (invalid_request m)
        → (handle uuid p w).1 ≡ w
    unfolding handle
    handle_refusal_clean m uuid p w h = grind (arith, dispatch_clean m)
