-- ===== src/Service/Threads/Local.antt =====
-- A call of src/manager.C that does without `workers_mutex` neither reads nor changes what that
-- mutex guards.
use wye.Common.{Bool, true, false, Option, none, some, ◌≡◌, refl, arith, if◌then◌else◌}
use wye.OrderedMap.{Map}
use wye.Text.{Text, lit, text_eq}
use wye.Text.Order.{text_order}
use wye.Outcome.{Exec}
use wye.Ptree.{PropertyTree}
use wye.Kernel.{Kernel}
use wye.Process.{Process}
use wye.Manager.State.{World}
use wye.Manager.{handle, dispatch}
use wye.Manager.Workers.{prepare_worker, create_worker, delete_worker, get_id}
use wye.Manager.Jobs.{create_job, delete_job, get_job, get_jobs, known_job}
use wye.Service.Threads.{
  Entry, request, signal, perform, is_ok, is_given, is_known, takes_workers, needs_workers,
}

module _ ⦃k : Kernel⦄ ⦃t : PropertyTree⦄ where
  open k use {Os}
  open t use {Tree, get_string}

  -- The same jobs, with other workers and another system.
  abbrev pub beside : World → Map Text Process → Os → World
  beside w m s = record w { workers = m; os = s }

  -- What happens to the jobs does not depend on the rest, and leaves it alone.
  abbrev pub IsLocal : Exec World Tree → World → Type 0
  IsLocal f w = (m : Map Text Process) (s : Os) → f (beside w m s) ≡ ((f w).0, beside (f w).1 m s)

  module _ (uuid : Text) (p : Tree) (w : World) where
    create_worker-IsLocal : is_ok (prepare_worker uuid p) ≡ false → IsLocal (create_worker uuid p) w
    unfolding create_worker
    create_worker-IsLocal h m s = ground arith

    delete_worker-IsLocal : is_given (get_string (lit "id") p) ≡ false → IsLocal (delete_worker p) w
    unfolding delete_worker get_id
    delete_worker-IsLocal h m s = ground arith

    create_job-IsLocal : IsLocal (create_job uuid p) w
    unfolding create_job
    create_job-IsLocal m s = ground arith

    get_jobs-IsLocal : IsLocal (get_jobs p) w
    unfolding get_jobs
    get_jobs-IsLocal m s = refl

    get_job-IsLocal : is_known w.jobs (get_string (lit "id") p) ≡ false → IsLocal (get_job p) w
    unfolding get_job get_id known_job
    get_job-IsLocal h m s = ground arith

    delete_job-IsLocal :
        is_known w.jobs (get_string (lit "id") p) ≡ false → IsLocal (delete_job p) w
    unfolding delete_job get_id known_job
    delete_job-IsLocal h m s = ground arith

    by_name :
        (b : Bool) {x y : Bool} (f g : Exec World Tree)
        → (x ≡ false → IsLocal f w)
        → (y ≡ false → IsLocal g w)
        → (if b then x else y) ≡ false
        → IsLocal (if b then f else g) w
    by_name true f g hf hg h = hf h
    by_name false f g hf hg h = hg h

    dispatch-IsLocal :
        (op : Text) → takes_workers op uuid p w.jobs ≡ false → IsLocal (dispatch op uuid p) w
    unfolding dispatch takes_workers
    dispatch-IsLocal op = by_name (text_eq op (lit "create-worker")) _ _ create_worker-IsLocal (
        by_name (text_eq op (lit "get-workers")) _ _ (λ h. absurd (cc h))
          (by_name (text_eq op (lit "delete-worker")) _ _ delete_worker-IsLocal (
            by_name (text_eq op (lit "create-job")) _ _ (λ h. create_job-IsLocal)
              (by_name (text_eq op (lit "get-job")) _ _ get_job-IsLocal (
                by_name (text_eq op (lit "get-jobs")) _ _ (λ h. get_jobs-IsLocal)
                  (by_name (text_eq op (lit "delete-job")) _ _ delete_job-IsLocal
                    (λ h m s. refl)))))))

    handle-IsLocal : needs_workers (request uuid p) w.jobs ≡ false → IsLocal (handle uuid p) w
    unfolding needs_workers handle
    handle-IsLocal h m s = go (get_string (lit "operation") p) refl
      where
        go :
            (o : Option Text)
            → get_string (lit "operation") p ≡ o
            → handle uuid p (beside w m s) ≡ ((handle uuid p w).0, beside (handle uuid p w).1 m s)
        go none e = ground arith
        go (some op) e = rw (e, handle) (dispatch-IsLocal op (rw (e, needs_workers) at h) m s)

  pub perform-IsLocal :
      (c : Entry) (w : World) → needs_workers c w.jobs ≡ false → IsLocal (perform c) w
  unfolding perform needs_workers
  perform-IsLocal (request uuid p) w h m s = handle-IsLocal uuid p w h m s
  perform-IsLocal signal w h m s = absurd (cc h)
