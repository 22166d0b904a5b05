-- ===== src/Manager/Tables.antt =====
-- What each call of src/manager.C makes of the two tables, whatever its destructors and its child
-- do.
use wye.Common.{ℕ, suc, ◌≡◌, refl, none, some, Option}
use wye.OrderedMap.{find, insert, erase}
use wye.Text.{Text}
use wye.Text.Order.{text_order}
use wye.Outcome.{ok, ◌>>◌}
use wye.Manager.Jobs.{first_of_job, erase_workers_of}
use wye.Kernel.{Kernel}
use wye.Process.{Process}
use wye.Manager.State.{World}
use wye.Manager.Workers.{drop_worker, erase_worker, store_worker}

module _ ⦃k : Kernel⦄ (w : World) where
  workers-drop : (o : Option Process) → (drop_worker o w).1.workers ≡ w.workers
  unfolding drop_worker
  workers-drop none = refl
  workers-drop (some q) = refl

  jobs-drop : (o : Option Process) → (drop_worker o w).1.jobs ≡ w.jobs
  unfolding drop_worker
  jobs-drop none = refl
  jobs-drop (some q) = refl

module _ ⦃k : Kernel⦄ (w : World) where
  pub workers-erase : (id : Text) → (erase_worker id w).1.workers ≡ erase id w.workers
  unfolding erase_worker
  workers-erase id = workers-drop (record w { workers = erase id w.workers }) (find id w.workers)

  pub jobs-erase : (id : Text) → (erase_worker id w).1.jobs ≡ w.jobs
  unfolding erase_worker
  jobs-erase id = jobs-drop (record w { workers = erase id w.workers }) (find id w.workers)

  pub workers-store : (q : Process) → (store_worker q w).1.workers ≡ insert q.id q w.workers
  unfolding store_worker
  workers-store q =
      workers-drop (record w { workers = insert q.id q w.workers }) (find q.id w.workers)

  pub jobs-store : (q : Process) → (store_worker q w).1.jobs ≡ w.jobs
  unfolding store_worker
  jobs-store q = jobs-drop (record w { workers = insert q.id q w.workers }) (find q.id w.workers)

module _ ⦃k : Kernel⦄ where
  -- A round of the loop of delete_job that finds an entry, and one that finds none.
  pub round_hit :
      (n : ℕ) (id key : Text) (w : World)
      → first_of_job id w.workers ≡ some key
      → erase_workers_of (suc n) id w ≡ (erase_worker key >> erase_workers_of n id) w
  unfolding erase_workers_of
  round_hit n id key w h = rw (h, erase_workers_of)

  pub round_miss :
      (n : ℕ) (id : Text) (w : World)
      → first_of_job id w.workers ≡ none
      → erase_workers_of (suc n) id w ≡ (ok tt, w)
  unfolding erase_workers_of
  round_miss n id w h = rw (h, erase_workers_of)
