-- ===== src/Manager/Jobs.antt =====
-- The operations of src/manager.C on jobs.
use wye.Common.{ℕ, zero, suc, Option, none, some, [], ◌∷◌, ◌++◌, if◌then◌else◌, is_empty, length}
use wye.OrderedMap.{Map, find, insert, erase}
use wye.Text.{Text, lit, text_eq}
use wye.Text.Order.{text_order}
use wye.Outcome.{
  Exec, ok, throws, blocks, invalid_request, lift, pure, gets, modify, or_throw, ◌>>=◌, ◌>>◌,
}
use wye.Ptree.{PropertyTree}
use wye.Kernel.{Kernel}
use wye.Job.{Job, new_job}
use wye.Process.{Process}
use wye.Process.Report.{describe}
use wye.Manager.State.{World}
use wye.Manager.Workers.{get_id, erase_worker}

-- The first entry that the loop of delete_job finds, if any.
unfoldable pub first_of_job : Text → Map Text Process → Option Text
first_of_job id [] = none
first_of_job id ((key, q) ∷ m) = if text_eq q.job_id id then some key else first_of_job id m

module _ ⦃k : Kernel⦄ where
  -- `while (1)`: one entry is erased in each round, until a round finds none. The fuel bounds the
  -- rounds, and `blocks` stands for a loop that goes on.
  unfoldable pub erase_workers_of : ℕ → Text → Exec World (Unit {0})
  erase_workers_of zero id w = (blocks, w)
  erase_workers_of (suc n) id w = elim (first_of_job id w.workers) [
    | none ↦ (ok tt, w)
    | some key ↦ (erase_worker key >> erase_workers_of n id) w
  ]

  unfoldable pub known_job : Text → Exec World Job
  known_job id w = elim (find id w.jobs) [
    | none ↦ (throws (invalid_request (lit "Job '" ++ (id ++ lit "' not known."))), w)
    | some j ↦ (ok j, w)
  ]

  erase_job : Text → Exec World (Unit {0})
  erase_job id = modify (λ w. record w { jobs = erase id w.jobs })

  -- jobs[j.id] = j
  store_job : Job → Exec World (Unit {0})
  store_job j = modify (λ w. record w { jobs = insert j.id j w.jobs })

  -- One round more than there are entries.
  unfoldable pub erase_all_of : Text → Exec World (Unit {0})
  erase_all_of id w = erase_workers_of (suc (length w.workers)) id w

  module _ ⦃t : PropertyTree⦄ where
    open t use {Tree, empty, get_string, put, add_child}

    unfoldable pub create_job : Text → Tree → Exec World Tree
    unfolding store_job new_job
    create_job uuid p = do
      name ←
          lift
            (or_throw (get_string (lit "name") p) (invalid_request (lit "Must supply a 'name'.")))
      description ← lift (
          or_throw (get_string (lit "description") p)
            (invalid_request (lit "Must supply a 'description'.")))
      let j = record (new_job uuid) { name = name; description = description }
      store_job j
      pure (put (lit "id") j.id empty)

    unfoldable pub delete_job : Tree → Exec World Tree
    unfolding known_job erase_job get_id
    delete_job p = do id ← lift (get_id p); known_job id; erase_all_of id; erase_job id; pure empty

    -- What get_job and get_jobs show of a job itself.
    unfoldable pub put_if : Text → Text → Tree → Tree
    put_if key v e = if is_empty v then e else put key v e

    unfoldable pub describe_job : Job → Tree → Tree
    describe_job j e = put_if (lit "description") j.description (put_if (lit "name") j.name e)

    -- for (auto v : jobs)
    unfoldable pub describe_jobs : Map Text Job → Tree → Tree
    describe_jobs [] r = r
    describe_jobs ((key, j) ∷ m) r = describe_jobs m (add_child key (describe_job j empty) r)

    unfoldable pub get_jobs : Tree → Exec World Tree
    get_jobs p = gets (λ w. describe_jobs w.jobs empty)

    -- for (auto v : workers) if (v.second->job_id == id) …
    unfoldable pub describe_workers_of : Text → Map Text Process → Tree → Tree
    describe_workers_of id [] w = w
    describe_workers_of id ((key, q) ∷ m) w =
        describe_workers_of id m
          (if text_eq q.job_id id then add_child key (describe q empty) w else w)

    unfoldable pub get_job : Tree → Exec World Tree
    unfolding known_job get_id
    get_job p = do
      id ← lift (get_id p)
      j ← known_job id
      ws ← gets (λ w. describe_workers_of id w.workers empty)
      pure (add_child (lit "workers") ws (describe_job j empty))
