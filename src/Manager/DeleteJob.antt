-- ===== src/Manager/DeleteJob.antt =====
-- What manager::delete_job of src/manager.C does on each of its branches.
use wye.Common.{◌≡◌, refl, [], ◌∷◌, arith, some, if◌then◌else◌}
use wye.OrderedMap.{Map, find, erase}
use wye.OrderedMap.Laws.{IsSorted}
use wye.Text.{Text, lit, text_eq}
use wye.Text.Order.{text_order}
use wye.Outcome.{ok}
use wye.Ptree.{PropertyTree}
use wye.Kernel.{Kernel}
use wye.Job.{Job}
use wye.Process.{Process, destroy}
use wye.Manager.State.{World}
use wye.Manager.Jobs.{delete_job, erase_all_of}
use wye.Manager.Deletion.{destroy_job, erase_all_of-eq-pass, with_left, continue_pass, keep}

-- The entries of the workers of other jobs, in their order.
unfoldable pub others : Text → Map Text Process → Map Text Process
others id [] = []
others id ((key, q) ∷ m) =
    let rest = others id m in if text_eq q.job_id id then rest else (key, q) ∷ rest

module _ ⦃k : Kernel⦄ where
  open k use {Os}

  pass-others :
      (id : Text) (m : Map Text Process) (s : Os)
      → (destroy_job id m s).0 ≡ ok tt
      → (destroy_job id m s).1 ≡ others id m
  unfolding others destroy_job keep continue_pass
  pass-others id [] s h = refl
  pass-others id ((key, q) ∷ m) s h =
      ground (arith, pass-others id m s, pass-others id m (destroy q s).1)

  module _ ⦃t : PropertyTree⦄ where
    open t use {Tree, empty, get_string}

    pub delete_known_job :
        (p : Tree) (w : World) (id : Text) (j : Job)
        → get_string (lit "id") p ≡ some id
        → find id w.jobs ≡ some j
        → erase_all_of id w ≡ with_left w (destroy_job id w.workers w.os)
        → (destroy_job id w.workers w.os).0 ≡ ok tt
        → delete_job p w ≡ (
          ok empty,
          record w {
            workers = others id w.workers;
            jobs = erase id w.jobs;
            os = (destroy_job id w.workers w.os).2;
          },
        )
    unfolding delete_job
    delete_known_job p w id j h f e d = ground (arith, pass-others id w.workers w.os)

    -- delete-job with the identifier of a job, when the destructors of the job's workers return:
    -- the workers of the job, and no others, are gone from the table, in one pass that destroyed
    -- each of them, and so is the job. The table of workers is sorted.
    pub delete_job_removes :
        (p : Tree) (w : World) (id : Text) (j : Job)
        → IsSorted w.workers
        → get_string (lit "id") p ≡ some id
        → find id w.jobs ≡ some j
        → (destroy_job id w.workers w.os).0 ≡ ok tt
        → delete_job p w ≡ (
          ok empty,
          record w {
            workers = others id w.workers;
            jobs = erase id w.jobs;
            os = (destroy_job id w.workers w.os).2;
          },
        )
    delete_job_removes p w id j srt h f d =
        delete_known_job p w id j h f (erase_all_of-eq-pass id w srt) d
