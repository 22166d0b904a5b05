-- ===== src/Manager.antt =====
-- src/manager.h and src/manager.C: the tables of jobs and workers, and the operations that a
-- request names. Each handler holds its mutexes from its first access of a table to its end, so it
-- is one step of the state; `uuid` is the text of the identifier that a constructor generates.
pub mod State
pub mod Workers
pub mod Jobs
pub mod Monitor
pub mod Errors
pub mod Deletion
pub mod DeleteJob
pub mod DeleteWorker
pub mod Tables
pub mod Invariant
pub mod Kept
pub mod Reuse
pub mod Children
pub mod Start
pub mod Listings
pub mod JobView
pub mod Listed
pub mod Registry
pub mod Prepared
pub mod Termination
pub mod Survival
use wye.Common.{Bool, true, false, List, [], ◌∷◌, ◌++◌, if◌then◌else◌}
use wye.Text.{Text, lit, text_eq}
use wye.Outcome.{Exec, Outcome, lift, or_throw, raise, invalid_request, ◌>>=◌}
use wye.Ptree.{PropertyTree}
use wye.Kernel.{Kernel}
use wye.Manager.State.{World}
use wye.Manager.Workers.{create_worker, get_workers, delete_worker}
use wye.Manager.Jobs.{create_job, get_job, get_jobs, delete_job}

module _ ⦃k : Kernel⦄ ⦃t : PropertyTree⦄ where
  open t use {Tree, get_string}

  -- The chain of tests on the operation's name.
  unfoldable pub dispatch : Text → Text → Tree → Exec World Tree
  dispatch op uuid p =
      if text_eq op (lit "create-worker")
      then create_worker uuid p
      else if text_eq op (lit "get-workers")
      then get_workers p
      else if text_eq op (lit "delete-worker")
      then delete_worker p
      else if text_eq op (lit "create-job")
      then create_job uuid p
      else if text_eq op (lit "get-job")
      then get_job p
      else if text_eq op (lit "get-jobs")
      then get_jobs p
      else if text_eq op (lit "delete-job")
      then delete_job p
      else raise (invalid_request (lit "Operation '" ++ (op ++ lit "' not recognised.")))

  -- manager::handle
  unfoldable pub handle : Text → Tree → Exec World Tree
  handle uuid p = do
    op ← lift (
        or_throw (get_string (lit "operation") p)
          (invalid_request (lit "Must supply an 'operation' value")))
    dispatch op uuid p
