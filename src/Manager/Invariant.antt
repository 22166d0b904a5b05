-- ===== src/Manager/Invariant.antt =====
-- The well-formedness of the manager's tables in src/manager.C, and the calls that change them.
pub mod Requests
pub mod Rounds
use wye.Common.{
  ℕ, zero, suc, ◌≡◌, refl, sym, ap, subst, ◌∙◌, inl, inr, Bool, true, false, Option, none, some,
  List, [], ◌∷◌, arith, All, Option-cases, length,
}
use wye.OrderedMap.{Map, find, insert, erase}
use wye.OrderedMap.Laws.{IsSorted, insert-IsSorted, erase-IsSorted}
use wye.OrderedMap.Entries.{Entries, insert-Entries, erase-Entries}
use wye.Text.{Text}
use wye.Text.Order.{text_order}
use wye.Outcome.{Exec, Outcome, ok, throws, blocks, aborts}
use wye.Ptree.{PropertyTree}
use wye.Kernel.{Kernel}
use wye.Job.{Job}
use wye.Worker.{running, stopped}
use wye.Process.{
  Process, This, Model, application, executable, python, lambda, lua, run_model, is_running, run,
}
use wye.Models.{init_model}
use wye.Models.Fields.{SameObject, init_model-SameObject}
use wye.Process.Running.{run_model-same}
use wye.Manager.State.{World, new_manager}
use wye.Manager.Workers.{
  erase_worker, store_worker, on_worker, catch_all, start_worker, create_worker, prepare_worker,
  delete_worker, known_worker,
}
use wye.Manager.Jobs.{erase_workers_of, erase_all_of, first_of_job, create_job, delete_job}
use wye.Manager.Tables.{workers-erase, jobs-erase, workers-store, jobs-store}

-- A worker stands under its own identifier, and one that is marked as stopped holds no child.
pub record GoodWorker (key : Text) (q : Process) : Type 0 where
  pub keyed : q.id ≡ key
  pub settled : q.state ≡ stopped → q.proc ≡ none

pub record GoodJob (key : Text) (j : Job) : Type 0 where
  pub keyed : j.id ≡ key

module _ ⦃k : Kernel⦄ where
  pub record WellFormed (w : World) : Type 0 where
    pub workers_sorted : IsSorted w.workers
    pub jobs_sorted : IsSorted w.jobs
    pub workers_good : Entries GoodWorker w.workers
    pub jobs_good : Entries GoodJob w.jobs

  pub erase_worker-WellFormed :
      (id : Text) (w : World) → WellFormed w → WellFormed (erase_worker id w).1
  erase_worker-WellFormed id w v = record {
    workers_sorted = rw (workers-erase w id) (erase-IsSorted id w.workers v.workers_sorted);
    jobs_sorted = rw (jobs-erase w id) v.jobs_sorted;
    workers_good = rw (workers-erase w id) (erase-Entries GoodWorker id w.workers v.workers_good);
    jobs_good = rw (jobs-erase w id) v.jobs_good;
  }

  pub store_worker-WellFormed :
      (q : Process) (w : World) → GoodWorker q.id q → WellFormed w → WellFormed (store_worker q w).1
  store_worker-WellFormed q w g v = record {
    workers_sorted = rw (workers-store w q) (insert-IsSorted q.id q w.workers v.workers_sorted);
    jobs_sorted = rw (jobs-store w q) v.jobs_sorted;
    workers_good =
        rw (workers-store w q) (insert-Entries GoodWorker q.id q w.workers g v.workers_good);
    jobs_good = rw (jobs-store w q) v.jobs_good;
  }

  module _ ⦃t : PropertyTree⦄ where
    open t use {Tree}

    pub on_worker-WellFormed :
        (m : Model) (q : Process) (w : World)
        → q.state ≡ running
        → WellFormed w
        → WellFormed (on_worker q (run_model m) w).1
    unfolding on_worker
    on_worker-WellFormed m q w up v = record {
      workers_sorted = insert-IsSorted q.id _ w.workers v.workers_sorted;
      jobs_sorted = v.jobs_sorted;
      workers_good =
          insert-Entries GoodWorker q.id _ w.workers
            (record {
              keyed = (run_model-same q w.os w.os m).0;
              settled = λ h. absurd (cc ((run_model-same q w.os w.os m).2));
            })
            v.workers_good;
      jobs_good = v.jobs_good;
    }
