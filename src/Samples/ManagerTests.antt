-- ===== src/Samples/ManagerTests.antt =====
-- The theorems on the manager at concrete tables, children and requests.
use wye.Common.{◌≡◌, ◌⊎◌, refl, some}
use wye.Text.{lit, text_eq}
use wye.Text.Order.{compare_text, text_order}
use wye.OrderedMap.{find, erase, same}
use wye.OrderedMap.Laws.{IsSorted}
use wye.OrderedMap.Entries.{Entries}
use wye.Ptree.{first_child}
use wye.Outcome.{ok, aborts}
use wye.Kernel.{gone}
use wye.Process.{destroy}
use wye.Manager.State.{World}
use wye.Manager.Workers.{delete_worker}
use wye.Manager.Jobs.{erase_all_of, delete_job}
use wye.Manager.Monitor.{sweep}
use wye.Manager.Deletion.{with_left, destroy_job, erase_all_of-eq-pass}
use wye.Manager.DeleteJob.{others, delete_job_removes}
use wye.Manager.DeleteWorker.{delete_reaped_crashes}
use wye.Manager.Monitor.Sweep.{HasChild, sweep-end}
use wye.Samples.Trees.{sample_trees, value, node_children, to_list}
use wye.Samples.System.{sample_kernel, set_phase}
use wye.Samples.Data.{silent_output, two_workers, two_children, worker_of, job_one, by_id}

workers-IsSorted : IsSorted two_workers.workers
unfolding lit compare_text
workers-IsSorted = ((refl, tt), (tt, tt))

erase_all_of-eq-pass_example :
    erase_all_of (lit "j1") two_workers
    ≡ with_left two_workers (destroy_job (lit "j1") two_workers.workers two_children)
erase_all_of-eq-pass_example = erase_all_of-eq-pass (lit "j1") two_workers workers-IsSorted

job_named : sample_trees.get_string (lit "id") (by_id (lit "j1")) ≡ some (lit "j1")
unfolding lit text_eq first_child node_children to_list value
job_named = refl

job_found : find (lit "j1") two_workers.jobs ≡ some job_one
unfolding find same lit compare_text
job_found = refl

job_destroyed : (destroy_job (lit "j1") two_workers.workers two_children).0 ≡ ok tt
unfolding destroy_job destroy lit text_eq wye.Manager.Deletion.keep
    wye.Manager.Deletion.continue_pass
job_destroyed = refl

delete_job_removes_example : delete_job (by_id (lit "j1")) two_workers ≡ (
  ok sample_trees.empty,
  record two_workers {
    workers = others (lit "j1") two_workers.workers;
    jobs = erase (lit "j1") two_workers.jobs;
    os = (destroy_job (lit "j1") two_workers.workers two_children).2;
  },
)
delete_job_removes_example =
    delete_job_removes (by_id (lit "j1")) two_workers (lit "j1") job_one workers-IsSorted job_named
      job_found job_destroyed

worker_named : sample_trees.get_string (lit "id") (by_id (lit "b")) ≡ some (lit "b")
unfolding lit text_eq first_child node_children to_list value
worker_named = refl

worker_found : find (lit "b") two_workers.workers ≡ some (worker_of (lit "b") (lit "j1") 2)
unfolding find same lit compare_text
worker_found = refl

-- The background thread has reaped child 2.
abbrev reaped_world : World
reaped_world = record two_workers { os = set_phase 2 gone two_children }

delete_reaped_crashes_example : (delete_worker (by_id (lit "b")) reaped_world).0 ≡ aborts
delete_reaped_crashes_example =
    delete_reaped_crashes (by_id (lit "b")) reaped_world (lit "b")
      (worker_of (lit "b") (lit "j1") 2) (record { pid = 2; output = silent_output }) worker_named
      worker_found refl refl

sweep-end_example :
    (((sweep two_workers).0 ≡ ok tt) × Entries HasChild two_workers.workers)
    ⊎ (((sweep two_workers).0 ≡ aborts) × ¬ Entries HasChild two_workers.workers)
sweep-end_example = sweep-end two_workers
