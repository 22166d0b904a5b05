-- ===== src/Samples/StartTests.antt =====
-- The theorems on the start of a worker, and on the listings, at concrete tables and requests.
use wye.Common.{◌≡◌, ◌≢◌, refl, some, none, [], ◌∷◌}
use wye.Text.{Text, lit, text_eq, to_int, find_from, substr_from, to_size}
use wye.Text.Order.{text_order, compare_text}
use wye.OrderedMap.{find, same, insert, erase}
use wye.Ptree.{first_child, is_plain}
use wye.Outcome.{ok, throws, aborts, runtime_error}
use wye.Kernel.{gone}
use wye.Worker.{running, new_worker}
use wye.Process.{
  run_model, run_process, startup_reply, destroy, kill_and_wait, Process, application, new_process,
}
use wye.Process.Startup.{
  read_lines, read_loop, read_input, split_input, read_line, read_rest, not_running,
}
use wye.Models.{init_model}
use wye.Models.Python
use wye.Models.Outputs.{
  get_field, get_field_or, read_outputs, set_name, set_outputs, set_job_id, push_args, push_outputs,
}
use wye.Manager.State.{World}
use wye.Manager.Workers.{
  prepare_worker, create_worker, delete_worker, erase_worker, known_worker, get_id, start_worker,
  store_worker, drop_worker, on_worker, catch_all, as_runtime_error, model_of,
}
use wye.Manager.Reuse.{reused_number_kills}
use wye.Manager.Jobs.{create_job, get_job}
use wye.Manager.Monitor.{sweep}
use wye.Manager.Start.{start_end, with_child, started_worker_stays, refused_launch_crashes}
use wye.Manager.Listings.{PlainKeys}
use wye.Manager.Listed.{Lists, ShowsWorker, ShowsListedJob, listings_complete}
use wye.Manager.{handle}
use wye.OrderedMap.Laws.{IsSorted}
use wye.Text.Order.{compare_text}
use wye.Manager.JobView.{ShowsJob, create_then_get}
use wye.Samples.Trees.{Node, sample_trees, value, node_children, to_list}
use wye.Samples.System.{Machine, sample_kernel, launch_next}
use wye.Samples.Sockets.{request}
use wye.Samples.Data.{
  good_output, silent_output, worker_of, bad_output, machine, two_workers, no_workers,
  create_python, prepared, by_id,
}

prepares : prepare_worker (lit "u1") create_python ≡ ok prepared
unfolding prepare_worker model_of init_model Python.init_process lit text_eq new_process new_worker
    get_field get_field_or set_name set_outputs read_outputs set_job_id push_args push_outputs
    first_child node_children to_list value
prepares = refl

not_application : prepared.model ≢ application
not_application h = absurd (cc)

-- The child ends before it says that it runs.
fails : read_lines bad_output [] ≡ (throws not_running, [])
unfolding read_lines read_line read_rest lit text_eq
fails = refl

abbrev after_launch : Machine
after_launch = (launch_next (machine (some bad_output)) (some bad_output)).1

abbrev failed_start : World
failed_start = (create_worker (lit "u1") create_python (no_workers (machine (some bad_output)))).1

abbrev failed_worker : Process
failed_worker = with_child prepared (record { pid = 7; output = bad_output }) []

started_worker_stays_example :
    ((create_worker (lit "u1") create_python (no_workers (machine (some bad_output)))).0
      ≡ start_end failed_worker (throws not_running))
    × (find (lit "u1") failed_start.workers ≡ some failed_worker)
    × (prepared.state ≡ running)
    × (failed_start.os ≡ after_launch)
started_worker_stays_example =
    started_worker_stays (lit "u1") create_python prepared (no_workers (machine (some bad_output)))
      (record { pid = 7; output = bad_output }) after_launch (throws not_running) [] prepares
      not_application (unfold find in refl) refl fails

abbrev refused_start : World
refused_start = (create_worker (lit "u1") create_python (no_workers (machine none))).1

refused_launch_crashes_example :
    ((create_worker (lit "u1") create_python (no_workers (machine none))).0
      ≡ throws (runtime_error (lit "fork(2) failed")))
    × (find (lit "u1") refused_start.workers ≡ some prepared)
    × ((sweep refused_start).0 ≡ aborts)
refused_launch_crashes_example =
    refused_launch_crashes (lit "u1") create_python prepared (no_workers (machine none))
      (lit "fork(2) failed") (machine none) prepares (unfold find in refl) refl

plain_workers : PlainKeys two_workers.workers
unfolding lit is_plain
plain_workers = (refl, (refl, tt))

plain_jobs : PlainKeys two_workers.jobs
unfolding lit is_plain
plain_jobs = (refl, tt)

abbrev asks_for : Text → Node
asks_for op = request ((lit "operation", op) ∷ [])

asks_for_workers :
    sample_trees.get_string (lit "operation") (asks_for (lit "get-workers"))
    ≡ some (lit "get-workers")
unfolding lit text_eq first_child node_children to_list value
asks_for_workers = refl

asks_for_jobs :
    sample_trees.get_string (lit "operation") (asks_for (lit "get-jobs")) ≡ some (lit "get-jobs")
unfolding lit text_eq first_child node_children to_list value
asks_for_jobs = refl

workers-IsSorted : IsSorted two_workers.workers
unfolding lit compare_text
workers-IsSorted = ((refl, tt), (tt, tt))

listings_complete_example :
    ((r : Node) × (handle (lit "u1") (asks_for (lit "get-workers")) two_workers
        ≡ (ok r, two_workers))
      × Lists ShowsWorker two_workers.workers r)
    × ((r : Node) × (handle (lit "u1") (asks_for (lit "get-jobs")) two_workers
          ≡ (ok r, two_workers))
        × Lists ShowsListedJob two_workers.jobs r)
listings_complete_example =
    listings_complete (lit "u1") (asks_for (lit "get-workers")) (asks_for (lit "get-jobs"))
      two_workers asks_for_workers asks_for_jobs workers-IsSorted (tt, tt) plain_workers plain_jobs

abbrev new_job_request : Node
new_job_request = request ((lit "name", lit "pi") ∷ (lit "description", []) ∷ [])

job_name : sample_trees.get_string (lit "name") new_job_request ≡ some (lit "pi")
unfolding lit text_eq first_child node_children to_list value
job_name = refl

job_description : sample_trees.get_string (lit "description") new_job_request ≡ some []
unfolding lit text_eq first_child node_children to_list value
job_description = refl

asked : sample_trees.get_string (lit "id") (by_id (lit "u1")) ≡ some (lit "u1")
unfolding lit text_eq first_child node_children to_list value
asked = refl

abbrev with_job : World
with_job = (create_job (lit "u1") new_job_request two_workers).1

create_then_get_example :
    ((create_job (lit "u1") new_job_request two_workers).0
      ≡ ok (sample_trees.put (lit "id") (lit "u1") sample_trees.empty))
    × (sample_trees.get_string
          (lit "id")
          (sample_trees.put (lit "id") (lit "u1") sample_trees.empty)
        ≡ some (lit "u1"))
    × ((answer : Node) × ((get_job (by_id (lit "u1")) with_job).0 ≡ ok answer)
        × ShowsJob
            (record { id = lit "u1"; name = lit "pi"; description = [] })
            two_workers.workers
            answer)
    × ((get_job (by_id (lit "u1")) with_job).1 ≡ with_job)
create_then_get_example =
    create_then_get (lit "u1") (lit "pi") [] new_job_request (by_id (lit "u1")) two_workers
      plain_workers job_name job_description asked

-- The worker holds child 7, which has been reaped, and 7 is the next number.
abbrev stale : World
stale = record {
  workers = (lit "a", worker_of (lit "a") (lit "j0") 7) ∷ [];
  jobs = [];
  os = machine (some good_output);
}

abbrev restarted : World
restarted = (create_worker (lit "u1") create_python stale).1

asked_a : sample_trees.get_string (lit "id") (by_id (lit "a")) ≡ some (lit "a")
unfolding lit text_eq first_child node_children to_list value
asked_a = refl

deletes : (delete_worker (by_id (lit "a")) restarted).0 ≡ ok sample_trees.empty
unfolding create_worker prepare_worker model_of init_model Python.init_process new_process
    new_worker get_field get_field_or set_name set_outputs read_outputs set_job_id push_args
    push_outputs start_worker store_worker drop_worker on_worker catch_all as_runtime_error
    run_model run_process read_lines read_loop read_line read_input split_input to_int find_from
    substr_from to_size compare_text startup_reply find insert lit text_eq first_child node_children
    to_list value destroy kill_and_wait erase same delete_worker erase_worker known_worker get_id
deletes = refl

reused_number_kills_example :
    let w = (delete_worker (by_id (lit "a")) restarted).1 in
    (b : Process) × (find (lit "u1") w.workers ≡ some b)
    × (b.state ≡ running)
    × (b.proc ≡ some (record { pid = 7; output = good_output }))
    × (w.os.phases 7 ≡ gone)
reused_number_kills_example =
    reused_number_kills (lit "u1") (lit "a") create_python (by_id (lit "a")) prepared
      (worker_of (lit "a") (lit "j0") 7) stale (record { pid = 7; output = silent_output })
      (record { pid = 7; output = good_output })
      (launch_next (machine (some good_output)) (some good_output)).1 prepares
      (unfold find same lit compare_text in refl) refl (unfold find same lit compare_text in refl)
      refl refl asked_a deletes
