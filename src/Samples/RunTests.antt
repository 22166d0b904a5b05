-- ===== src/Samples/RunTests.antt =====
-- The theorems on whole runs, at a run that starts a worker.
use wye.Common.{◌≡◌, refl, ℕ, none, some, List, [], ◌∷◌, ◌⊎◌, ◌≢◌, All}
use wye.Text.{lit, text_eq, to_int, find_from, substr_from, to_size}
use wye.Text.Order.{compare_text, text_order}
use wye.Ptree.{first_child}
use wye.Outcome.{ok}
use wye.Kernel.{alive, gone}
use wye.Manager.State.{World, new_manager}
use wye.Manager.{handle, dispatch}
use wye.Service.{Status, serving, Event, run, connection, tick, children, step, status_of}
use wye.Connection.{
  serve, end_quietly, answer, answer_tree, reply_for, respond, on_socket, receive, answer_continue,
  read_body, io, io_outcome,
}
use wye.OrderedMap.{find, insert, same}
use wye.Worker.{new_worker, stopped}
use wye.Process.{
  Process, new_process, run_model, run_process, startup_reply, is_running, destroy, kill_and_wait,
}
use wye.Process.Startup.{read_lines, read_loop, read_line, read_input, split_input}
use wye.Models.{init_model}
use wye.Models.Python
use wye.Models.Outputs.{
  get_field, get_field_or, read_outputs, set_name, set_outputs, set_job_id, push_args, push_outputs,
}
use wye.Manager.Workers.{
  create_worker, prepare_worker, model_of, start_worker, store_worker, drop_worker, on_worker,
  catch_all, as_runtime_error,
}
use wye.Manager.Monitor.{sweep, check_workers, thread_end, stop, destroy_all}
use wye.Manager.Monitor.Launched.{Launches}
use wye.Manager.Children.{IsHeld}
use wye.Service.Kept.{EventIs}
use wye.Manager.Kept.{Any}
use wye.Service.Children.{MakesNone, no_child_lost, clean_stop_leaves_none}
use wye.Service.Rounds.{rounds_survive}
use wye.Service.Noticed.{ended_child_noticed}
use wye.Process.Holding.{NotReused}
use wye.Samples.Trees.{sample_trees, node_children, to_list, value}
use wye.Samples.System.{sample_kernel, willing_kernel, high_kernel, launch_high}
use wye.Samples.Sockets.{sample_http, sample_json}
use wye.Samples.Data.{
  machine, good_output, silent_output, wire, two_workers, two_children, worker_of,
}

abbrev history : List Event
history =
    connection 5 (lit "u1") (wire (lit "create-worker"))
    ∷ tick
    ∷ children (λ m. m)
    ∷ connection 5 (lit "u2") (wire (lit "?"))
    ∷ []

abbrev begin : World
begin = new_manager (machine (some good_output))

serves : ((run history begin).0 ≡ serving) × ((stop (run history begin).1).0 ≡ ok tt)
unfolding run step status_of serve end_quietly answer answer_tree reply_for respond on_socket
    receive answer_continue read_body io io_outcome handle dispatch create_worker prepare_worker
    model_of init_model Python.init_process new_process new_worker get_field get_field_or set_name
    set_outputs read_outputs set_job_id push_args push_outputs start_worker store_worker drop_worker
    on_worker catch_all as_runtime_error run_model run_process read_lines read_loop read_line
    read_input split_input to_int find_from substr_from to_size compare_text startup_reply sweep
    check_workers thread_end is_running find insert lit text_eq first_child node_children to_list
    value stop destroy_all destroy kill_and_wait
serves = (refl, refl)

none_yet : (p : ℕ) → (machine (some good_output)).phases p ≡ gone
none_yet p = refl

natural : All (EventIs Any MakesNone) history
natural = (tt, (tt, ((λ p m g. g), (tt, tt))))

-- Child 7 is held by the worker.
no_child_lost_example :
    ((run history begin).1.os.phases 7 ≡ gone) ⊎ IsHeld 7 (run history begin).1.workers
no_child_lost_example =
    no_child_lost history (machine (some good_output)) none_yet natural serves.0 7

clean_stop_leaves_none_example : (stop (run history begin).1).1.os.phases 7 ≡ gone
clean_stop_leaves_none_example =
    clean_stop_leaves_none history (machine (some good_output)) none_yet natural serves.0 serves.1 7

-- The same run on a system that refuses no launch.
abbrev willing : List (Event ⦃k = willing_kernel⦄)
willing = connection 5 (lit "u1") (wire (lit "create-worker")) ∷ tick ∷ []

abbrev willing_end : Status × World ⦃k = willing_kernel⦄
willing_end = run ⦃k = willing_kernel⦄ willing (new_manager ⦃k = willing_kernel⦄ (machine none))

can_launch : Launches ⦃k = willing_kernel⦄
can_launch exec args m = (_, refl)

willing_serves : willing_end.0 ≡ serving
unfolding run step status_of serve end_quietly answer answer_tree reply_for respond on_socket
    receive answer_continue read_body io io_outcome handle dispatch create_worker prepare_worker
    model_of init_model Python.init_process new_process new_worker get_field get_field_or set_name
    set_outputs read_outputs set_job_id push_args push_outputs start_worker store_worker drop_worker
    on_worker catch_all as_runtime_error run_model run_process read_lines read_loop read_line
    read_input split_input to_int find_from substr_from to_size compare_text startup_reply sweep
    check_workers thread_end is_running find insert lit text_eq first_child node_children to_list
    value
willing_serves = refl

rounds_survive_example : (sweep ⦃k = willing_kernel⦄ willing_end.1).0 ≡ ok tt
rounds_survive_example =
    rounds_survive ⦃k = willing_kernel⦄ willing (machine none) can_launch willing_serves

-- The second worker's child has ended. Between the rounds a worker is created, on a system that gives
-- no small number to a new child.
abbrev dying : World ⦃k = high_kernel⦄
dying = record {
  workers = two_workers.workers;
  jobs = [];
  os = record two_children { next_output = some good_output };
}

abbrev between : List (Event ⦃k = high_kernel⦄)
between = connection 5 (lit "u1") (wire (lit "create-worker")) ∷ tick ∷ []

first_round : (sweep ⦃k = high_kernel⦄ dying).0 ≡ ok tt
unfolding sweep check_workers thread_end is_running
first_round = refl

abbrev middle : Status × World ⦃k = high_kernel⦄
middle = run ⦃k = high_kernel⦄ between (sweep ⦃k = high_kernel⦄ dying).1

abbrev last : Process
last = record (worker_of (lit "b") (lit "j1") 2) {
  worker = record (worker_of (lit "b") (lit "j1") 2).worker { state = stopped };
  proc = none;
}

goes_on :
    (middle.0 ≡ serving)
    × ((sweep ⦃k = high_kernel⦄ middle.1).0 ≡ ok tt)
    × (find (lit "b") (sweep ⦃k = high_kernel⦄ middle.1).1.workers ≡ some last)
unfolding run step status_of serve end_quietly answer answer_tree reply_for respond on_socket
    receive answer_continue read_body io io_outcome handle dispatch create_worker prepare_worker
    model_of init_model Python.init_process new_process new_worker get_field get_field_or set_name
    set_outputs read_outputs set_job_id push_args push_outputs start_worker store_worker drop_worker
    on_worker catch_all as_runtime_error run_model run_process read_lines read_loop read_line
    read_input split_input to_int find_from substr_from to_size compare_text startup_reply sweep
    check_workers thread_end is_running find insert lit text_eq first_child node_children to_list
    value same
goes_on = (refl, refl, refl)

not_reused : NotReused ⦃k = high_kernel⦄ 2
not_reused exec args m d l = launch_high m m.next_output d l

other_name : lit "b" ≢ lit "u1"
unfolding lit
other_name e = absurd (cc)

has_ended : two_children.phases 2 ≢ alive
has_ended e = absurd (cc)

worker_found : find (lit "b") two_workers.workers ≡ some (worker_of (lit "b") (lit "j1") 2)
unfolding find lit compare_text same
worker_found = refl

ended_child_noticed_example : last.state ≡ stopped
ended_child_noticed_example =
    ended_child_noticed ⦃k = high_kernel⦄ between dying (lit "b") (worker_of (lit "b") (lit "j1") 2)
      last (record { pid = 2; output = silent_output }) worker_found refl refl has_ended not_reused
      (other_name, (tt, tt)) first_round goes_on.0 goes_on.1 goes_on.2
