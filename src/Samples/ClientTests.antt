-- ===== src/Samples/ClientTests.antt =====
-- The theorems on the Python package, at concrete jobs and hosts.
use wye.Common.{if◌then◌else◌, ◌≡◌, refl, some, List, [], ◌∷◌, arith}
use wye.Outcome.{ok, throws, runtime_error, what}
use wye.Text.{Text, lit, text_eq, to_int, find_from, substr_from, to_size}
use wye.OrderedMap.{Map}
use wye.Worker.{AddressList}
use wye.Manager.{handle}
use wye.Manager.State.{World, new_manager}
use wye.Manager.Invariant.{WellFormed}
use wye.Manager.Registry.{view}
use wye.Manager.Workers.{prepare_worker}
use wye.Process.Startup.{read_lines}
use wye.Process.Startup.Channel.{stream_of}
use wye.Kernel.{silent}
use wye.Service.{run}
use wye.Service.Runs.{service-WellFormed}
use wye.Client.Request.{executable_exe, lambda_func, create_request, numbered}
use wye.Client.Control.{
  HostName, lambda_control, generator_control, announced_by, lambda_workers_start,
}
use wye.Client.Accepted.{client_request_accepted}
use wye.Client.Classes.{worker_for}
use wye.Client.Calls.{Call, call_request, call_fields}
use wye.Client.Deploy.{Plan, implement_job}
use wye.Client.Deploy.Registered.{deployment, deployed_job_registered}
use wye.Manager.Registry.Sequences.{obey_all}
use wye.Client.Deploy.Failed.{failed_deployment}
use wye.Client.Reply.{announced_inputs_read}
use wye.Client.Wired.{requested_sockets}
use wye.Models.Arguments.Sockets.{takes_outputs, parse_outputs, sockets_of}
use wye.Manager.Registry.{Command}
use wye.Process.{Process}
use wye.Common.{none, drop, ◌++◌}
use wye.Client.Deploy.Undone.{deployed_then_deleted}
use wye.Text.Order.{text_order, compare_text}
use wye.Client.Decimal.{decimal, digits_from}
use wye.Client.Deploy.{implement_workers, implement_from, response_id, add_inputs, dictionary}
use wye.Client.Request.{
  job_request, create_fields, request_tree, outputs_of, lists_of, nth, addresses_of, zeros, update,
  params, model_name, push_fields, push_lists,
}
use wye.Process.Report.{push_addresses}
use wye.Process.Describe.{push_texts, put_all, put_inputs}
use wye.Manager.{dispatch}
use wye.Manager.Workers.{
  erase_worker, drop_worker, get_id, create_worker, model_of, start_worker, store_worker, on_worker,
  catch_all, as_runtime_error,
}
use wye.Manager.Jobs.{
  create_job, delete_job, erase_all_of, erase_workers_of, first_of_job, known_job,
}
use wye.Models.{init_model}
use wye.Models.Executable
use wye.Job.{new_job}
use wye.Worker.{new_worker}
use wye.Process
use wye.Process.{destroy, new_process, run_model, run_process, startup_reply}
use wye.Models.Outputs.{
  get_field, get_field_or, set_name, set_outputs, set_job_id, push_args, push_outputs,
  push_output_texts, output_text, append_all, read_outputs, read_outputs_from, read_address_list,
  read_address,
}
use wye.Process.Startup.{read_loop, read_line, read_rest, read_input, split_input}
use wye.Ptree.{is_plain, first_child, put_child}
use wye.OrderedMap.{insert, find, same, erase}
use wye.Samples.Trees.{
  sample_trees, node_children, to_list, of_list, value, with_children, append_child, set_value,
  put_value_at,
}
use wye.Samples.System.{sample_kernel}
use wye.Samples.Sockets.{sample_http, sample_json}
use wye.Samples.Data.{not_empty, machine, good_output}

host : HostName (lit "host")
unfolding lit
host = record { one_line = ground arith; bounded = omega arith }

lambda_workers_start_example :
    (read_lines (stream_of (lambda_control (lit "host") 5000) silent) []
      ≡ (ok tt, announced_by (lit "host") 5000))
    × (read_lines (stream_of generator_control silent) [] ≡ (ok tt, []))
lambda_workers_start_example = lambda_workers_start (lit "host") 5000 silent host (omega arith)

abbrev two_lists : Map Text AddressList
two_lists = (lit "out", (lit "tcp://h:1" ∷ []) ∷ []) ∷ []

client_request_accepted_example :
    prepare_worker
      (lit "u1")
      (create_request (lambda_func (lit "f")) (lit "w") (lit "j") 3 two_lists)
    ≡ ok (worker_for (lambda_func (lit "f")) (lit "u1") (numbered (lit "w") 3) (lit "j") two_lists)
client_request_accepted_example =
    client_request_accepted (lit "w") (lit "j") 3 two_lists (tt, tt) (lit "u1")
      (lambda_func (lit "f")) tt

-- A sink, and a source with two instances that writes to it.
abbrev plans : List Plan
plans =
    record {
      kind = executable_exe (lit "/sink");
      name = lit "b";
      outputs = [];
      uuids = lit "u2" ∷ [];
    }
    ∷ record {
      kind = executable_exe (lit "/source");
      name = lit "a";
      outputs = (lit "out", (0, lit "in") ∷ []) ∷ [];
      uuids = lit "u3" ∷ lit "u4" ∷ [];
    }
    ∷ []

abbrev at_first : World
at_first = new_manager (machine (some good_output))

empty-WellFormed : WellFormed at_first
unfolding run
empty-WellFormed = service-WellFormed [] (machine (some good_output))

-- A system that starts no processes.
abbrev without_processes : World
without_processes = new_manager (machine none)

abbrev deployed : World
deployed = (implement_job (lit "u1") (lit "j") (lit "d") plans at_first).1

runs :
    ((implement_job (lit "u1") (lit "j") (lit "d") plans at_first).0 ≡ ok (lit "u1"))
    × ((handle (lit "u5") (call_request (Call.delete_job_call (lit "u1"))) deployed).0
        ≡ ok sample_trees.empty)
    × ((implement_job (lit "u1") (lit "j") (lit "d") plans without_processes).0
        ≡ throws (runtime_error (lit "fork(2) failed")))
unfolding implement_job implement_workers implement_from response_id add_inputs dictionary
    job_request create_request create_fields request_tree outputs_of lists_of nth addresses_of
    numbered zeros decimal digits_from update params model_name push_fields push_lists
    push_addresses push_texts handle dispatch create_worker prepare_worker model_of start_worker
    store_worker on_worker catch_all as_runtime_error create_job init_model Executable.init_process
    new_process new_worker new_job get_field get_field_or set_name set_outputs set_job_id push_args
    push_outputs push_output_texts output_text append_all read_outputs read_outputs_from
    read_address_list read_address run_model run_process Process.run startup_reply read_lines
    read_loop read_line read_rest read_input split_input put_all first_child put_child node_children
    to_list of_list value with_children append_child set_value put_value_at insert find same erase
    compare_text lit text_eq to_int find_from substr_from to_size put_inputs what call_request
    call_fields delete_job erase_all_of erase_workers_of first_of_job erase_worker drop_worker
    destroy get_id known_job
runs = (refl, refl, refl)

deployed_job_registered_example :
    (lit "u1" ≡ lit "u1")
    × (view deployed ≡ obey_all (deployment (lit "u1") (lit "j") (lit "d") plans) (view at_first))
deployed_job_registered_example =
    deployed_job_registered (lit "u1") (lit "j") (lit "d") plans at_first (lit "u1")
      ((tt, tt), ((tt, (tt, tt)), tt)) empty-WellFormed runs.0

deployed_then_deleted_example :
    view (handle (lit "u5") (call_request (Call.delete_job_call (lit "u1"))) deployed).1
    ≡ view at_first
deployed_then_deleted_example =
    deployed_then_deleted (lit "u1") (lit "u5") (lit "j") (lit "d") plans at_first (lit "u1")
      sample_trees.empty ((tt, tt), ((tt, (tt, tt)), tt)) empty-WellFormed
      (unfold view find in (refl, λ i h. absurd cc))
      (unfold view find in ((refl, tt), ((refl, (refl, tt)), tt))) runs.0 runs.1

none-WellFormed : WellFormed without_processes
unfolding run
none-WellFormed = service-WellFormed [] (machine none)

failed_deployment_example :
    (obeyed : List Command) × (left : List Command) × (obeyed ++ left
      ≡ deployment (lit "u1") (lit "j") (lit "d") plans)
    × WellFormed (implement_job (lit "u1") (lit "j") (lit "d") plans without_processes).1
    × (view (implement_job (lit "u1") (lit "j") (lit "d") plans without_processes).1
        ≡ obey_all obeyed (view without_processes))
failed_deployment_example =
    failed_deployment (lit "u1") (lit "j") (lit "d") plans without_processes
      (runtime_error (lit "fork(2) failed")) ((tt, tt), ((tt, (tt, tt)), tt)) none-WellFormed runs.2

requested_sockets_example :
    (q : Process) × (prepare_worker
        (lit "u1")
        (create_request (executable_exe (lit "/f")) (lit "w") (lit "j") 3 two_lists)
      ≡ ok q)
    × (parse_outputs not_empty (drop 2 q.args) []
        ≡ (if takes_outputs not_empty two_lists then some (sockets_of two_lists) else none))
unfolding lit
requested_sockets_example =
    requested_sockets not_empty (lit "u1") (executable_exe (lit "/f")) (lit "w") (lit "j") 3
      two_lists tt tt (tt, tt) ((ground arith, (ground arith, tt)), tt)

-- The worker as its child has announced two inputs.
abbrev started : Process
started = record (worker_for (executable_exe (lit "/f")) (lit "u1") (lit "w") (lit "j") []) {
  worker = record (new_worker (lit "u1")) {
    inputs = (lit "a", lit "tcp://h:1") ∷ (lit "b", lit "tcp://h:2") ∷ [];
  };
}

announced_inputs_read_example :
    (response_id (startup_reply started) at_first ≡ (ok (lit "u1"), at_first))
    × (add_inputs (lit "u1") (startup_reply started) []
        ≡ (lit "u1", (lit "a", lit "tcp://h:1") ∷ (lit "b", lit "tcp://h:2") ∷ []) ∷ [])
unfolding insert lit new_worker
announced_inputs_read_example =
    announced_inputs_read started [] at_first (unfold lit compare_text in ((refl, tt), (tt, tt)))
      (unfold lit is_plain in (refl, (refl, tt)))
