-- ===== src/Samples/InTurnTests.antt =====
-- The theorem on connections that take turns, at two of them: one starts a worker, and the other,
-- whose request is no JSON, goes first and is answered last.
use wye.Common.{◌≡◌, refl, ℕ, zero, suc, some, List, [], ◌∷◌, map}
use wye.Text.{Text, lit, text_eq, to_int, find_from, substr_from, to_size}
use wye.Text.Order.{compare_text}
use wye.Outcome.{ok}
use wye.Manager.State.{World, new_manager}
use wye.Connection.Steps.{over, advance, proceed, reply_point}
use wye.Service.Connections.{
  Turn, resumes, ticks, moves, Connections, take_turns, take_turn, all_accepted,
}
use wye.Service.Connections.Places.{served}
use wye.Connection.AtMostOnce.{AtMostOnce}
use wye.Service.Connections.Answers.{answered-AtMostOnce}
use wye.Service.Connections.InTurn.{EndsInTurn, connections_in_turn}
use wye.Ptree.{first_child}
use wye.Manager.{handle, dispatch}
use wye.OrderedMap.{find, insert}
use wye.Worker.{new_worker}
use wye.Process.{new_process, run_model, run_process, startup_reply}
use wye.Process.Startup.{read_lines, read_loop, read_line, read_input, split_input}
use wye.Models.{init_model}
use wye.Models.Python
use wye.Models.Outputs.{
  get_field, get_field_or, read_outputs, set_name, set_outputs, set_job_id, push_args, push_outputs,
}
use wye.Manager.Workers.{
  create_worker, prepare_worker, model_of, start_worker, store_worker, drop_worker, on_worker,
  catch_all, as_runtime_error,
}
use wye.Manager.Monitor.{sweep}
use wye.Samples.Trees.{sample_trees, node_children, to_list, value}
use wye.Samples.System.{sample_kernel}
use wye.Samples.Sockets.{Wire, sample_http, sample_json}
use wye.Samples.Data.{machine, good_output, wire}

abbrev sockets : ℕ → Wire
sockets zero = wire (lit "create-worker")
sockets (suc n) = wire (lit "?")

abbrev uuids : ℕ → Text
uuids n = lit "u1"

abbrev begin : World
begin = new_manager (machine (some good_output))

abbrev zeroth : Turn
zeroth = resumes 0

abbrev other : Turn
other = resumes 1

abbrev turns : List Turn
turns =
    other
    ∷ zeroth
    ∷ other
    ∷ zeroth
    ∷ zeroth
    ∷ ticks
    ∷ other
    ∷ zeroth
    ∷ other
    ∷ other
    ∷ zeroth
    ∷ moves (λ m. m)
    ∷ other
    ∷ zeroth
    ∷ ticks
    ∷ zeroth
    ∷ other
    ∷ []

abbrev final : Connections
final = take_turns uuids turns (all_accepted sockets begin)

has_ended : final.coroutine 0 ≡ record { point = over (ok tt); socket = (final.coroutine 0).socket }
unfolding take_turns take_turn advance proceed reply_point handle dispatch create_worker
    prepare_worker model_of init_model Python.init_process new_process new_worker get_field
    get_field_or set_name set_outputs read_outputs set_job_id push_args push_outputs start_worker
    store_worker drop_worker on_worker catch_all as_runtime_error run_model run_process read_lines
    read_loop read_line read_input split_input to_int find_from substr_from to_size compare_text
    startup_reply find insert lit text_eq first_child node_children to_list value sweep
has_ended = refl

connections_in_turn_example :
    (order : List (Turn × ℕ)) × (map (λ e. e.0) order ≡ final.handled)
    × (served sockets uuids begin order ≡ final.world)
    × EndsInTurn sockets uuids begin order 0 (ok tt) (final.coroutine 0).socket
connections_in_turn_example =
    connections_in_turn sockets uuids begin turns 0 (ok tt) (final.coroutine 0).socket has_ended

answered-AtMostOnce_example : AtMostOnce (sockets 0) (final.coroutine 0).socket
answered-AtMostOnce_example =
    answered-AtMostOnce sockets uuids begin turns 0 (ok tt) (final.coroutine 0).socket has_ended
