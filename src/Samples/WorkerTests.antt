-- ===== src/Samples/WorkerTests.antt =====
-- The theorems on the workers' classes and descriptions at concrete requests.
use wye.Common.{true, false, none, if◌then◌else◌, ◌≡◌, refl, some, [], ◌∷◌, arith}
use wye.OrderedMap.{Map}
use wye.Text.{Text, lit, text_eq}
use wye.Ptree.{is_plain, first_child}
use wye.Outcome.{ok}
use wye.Worker.{AddressList, new_worker}
use wye.Process.{Process, python, new_process}
use wye.Process.Report.{describe}
use wye.Models.{init_model}
use wye.Models.Python
use wye.Models.Outputs.{
  get_field, get_field_or, read_outputs, set_name, set_outputs, set_job_id, push_args, push_outputs,
}
use wye.Models.Commands.{CommandOf, init_model_command, output_args}
use wye.Text.Order.{compare_text, text_order}
use wye.OrderedMap.Laws.{IsSorted}
use wye.OrderedMap.Entries.{Entries}
use wye.Models.Described.{read_outputs-describe}
use wye.Models.Arguments.Sockets.{
  connections, takes_outputs, parse_outputs, sockets_of, parse_outputs-output_args,
}
use wye.Samples.Trees.{sample_trees, value, node_children, to_list}
use wye.Samples.Data.{not_empty, create_python, prepared, worker_of}

create_accepted : init_model python create_python (new_process python (lit "u1")) ≡ ok prepared
unfolding init_model Python.init_process lit text_eq new_process new_worker get_field get_field_or
    set_name set_outputs read_outputs set_job_id push_args push_outputs first_child node_children
    to_list value
create_accepted = refl

init_model_command_example :
    (sample_trees.get_string (lit "job_id") create_python ≡ some (lit "j1"))
    × CommandOf python create_python prepared
init_model_command_example =
    init_model_command python create_python (new_process python (lit "u1")) prepared create_accepted

abbrev two_outputs : Map Text AddressList
two_outputs = (lit "a", (lit "tcp://a:1" ∷ []) ∷ []) ∷ (lit "b", (lit "tcp://b:2" ∷ []) ∷ []) ∷ []

abbrev shown_worker : Process
shown_worker = worker_of (lit "a") (lit "j0") 1

abbrev busy_worker : Process
busy_worker = record shown_worker { worker = record shown_worker.worker { outputs = two_outputs } }

two_outputs-IsSorted : IsSorted two_outputs
unfolding lit compare_text
two_outputs-IsSorted = ((refl, tt), (tt, tt))

plain_names : Entries (λ name _. is_plain name ≡ true) two_outputs
unfolding lit is_plain
plain_names = (refl, (refl, tt))

read_outputs-describe_example :
    read_outputs (describe busy_worker sample_trees.empty) [] ≡ two_outputs
read_outputs-describe_example = read_outputs-describe busy_worker two_outputs-IsSorted plain_names

-- The second output has a worker behind it that announced no inputs.
abbrev open_ended : Map Text AddressList
open_ended = (lit "a", (lit "tcp://a:1" ∷ []) ∷ []) ∷ (lit "b", [] ∷ []) ∷ []

raises : takes_outputs not_empty open_ended ≡ false
unfolding connections lit
raises = refl

parse_outputs-output_args_example :
    parse_outputs not_empty (output_args open_ended) []
    ≡ (if takes_outputs not_empty open_ended then some (sockets_of open_ended) else none)
unfolding lit compare_text
parse_outputs-output_args_example =
    parse_outputs-output_args not_empty open_ended ((refl, tt), (tt, tt))
      (((refl, tt), (ground arith, tt)), (((refl, tt), (tt, tt)), tt))
