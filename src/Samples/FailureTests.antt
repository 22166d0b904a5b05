-- ===== src/Samples/FailureTests.antt =====
-- The theorems on failing sockets, and on the address lists of a request, at concrete inputs.
use mathlib.Core.Option
use wye.Common.{◌≡◌, ◌≢◌, refl, true, none, some, [], ◌∷◌}
use wye.OrderedMap.{find}
use wye.OrderedMap.Laws.{IsSorted}
use wye.Text.{lit, text_eq}
use wye.Text.Order.{text_order}
use wye.Ptree.{first_child}
use wye.Outcome.{ok, throws, other}
use wye.Http.{done, error}
use wye.Manager.{handle, dispatch}
use wye.Manager.Workers.{get_workers, describe_workers}
use wye.Models.Outputs.{read_outputs}
use wye.Models.Requested.{requested_outputs, lists, last_child, wanted}
use wye.Connection.{success, receive, answer_continue, read_body, io, io_outcome}
use wye.Connection.Replies.{decide_response}
use wye.Service.{connection, step}
use wye.Service.Failures.{failed_read, failed_write, status_after, fault_of}
use wye.Samples.Trees.{Node, sample_trees, node_children, to_list, value}
use wye.Samples.System.{sample_kernel}
use wye.Samples.Sockets.{Wire, sample_http, sample_json, request, nested}
use wye.Samples.Data.{machine, no_workers, wire}

abbrev reset_wire : Wire
reset_wire = record (wire []) { opening = error (lit "reset") }

reset : receive 5 reset_wire ≡ (throws (other (lit "reset")), reset_wire)
unfolding receive answer_continue read_body io io_outcome
reset = refl

failed_read_example :
    step (connection 5 (lit "u1") reset_wire) (no_workers (machine none))
    ≡ (status_after (other (lit "reset")), no_workers (machine none))
failed_read_example =
    failed_read 5 (lit "u1") reset_wire reset_wire (no_workers (machine none)) (other (lit "reset"))
      refl reset

abbrev broken_wire : Wire
broken_wire = record (wire (lit "get-workers")) { broken = true }

abbrev read_wire : Wire
read_wire = record broken_wire { chunks = 0 }

read_whole : receive 5 broken_wire ≡ (ok tt, read_wire)
unfolding receive answer_continue read_body io io_outcome
read_whole = refl

decided :
    decide_response (lit "u1") (sample_json.read_json read_wire.text) (no_workers (machine none))
    ≡ (some (success []), no_workers (machine none))
unfolding handle dispatch get_workers describe_workers lit text_eq first_child node_children to_list
    value
decided = refl

unwritten : (sample_http.write_response (success []) read_wire).0 ≢ done
unwritten h = absurd (cc)

failed_write_example : step (connection 5 (lit "u1") broken_wire) (no_workers (machine none)) ≡ (
  status_after (fault_of (sample_http.write_response (success []) read_wire).0),
  no_workers (machine none),
)
failed_write_example =
    failed_write 5 (lit "u1") broken_wire read_wire (no_workers (machine none))
      (no_workers (machine none)) (success []) refl read_whole decided unwritten

-- One name, `out`, with one list of two addresses.
abbrev wanted_request : Node
wanted_request =
    nested (lit "outputs") (
      nested (lit "out") (nested [] (request (([], lit "tcp://a:1") ∷ ([], lit "tcp://b:2") ∷ []))))

requested_outputs_example :
    IsSorted (read_outputs wanted_request [])
    × (find (lit "out") (read_outputs wanted_request [])
        ≡ Option.map lists (
            last_child
              (lit "out")
              (wanted (sample_trees.get_child (lit "outputs") wanted_request))
              none))
requested_outputs_example = requested_outputs wanted_request (lit "out")
