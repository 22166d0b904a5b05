-- ===== src/Samples/ServiceTests.antt =====
-- The theorems on connections and on whole runs at concrete requests.
use wye.Common.{ℕ, ◌≡◌, refl, true, some, none, List, [], ◌∷◌}
use wye.Text.{lit, text_eq}
use wye.Ptree.{first_child}
use wye.Outcome.{ok}
use wye.Manager.State.{new_manager}
use wye.Manager.{handle, dispatch}
use wye.Manager.Workers.{get_workers, describe_workers}
use wye.Manager.Invariant.{WellFormed}
use wye.Connection.{
  Session, bad_request, success, serve, receive, read_body, answer_continue, io, io_outcome,
}
use wye.Connection.Replies.{decide_response, serve_answers_once}
use wye.Connection.BadRequest.{bad_request_changes_nothing}
use wye.Manager.Workers.{delete_worker, get_id}
use wye.Http.{Response}
use wye.Service.{parsed, start, listen_on, serving, Event, run, connection, tick, signal, children}
use wye.Service.Port.{Asks, Listens, start-Listens}
use wye.Service.Runs.{service-WellFormed}
use wye.Samples.Trees.{sample_trees, node_children, to_list, value}
use wye.Samples.System.{sample_kernel}
use wye.Samples.Sockets.{Wire, sample_http, sample_json}
use wye.Samples.Data.{machine, no_workers, wire, two_workers, two_children}

abbrev history : List Event
history =
    connection 5 (lit "u1") (wire (lit "get-jobs"))
    ∷ tick
    ∷ children (λ m. two_children)
    ∷ connection 5 (lit "u2") (wire (lit "?"))
    ∷ signal
    ∷ []

service-WellFormed_example : WellFormed (run history (new_manager (machine none))).1
service-WellFormed_example = service-WellFormed history (machine none)

abbrev listing : Session
listing = record { socket = wire (lit "get-workers"); world = no_workers (machine none) }

abbrev drained_wire : Wire
drained_wire = record (wire (lit "get-workers")) { chunks = 0 }

received : receive 5 listing.socket ≡ (ok tt, drained_wire)
unfolding receive answer_continue read_body io io_outcome
received = refl

decided :
    decide_response (lit "u1") (sample_json.read_json drained_wire.text) listing.world
    ≡ (some (success []), no_workers (machine none))
unfolding handle dispatch get_workers describe_workers lit text_eq first_child node_children to_list
    value
decided = refl

serve_answers_once_example :
    ((serve 5 (lit "u1") listing).0 ≡ ok tt)
    × ((serve 5 (lit "u1") listing).1.world ≡ no_workers (machine none))
    × ((serve 5 (lit "u1") listing).1.socket.written ≡ success [] ∷ [])
serve_answers_once_example =
    serve_answers_once 5 (lit "u1") listing drained_wire (success []) (no_workers (machine none))
      refl received decided refl

-- A request to delete a worker that names none, beside two workers.
abbrev nameless : Session
nameless = record { socket = wire (lit "delete-worker"); world = two_workers }

abbrev nameless_wire : Wire
nameless_wire = record (wire (lit "delete-worker")) { chunks = 0 }

abbrev refusal : Response
refusal = bad_request (lit "Must supply an 'id' value")

nameless_received : receive 5 nameless.socket ≡ (ok tt, nameless_wire)
unfolding receive answer_continue read_body io io_outcome
nameless_received = refl

nameless_refused :
    decide_response (lit "u1") (sample_json.read_json nameless_wire.text) two_workers
    ≡ (some refusal, two_workers)
unfolding handle dispatch delete_worker get_id lit text_eq first_child node_children to_list value
nameless_refused = refl

nameless_written :
    ((serve 5 (lit "u1") nameless).0 ≡ ok tt)
    × ((serve 5 (lit "u1") nameless).1.world ≡ two_workers)
    × ((serve 5 (lit "u1") nameless).1.socket.written ≡ refusal ∷ [])
nameless_written =
    serve_answers_once 5 (lit "u1") nameless nameless_wire refusal two_workers refl
      nameless_received nameless_refused refl

bad_request_changes_nothing_example : (serve 5 (lit "u1") nameless).1.world ≡ two_workers
bad_request_changes_nothing_example =
    bad_request_changes_nothing 5 (lit "u1") nameless refusal nameless_written.2 refl

-- The port 65616 is narrowed to 80.
any_port : (start (λ p. true) (parsed (some 65616))).1 ≡ serving
unfolding start listen_on
any_port = refl

start-Listens_example :
    (asked : ℕ) × Asks (parsed (some 65616)) asked
    × Listens (λ p. true) asked (start (λ p. true) (parsed (some 65616))).0
start-Listens_example = start-Listens (λ p. true) (parsed (some 65616)) any_port
