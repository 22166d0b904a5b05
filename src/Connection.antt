-- ===== src/Connection.antt =====
-- src/connection.h and src/connection.C: one connection, from the request to the response.
pub mod Reading
pub mod Replies
pub mod AtMostOnce
pub mod BadRequest
pub mod Steps
use wye.Common.{ℕ, zero, suc, none, some, if◌then◌else◌}
use wye.Text.{Text, lit}
use wye.Outcome.{
  Exec, Outcome, ok, throws, blocks, aborts, invalid_request, other, end_of_file, what, ◌>>◌,
}
use wye.Ptree.{PropertyTree}
use wye.Kernel.{Kernel}
use wye.Http.{
  Http, Json, Io, done, eof, error, drained, message_ready, body_ready, finished, Response,
}
use wye.Manager.State.{World}
use wye.Manager.{handle}

-- The exception of an asynchronous call.
unfoldable pub io_outcome : Io → Outcome (Unit {0})
io_outcome done = ok tt
io_outcome eof = throws end_of_file
io_outcome (error m) = throws (other m)

abbrev pub bad_request : Text → Response
bad_request m = record { status = 400; reason = lit "Bad Request"; body = m }

abbrev pub server_error : Text → Response
server_error m = record { status = 500; reason = lit "Internal Server Error"; body = m }

abbrev pub success : Text → Response
success m = record { status = 200; reason = lit "OK"; body = m }

abbrev pub not_interpreted : Text
not_interpreted = lit "Your client sent a message this server could not interpret."

module _ ⦃h : Http⦄ where
  open h use {
    Socket, is_open, read_request, continue_required, write_continue, read_state, read_some,
    read_trailers, body, write_response,
  }

  unfoldable pub io : (Socket → Io × Socket) → Exec Socket (Unit {0})
  unfolding io_outcome
  io call c = let (r, c') = call c in (io_outcome r, c')

  -- while (read_state() != empty): the fuel bounds the rounds, and `blocks` stands for a loop that
  -- goes on. The default case does nothing, so that a finished stream keeps the loop for ever.
  unfoldable pub read_body : ℕ → Exec Socket (Unit {0})
  read_body zero c = (blocks, c)
  read_body (suc n) c = elim (read_state c) [
    | drained ↦ (ok tt, c)
    | message_ready ↦ (io read_some >> read_body n) c
    | body_ready ↦ (io read_trailers >> read_body n) c
    | finished ↦ (blocks, c)
  ]

  unfoldable pub answer_continue : Exec Socket (Unit {0})
  unfolding io
  answer_continue c = if continue_required c then io write_continue c else (ok tt, c)

  -- The whole request.
  unfoldable pub receive : ℕ → Exec Socket (Unit {0})
  unfolding answer_continue read_body io
  receive fuel = io read_request >> answer_continue >> read_body fuel

  module _ ⦃k : Kernel⦄ ⦃t : PropertyTree⦄ ⦃j : Json⦄ where
    open j use {read_json, write_json}

    pub record Session : Type 0 where
      pub socket : Socket
      pub world : World

    -- The constructor, and the pointer to a new object. The member `counter` is kept and never read,
    -- so it is left out.
    abbrev pub make_connection : Socket → World → Session
    make_connection c w = record { socket = c; world = w }

    -- A call that reaches the socket only.
    unfoldable pub on_socket : {A : Type 0} → Exec Socket A → Exec Session A
    on_socket m s = let (r, c) = m s.socket in (r, record s { socket = c })

    unfoldable pub respond : Response → Exec Session (Unit {0})
    unfolding on_socket io
    respond r = on_socket (io (write_response r))

    -- What `mgr.handle` returned or threw: the two `catch` clauses, and the reply of a success. A
    -- failure of the printer is caught by nothing that answers.
    unfoldable pub reply_for : Outcome t.Tree → Exec Session (Unit {0})
    unfolding respond
    reply_for (ok pt) s = elim (write_json pt) [
      | none ↦ (throws (other (lit "write_json")), s)
      | some out ↦ respond (success out) s
    ]
    reply_for (throws (invalid_request m)) s = respond (bad_request m) s
    reply_for (throws e) s = respond (server_error (what e)) s
    reply_for blocks s = (blocks, s)
    reply_for aborts s = (aborts, s)

    -- pt = mgr.handle(pt), and the answer
    unfoldable pub answer_tree : Text → t.Tree → Exec Session (Unit {0})
    unfolding reply_for
    answer_tree uuid p s =
        let (r, w) = handle uuid p s.world in reply_for r (record s { world = w })

    unfoldable pub answer : Text → Exec Session (Unit {0})
    unfolding answer_tree
    answer uuid s = elim (read_json (body s.socket)) [
      | none ↦ respond (bad_request not_interpreted) s
      | some p ↦ answer_tree uuid p s
    ]

    -- The outer `catch`: the end of the stream ends the connection, all else is thrown again.
    unfoldable pub end_quietly : Outcome (Unit {0}) → Outcome (Unit {0})
    end_quietly (throws end_of_file) = ok tt
    end_quietly r = r

    -- operator(): the loop on `is_open` has one round, since every path through it returns
    unfoldable pub serve : ℕ → Text → Exec Session (Unit {0})
    unfolding end_quietly receive answer
    serve fuel uuid s =
        if is_open s.socket
        then (let (r, s') = (on_socket (receive fuel) >> answer uuid) s in (end_quietly r, s'))
        else (ok tt, s)
