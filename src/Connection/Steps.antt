-- ===== src/Connection/Steps.antt =====
-- connection::operator() of src/connection.C as a coroutine: it pauses in the calls on its socket,
-- and while it pauses other connections go on. The steps here are as small as the socket calls, or
-- smaller: where the code goes on without a pause, as from the last read to the manager, there may be
-- a pause between steps.
pub mod Rest
use wye.Common.{none, some, if◌then◌else◌}
use wye.Text.{Text, lit}
use wye.Outcome.{Outcome, ok, throws, blocks, aborts, invalid_request, other, what}
use wye.Ptree.{PropertyTree}
use wye.Kernel.{Kernel}
use wye.Http.{
  Http, Json, Io, done, eof, error, drained, message_ready, body_ready, finished, Response,
}
use wye.Manager.{handle}
use wye.Connection.{
  Session, io_outcome, end_quietly, bad_request, server_error, success, not_interpreted,
}

-- Where the coroutine is: at the loop on `is_open`; before it reads the head of a request, writes
-- `100 Continue`, or tests what is left of the body; before the JSON parser and the manager; before
-- it writes a response; or at its end.
pub data Point : Type 0 where
  accepted requesting continuing reading deciding : Point
  writing : Response → Point
  over : Outcome (Unit {0}) → Point

module _ ⦃h : Http⦄ ⦃k : Kernel⦄ ⦃t : PropertyTree⦄ ⦃j : Json⦄ where
  open h use {
    Socket, is_open, read_request, continue_required, write_continue, read_state, read_some,
    read_trailers, body, write_response,
  }
  open j use {read_json, write_json}

  -- Where it goes on after a call on its socket: an error ends it, through the outer `catch`.
  unfoldable pub proceed : Point → Io → Point
  unfolding end_quietly io_outcome
  proceed p done = p
  proceed p eof = over (end_quietly (io_outcome eof))
  proceed p (error m) = over (end_quietly (io_outcome (error m)))

  -- What the manager returned or threw.
  unfoldable pub reply_point : Outcome t.Tree → Point
  reply_point (ok pt) = elim (write_json pt) [
    | none ↦ over (throws (other (lit "write_json")))
    | some out ↦ writing (success out)
  ]
  reply_point (throws (invalid_request m)) = writing (bad_request m)
  reply_point (throws e) = writing (server_error (what e))
  reply_point blocks = over blocks
  reply_point aborts = over aborts

  abbrev pub after_head : Socket → Point
  after_head c = if continue_required c then continuing else reading

  -- One step. The loop on the body has no pause, and no end, once the stream is finished.
  unfoldable pub advance : Text → Point → Session → Point × Session
  unfolding proceed reply_point
  advance uuid accepted s = (if is_open s.socket then requesting else over (ok tt), s)
  advance uuid requesting s =
      let (r, c) = read_request s.socket in (proceed (after_head c) r, record s { socket = c })
  advance uuid continuing s =
      let (r, c) = write_continue s.socket in (proceed reading r, record s { socket = c })
  advance uuid reading s = elim (read_state s.socket) [
    | drained ↦ (deciding, s)
    | message_ready ↦
        (let (r, c) = read_some s.socket in (proceed reading r, record s { socket = c }))
    | body_ready ↦
        (let (r, c) = read_trailers s.socket in (proceed reading r, record s { socket = c }))
    | finished ↦ (over blocks, s)
  ]
  advance uuid deciding s = elim (read_json (body s.socket)) [
    | none ↦ (writing (bad_request not_interpreted), s)
    | some p ↦ (let (o, w) = handle uuid p s.world in (reply_point o, record s { world = w }))
  ]
  advance uuid (writing r) s =
      let (i, c) = write_response r s.socket in (proceed (over (ok tt)) i, record s { socket = c })
  advance uuid (over o) s = (over o, s)
