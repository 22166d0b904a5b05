-- ===== src/Service/Failures.antt =====
-- What a failed read or write of a connection makes of the whole program of src/main.C.
use wye.Common.{ℕ, ◌≡◌, ◌≢◌, refl, ap, ◌∙◌, true, some}
use wye.Text.{Text}
use wye.Outcome.{Fault, invalid_request, runtime_error, ok, throws, end_of_file, other}
use wye.Ptree.{PropertyTree}
use wye.Kernel.{Kernel}
use wye.Http.{Http, Json, Io, done, eof, error, Response}
use wye.Manager.State.{World}
use wye.Connection.{
  Session, serve, receive, answer, on_socket, end_quietly, respond, io, io_outcome,
}
use wye.Connection.Replies.{decide_response, answer-response}
use wye.Service.{connection, Status, serving, crashed, step, status_of}

module _ ⦃h : Http⦄ ⦃k : Kernel⦄ ⦃t : PropertyTree⦄ ⦃j : Json⦄ where
  open h use {Socket, is_open, body, write_response}
  open j use {read_json}

  -- The end of a connection on which a call threw.
  unfoldable pub status_after : Fault → Status
  status_after end_of_file = serving
  status_after e = crashed

  status_after_lem : (e : Fault) → status_of (end_quietly (throws e)) ≡ status_after e
  unfolding status_of end_quietly status_after
  status_after_lem (invalid_request m) = refl
  status_after_lem (runtime_error m) = refl
  status_after_lem (other m) = refl
  status_after_lem end_of_file = refl

  -- A connection whose request cannot be read leaves the tables and the children as they are. When
  -- its stream ended, the program goes on serving; any other error of the socket, such as a reset
  -- by the client, ends the whole program.
  pub failed_read :
      (fuel : ℕ) (uuid : Text) (c c' : Socket) (w : World) (e : Fault)
      → is_open c ≡ true
      → receive fuel c ≡ (throws e, c')
      → step (connection fuel uuid c) w ≡ (status_after e, w)
  unfolding step serve on_socket
  failed_read fuel uuid c c' w e o r = rw (o, r) (ap (λ x. (x, w)) (status_after_lem e))

  -- The exception of a write.
  unfoldable pub fault_of : Io → Fault
  fault_of done = end_of_file
  fault_of eof = end_of_file
  fault_of (error m) = other m

  respond_fails :
      (r : Response) (s : Session)
      → (write_response r s.socket).0 ≢ done
      → ((respond r s).0 ≡ throws (fault_of (write_response r s.socket).0))
        × ((respond r s).1.world ≡ s.world)
  unfolding respond on_socket io io_outcome fault_of
  respond_fails r s n = (go (write_response r s.socket).0 n, refl)
    where
      go : (i : Io) → i ≢ done → io_outcome i ≡ throws (fault_of i)
      go done n = absurd (n refl)
      go eof n = refl
      go (error m) n = refl

  served_by :
      (fuel : ℕ) (uuid : Text) (c c' : Socket) (w w' : World) (e : Fault)
      → is_open c ≡ true
      → receive fuel c ≡ (ok tt, c')
      → (answer uuid (record { socket = c'; world = w })).0 ≡ throws e
      → (answer uuid (record { socket = c'; world = w })).1.world ≡ w'
      → step (connection fuel uuid c) w ≡ (status_after e, w')
  unfolding step serve on_socket
  served_by fuel uuid c c' w w' e o r a b = rw (o, r, a, b) (ap (λ x. (x, w')) (status_after_lem e))

  -- A connection whose request was read whole and decided, and whose response cannot be written:
  -- what the request did stays done. When the stream ended, the program goes on serving; any other
  -- error of the socket, such as a client that does not wait for its answer, ends the whole program.
  pub failed_write :
      (fuel : ℕ) (uuid : Text) (c c' : Socket) (w w' : World) (r : Response)
      → is_open c ≡ true
      → receive fuel c ≡ (ok tt, c')
      → decide_response uuid (read_json (body c')) w ≡ (some r, w')
      → (write_response r c').0 ≢ done
      → step (connection fuel uuid c) w ≡ (status_after (fault_of (write_response r c').0), w')
  failed_write fuel uuid c c' w w' r o rc e n =
      let eq = answer-response uuid (record { socket = c'; world = w }) r w' e in
      let (fails, kept) = respond_fails r (record { socket = c'; world = w' }) n in
      served_by fuel uuid c c' w w' (fault_of (write_response r c').0) o rc
        (ap (λ x. x.0) eq ∙ fails) (ap (λ x. x.1.world) eq ∙ kept)
