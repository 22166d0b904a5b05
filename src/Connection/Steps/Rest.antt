-- ===== src/Connection/Steps/Rest.antt =====
-- What is left of connection::operator() of src/connection.C at each of its pauses.
use wye.Common.{ℕ, suc, ◌≡◌, refl, Bool, true, false, arith}
use wye.Text.{Text}
use wye.Outcome.{Exec, Outcome, ok, ◌>>◌}
use wye.Ptree.{PropertyTree}
use wye.Kernel.{Kernel}
use wye.Http.{Http, Json, Io, done, eof, error}
use wye.Manager.State.{World}
use wye.Connection.{
  Session, serve, receive, read_body, answer_continue, answer, answer_tree, reply_for, respond,
  on_socket, io, io_outcome, end_quietly,
}
use wye.Connection.Steps.{
  Point, accepted, requesting, continuing, reading, deciding, writing, over, advance, proceed,
  reply_point,
}

module _ ⦃h : Http⦄ ⦃k : Kernel⦄ ⦃t : PropertyTree⦄ ⦃j : Json⦄ where
  open h use {Socket, is_open, read_state, body, write_continue, continue_required, read_request}
  open j use {read_json}

  abbrev pub quietly : Exec Session (Unit {0}) → Exec Session (Unit {0})
  quietly m s = let (r, s') = m s in (end_quietly r, s')

  abbrev pub rest : ℕ → Text → Point → Exec Session (Unit {0})
  rest n uuid accepted s = serve n uuid s
  rest n uuid requesting s = quietly (on_socket (receive n) >> answer uuid) s
  rest n uuid continuing s = quietly (on_socket (io write_continue >> read_body n) >> answer uuid) s
  rest n uuid reading s = quietly (on_socket (read_body n) >> answer uuid) s
  rest n uuid deciding s = quietly (answer uuid) s
  rest n uuid (writing r) s = quietly (respond r) s
  rest n uuid (over o) s = (o, s)

  -- The test of the loop on the body costs a round.
  abbrev pub fuel_at : Point → ℕ → ℕ
  fuel_at reading n = suc n
  fuel_at p n = n

  pub rest-advance :
      (n : ℕ) (uuid : Text) (p : Point) (s : Session)
      → rest (fuel_at p n) uuid p s ≡ rest n uuid (advance uuid p s).0 (advance uuid p s).1
  unfolding advance proceed
  rest-advance n uuid accepted s = unfold serve in ground arith
  rest-advance n uuid requesting s =
      unfold receive on_socket io io_outcome answer_continue in ground arith
  rest-advance n uuid continuing s = unfold on_socket io io_outcome in ground arith
  rest-advance n uuid reading s = unfold on_socket read_body io io_outcome in ground arith
  rest-advance n uuid deciding s =
      unfold answer answer_tree reply_for reply_point respond in ground arith
  rest-advance n uuid (writing r) s = unfold respond on_socket io io_outcome in ground arith
  rest-advance n uuid (over o) s = refl

  -- Before the manager a step reaches the socket alone, and after it too.
  abbrev pub reaches_manager : Point → Bool
  reaches_manager deciding = true
  reaches_manager p = false

  pub advance_apart :
      (uuid : Text) (p : Point) (c : Socket) (w w' : World)
      → reaches_manager p ≡ false
      → let (p', s) = advance uuid p (record { socket = c; world = w }) in
        advance uuid p (record { socket = c; world = w' })
        ≡ (p', record { socket = s.socket; world = w' })
  unfolding advance
  advance_apart uuid accepted c w w' e = refl
  advance_apart uuid requesting c w w' e = refl
  advance_apart uuid continuing c w w' e = refl
  advance_apart uuid reading c w w' e = ground arith
  advance_apart uuid deciding c w w' e = absurd (cc)
  advance_apart uuid (writing r) c w w' e = refl
  advance_apart uuid (over o) c w w' e = refl

  -- The manager has been called.
  abbrev pub has_decided : Point → Bool
  has_decided (writing r) = true
  has_decided (over o) = true
  has_decided p = false

  proceed_decided : (o : Outcome (Unit {0})) (i : Io) → has_decided (proceed (over o) i) ≡ true
  unfolding proceed
  proceed_decided o done = refl
  proceed_decided o eof = refl
  proceed_decided o (error m) = refl

  pub advance_decided :
      (uuid : Text) (p : Point) (s : Session)
      → has_decided p ≡ true
      → has_decided (advance uuid p s).0 ≡ true
  unfolding advance
  advance_decided uuid accepted s e = absurd (cc)
  advance_decided uuid requesting s e = absurd (cc)
  advance_decided uuid continuing s e = absurd (cc)
  advance_decided uuid reading s e = absurd (cc)
  advance_decided uuid deciding s e = absurd (cc)
  advance_decided uuid (writing r) s e = proceed_decided (ok tt) _
  advance_decided uuid (over o) s e = refl

  pub deciding_decides :
      (uuid : Text) (s : Session) → has_decided (advance uuid deciding s).0 ≡ true
  unfolding advance reply_point
  deciding_decides uuid s = ground arith

  -- From then on what is left leaves the manager alone.
  pub decided_rest :
      (n : ℕ) (uuid : Text) (p : Point) (s : Session)
      → has_decided p ≡ true
      → (rest n uuid p s).1.world ≡ s.world
  decided_rest n uuid accepted s e = absurd (cc)
  decided_rest n uuid requesting s e = absurd (cc)
  decided_rest n uuid continuing s e = absurd (cc)
  decided_rest n uuid reading s e = absurd (cc)
  decided_rest n uuid deciding s e = absurd (cc)
  decided_rest n uuid (writing r) s e = unfold respond on_socket in refl
  decided_rest n uuid (over o) s e = refl

  pub decided_fuel : (p : Point) (n : ℕ) → has_decided p ≡ true → fuel_at p n ≡ n
  decided_fuel accepted n e = refl
  decided_fuel requesting n e = refl
  decided_fuel continuing n e = refl
  decided_fuel reading n e = absurd (cc)
  decided_fuel deciding n e = refl
  decided_fuel (writing r) n e = refl
  decided_fuel (over o) n e = refl
