-- ===== src/Service/Connections.antt =====
-- The connections of src/main.C as coroutines that take turns on one thread: `boost::asio::spawn`
-- starts one for each that is accepted, and whenever one pauses in a call on its socket any other may
-- go on. They share the manager with the background thread, whose rounds come between two steps, and
-- the children change by themselves.
pub mod Turns
pub mod Places
pub mod InTurn
pub mod Answers
use wye.Common.{ℕ, List, [], ◌∷◌, ◌==◌, if◌then◌else◌}
use wye.Text.{Text}
use wye.Ptree.{PropertyTree}
use wye.Kernel.{Kernel}
use wye.Http.{Http, Json}
use wye.Manager.State.{World}
use wye.Manager.Monitor.{sweep}
use wye.Connection.{make_connection, serve}
use wye.Connection.Steps.{
  Point, accepted, requesting, continuing, reading, deciding, writing, over, advance,
}

module _ ⦃h : Http⦄ ⦃k : Kernel⦄ ⦃t : PropertyTree⦄ ⦃j : Json⦄ where
  open h use {Socket}
  open k use {Os}

  -- Where a connection is, and its socket.
  pub record Coroutine : Type 0 where
    pub point : Point
    pub socket : Socket

  -- What comes next: a step of the connection with this number, a round, or a change of the children.
  pub data Turn : Type 0 where
    resumes : ℕ → Turn
    ticks : Turn
    moves : (Os → Os) → Turn

  -- The connections by their numbers, and the turns that have reached the manager or the children,
  -- the last one first.
  pub record Connections : Type 0 where
    pub world : World
    pub coroutine : ℕ → Coroutine
    pub handled : List Turn

  abbrev pub note : Point → ℕ → List Turn → List Turn
  note deciding i l = resumes i ∷ l
  note accepted i l = l
  note requesting i l = l
  note continuing i l = l
  note reading i l = l
  note (writing r) i l = l
  note (over o) i l = l

  abbrev pub replace : ℕ → Coroutine → (ℕ → Coroutine) → ℕ → Coroutine
  replace i x f n = if n == i then x else f n

  -- The identifier that a constructor may generate for a connection is given.
  unfoldable pub take_turn : (ℕ → Text) → Turn → Connections → Connections
  unfolding advance
  take_turn uuids (resumes i) l =
      let x = l.coroutine i in
      let (p, s) = advance (uuids i) x.point (make_connection x.socket l.world) in
      record {
        world = s.world;
        coroutine = replace i (record { point = p; socket = s.socket }) l.coroutine;
        handled = note x.point i l.handled;
      }
  take_turn uuids ticks l = record l { world = (sweep l.world).1; handled = ticks ∷ l.handled }
  take_turn uuids (moves f) l = record l {
    world = record l.world { os = f l.world.os };
    handled = moves f ∷ l.handled;
  }

  unfoldable pub take_turns : (ℕ → Text) → List Turn → Connections → Connections
  unfolding take_turn
  take_turns uuids [] l = l
  take_turns uuids (x ∷ xs) l = take_turns uuids xs (take_turn uuids x l)

  abbrev pub all_accepted : (ℕ → Socket) → World → Connections
  all_accepted sockets w = record {
    world = w;
    coroutine = λ i. record { point = accepted; socket = sockets i };
    handled = [];
  }
