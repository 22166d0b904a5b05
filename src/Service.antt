-- ===== src/Service.antt =====
-- src/main.C: the program. Its threads meet in the manager alone, and each access of the manager's
-- tables is one step under a mutex, so a run is a sequence of events that change one state.
pub mod Runs
pub mod Kept
pub mod Children
pub mod Rounds
pub mod Noticed
pub mod Stuck
pub mod Survival
pub mod Failures
pub mod Port
pub mod Threads
pub mod Connections
use wye.Common.{ℕ, ◌%◌, ◌^◌, Bool, if◌then◌else◌, Option, none, some, List, [], ◌∷◌}
use wye.Text.{Text}
use wye.Outcome.{Outcome, ok, throws, blocks, aborts}
use wye.Ptree.{PropertyTree}
use wye.Kernel.{Kernel}
use wye.Http.{Http, Json}
use wye.Manager.State.{World}
use wye.Manager.Monitor.{sweep, stop}
use wye.Connection.{make_connection, serve}

-- What the command line asks for: Boost.Program_options refuses it, or it gives a port or none.
pub data CommandLine : Type 0 where
  malformed : CommandLine
  parsed : Option ℕ → CommandLine

-- The program serves, has left by `exit` or a return of `main`, was ended by `std::terminate`, or
-- waits for ever in a call.
pub data Status : Type 0 where
  serving crashed stuck : Status
  exited : ℕ → Status

-- The port of the endpoint, and the one that the first line of the output names.
pub record Listening : Type 0 where
  pub port : ℕ
  pub announced : ℕ

-- `tcp::endpoint` takes the port as an `unsigned short`. The constructor of the acceptor throws when
-- the system does not let it bind that port, and nothing catches it.
unfoldable pub listen_on : (ℕ → Bool) → ℕ → Option Listening × Status
listen_on can_bind port =
    let narrow = port % 2 ^ 16 in
    if can_bind narrow
    then (some (record { port = narrow; announced = port }), serving)
    else (none, crashed)

-- `main` up to the manager: where the program listens, or how it has ended.
unfoldable pub start : (ℕ → Bool) → CommandLine → Option Listening × Status
unfolding listen_on
start can_bind malformed = (none, exited 1)
start can_bind (parsed none) = listen_on can_bind 8080
start can_bind (parsed (some port)) = listen_on can_bind port

-- An exception of a connection leaves `ios.run()` and `main`.
unfoldable pub status_of : Outcome (Unit {0}) → Status
status_of (ok u) = serving
status_of (throws e) = crashed
status_of blocks = stuck
status_of aborts = crashed

-- The signal handler calls `exit(1)` when `stop` returns.
unfoldable pub status_of_stop : Outcome (Unit {0}) → Status
status_of_stop (ok u) = exited 1
status_of_stop (throws e) = crashed
status_of_stop blocks = stuck
status_of_stop aborts = crashed

module _ ⦃h : Http⦄ ⦃k : Kernel⦄ ⦃t : PropertyTree⦄ ⦃j : Json⦄ where
  open h use {Socket}
  open k use {Os}

  -- A connection is accepted and served, with the identifier that a constructor may generate;
  -- accepting fails; a second has passed; a signal arrives; or the children change by themselves.
  pub data Event : Type 0 where
    connection : ℕ → Text → Socket → Event
    accept_failed tick signal : Event
    children : (Os → Os) → Event

  unfoldable pub step : Event → World → Status × World
  unfolding status_of status_of_stop
  step (connection fuel uuid c) w =
      let (r, s) = serve fuel uuid (make_connection c w) in (status_of r, s.world)
  step accept_failed w = (exited 1, w)
  step tick w = let (r, w') = sweep w in (status_of r, w')
  step signal w = let (r, w') = stop w in (status_of_stop r, w')
  step (children f) w = (serving, record w { os = f w.os })

  -- Events are served while the program runs.
  unfoldable pub run : List Event → World → Status × World
  run [] w = (serving, w)
  run (e ∷ es) w =
      let (st, w') = step e w in
      elim st [
        | serving ↦ run es w'
        | crashed ↦ (crashed, w')
        | stuck ↦ (stuck, w')
        | exited n ↦ (exited n, w')
      ]
