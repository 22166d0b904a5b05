-- ===== src/Process.antt =====
-- src/process.h and src/process.C: a worker that runs as a child process.
pub mod Startup
pub mod Describe
pub mod Report
pub mod Lifetime
pub mod Holding
pub mod Running
use wye.Common.{
  ℕ, ◌+◌, ◌-◌, ◌^◌, Bool, true, false, Option, none, some, List, [], ◌∷◌, ◌++◌, ◌==◌, if◌then◌else◌,
  take, is_empty,
}
use wye.OrderedMap.{Map}
use wye.Text.{Text, lit}
use wye.Outcome.{
  Outcome, Fault, Exec, ok, throws, blocks, aborts, runtime_error, other, ◌>>=◌, ◌>>◌,
}
use wye.Kernel.{Kernel, Child, Launch, Waited, started, refused, reaped, never, failed}
use wye.Worker.{Worker, WorkerState, running, stopped, new_worker}
use wye.Ptree.{PropertyTree}
use Startup.{read_lines}
use Describe.{put_inputs}

-- The class of a worker, by which `init_process` and `run_process` are chosen.
pub data Model : Type 0 where
  application executable python lambda lua : Model

pub record Process : Type 0 where
  pub worker : Worker
  pub open worker use *
  pub model : Model
  pub exec : Text
  pub args : List Text
  pub proc : Option Child

-- The constructors of `process` and of its subclasses.
unfoldable pub new_process : Model → Text → Process
unfolding new_worker
new_process m uuid = record {
  worker = new_worker uuid;
  model = m;
  exec = [];
  args = [];
  proc = none;
}

module _ ⦃k : Kernel⦄ where
  open k use {Os, launch, kill, wait, poll}

  -- The state of a method: the object and the operating system.
  abbrev pub This : Type 0
  This = Process × Os

  launched : Process → Launch → Os → Outcome (Unit {0}) × This
  launched p (started c) s = (ok tt, (record p { proc = some c }, s))
  launched p (refused m) s = (throws (other m), (p, s))

  -- run: the context inherits stdout and stderr and captures descriptor 3
  unfoldable pub run : Exec This (Unit {0})
  unfolding launched
  run (p, s) = let (r, s') = launch p.exec p.args s in launched p r s'

  await_child : Waited → Outcome (Unit {0})
  await_child reaped = ok tt
  await_child never = blocks
  await_child (failed m) = throws (other m)

  stop_child : ℕ → Option Text → Os → Outcome (Unit {0}) × Os
  unfolding await_child
  stop_child pid (some m) s = (throws (other m), s)
  stop_child pid none s = let (w, s') = wait pid s in (await_child w, s')

  -- proc->terminate(); proc->wait();
  unfoldable pub kill_and_wait : ℕ → Exec Os (Unit {0})
  unfolding stop_child
  kill_and_wait pid s = let (r, s') = kill pid s in stop_child pid r s'

  cleared : Process → Outcome (Unit {0}) × Os → Outcome (Unit {0}) × This
  cleared p (ok u, s) = (ok tt, (record p { proc = none }, s))
  cleared p (r, s) = (r, (p, s))

  terminated : Process → Option Child → Os → Outcome (Unit {0}) × This
  unfolding cleared kill_and_wait
  terminated p none s = (aborts, (p, s))
  terminated p (some c) s = cleared p (kill_and_wait c.pid s)

  -- terminate: through a null pointer it ends the program
  unfoldable pub terminate : Exec This (Unit {0})
  unfolding terminated
  terminate (p, s) = terminated p p.proc s

  -- A destructor is `noexcept`: an exception that leaves it ends the program.
  no_throw : Outcome (Unit {0}) → Outcome (Unit {0})
  no_throw (throws e) = aborts
  no_throw r = r

  destroyed : Option Child → Os → Outcome (Unit {0}) × Os
  unfolding no_throw kill_and_wait
  destroyed none s = (ok tt, s)
  destroyed (some c) s = let (r, s') = kill_and_wait c.pid s in (no_throw r, s')

  -- ~process
  unfoldable pub destroy : Process → Exec Os (Unit {0})
  unfolding destroyed
  destroy p s = destroyed p.proc s

  polled : Process → Bool → Os → Outcome Bool × This
  polled p true s = (ok true, (p, s))
  polled p false s =
      (ok false, (record p { worker = record p.worker { state = stopped }; proc = none }, s))

  checked : Process → WorkerState → Option Child → Os → Outcome Bool × This
  unfolding polled
  checked p stopped c s = (ok false, (p, s))
  checked p running none s = (throws (runtime_error (lit "Process null pointer!")), (p, s))
  checked p running (some c) s = let (r, s') = poll c.pid s in polled p r s'

  -- is_running: the exception of a failed `waitpid` is caught, and marks the worker
  unfoldable pub is_running : Exec This Bool
  unfolding checked
  is_running (p, s) = checked p p.state p.proc s

  -- What follows `run()` in run_process: the child's status channel is read.
  read_status : Option Child → Exec This (Unit {0})
  read_status none (p, s) = (aborts, (p, s))
  read_status (some c) (p, s) =
      let (r, ins) = read_lines c.output p.inputs in
      (r, (record p { worker = record p.worker { inputs = ins } }, s))

  await_running : Exec This (Unit {0})
  unfolding read_status
  await_running (p, s) = read_status p.proc (p, s)

  module _ ⦃t : PropertyTree⦄ where
    open t use {Tree, empty, put}

    -- The reply to `create-worker`.
    unfoldable pub startup_reply : Process → Tree
    startup_reply p = put_inputs p.inputs (put (lit "id") p.id empty)

    reply_with : Exec This Tree
    reply_with (p, s) = (ok (startup_reply p), (p, s))

    -- process::run_process
    unfoldable pub run_process : Exec This Tree
    unfolding run await_running reply_with
    run_process = run >> await_running >> reply_with

    -- application_process::run_process: the status channel is not read
    unfoldable pub run_application : Exec This Tree
    unfolding run reply_with
    run_application = run >> reply_with

    -- The virtual call proc->run_process(p).
    unfoldable pub run_model : Model → Exec This Tree
    unfolding run_process run_application
    run_model application = run_application
    run_model m = run_process
