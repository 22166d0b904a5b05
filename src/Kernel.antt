-- ===== src/Kernel.antt =====
-- The child processes of the operating system, as the service reaches them through the
-- Boost.Process calls `posix_launch`, `child::get_output(3)`, `child::terminate`, `child::wait` and
-- through `waitpid`. They are a parameter of the model, with laws that state what POSIX documents.
use wye.Common.{ℕ, ◌≡◌, ◌≢◌, Bool, true, false, Option, none, List}
use wye.Text.{Text}

-- How a child's status channel goes on after what it has written: end of file, a read error, or
-- neither, when the child keeps the channel open and writes nothing more.
pub data Ending : Type 0 where
  closed broken silent : Ending

-- What a child writes on its status channel: whole lines, then bytes with no newline behind them.
pub record Stream : Type 0 where
  pub lines : List Text
  pub rest : Text
  pub ending : Ending

pub record Child : Type 0 where
  pub pid : ℕ
  pub output : Stream

pub data Launch : Type 0 where
  started : Child → Launch
  refused : Text → Launch

-- The end of a blocking wait for a child.
pub data Waited : Type 0 where
  reaped never : Waited
  failed : Text → Waited

-- A child runs, has ended and waits to be reaped, or is unknown to the system.
pub data Phase : Type 0 where
  alive zombie gone : Phase

pub record Kernel : Type 1 where
  pub Os : Type 0
  -- posix_launch(exec, args, ctx); `refused` is a throw with that message
  pub launch : Text → List Text → Os → Launch × Os
  -- proc->terminate(); `some` is a throw with that message
  pub kill : ℕ → Os → Option Text × Os
  -- proc->wait()
  pub wait : ℕ → Os → Waited × Os
  -- waitpid(pid, &status, WNOHANG) did not return -1
  pub poll : ℕ → Os → Bool × Os
  pub phase : ℕ → Os → Phase
  -- a launch makes one new process and changes no other, and one that is refused changes none
  pub launch_other :
      (exec : Text) (args : List Text) (s : Os) (c : Child) (p : ℕ)
      → (launch exec args s).0 ≡ started c
      → p ≢ c.pid
      → phase p (launch exec args s).1 ≡ phase p s
  pub launch_refused :
      (exec : Text) (args : List Text) (s : Os) (m : Text) (p : ℕ)
      → (launch exec args s).0 ≡ refused m
      → phase p (launch exec args s).1 ≡ phase p s
  -- a running child is left alone, an ended one is reaped, and an unknown one is an error
  pub poll_alive : (p : ℕ) (s : Os) → phase p s ≡ alive → poll p s ≡ (true, s)
  pub poll_zombie :
      (p : ℕ) (s : Os) → phase p s ≡ zombie → ((poll p s).0 ≡ true) × (phase p (poll p s).1 ≡ gone)
  pub poll_gone : (p : ℕ) (s : Os) → phase p s ≡ gone → poll p s ≡ (false, s)
  pub poll_other : (p q : ℕ) (s : Os) → q ≢ p → phase q (poll p s).1 ≡ phase q s
  -- a signal to a process that the system does not know is an error
  pub kill_gone : (p : ℕ) (s : Os) → phase p s ≡ gone → (kill p s).0 ≢ none
  pub kill_known : (p : ℕ) (s : Os) → phase p s ≢ gone → (kill p s).0 ≡ none
  -- the signal is SIGTERM, which a process may ignore or handle; one that does neither ends, and
  -- a wait for it then returns
  pub heeds : ℕ → Os → Bool
  pub wait_killed :
      (p : ℕ) (s : Os) → phase p s ≢ gone → heeds p s ≡ true → (wait p (kill p s).1).0 ≡ reaped
  pub wait_reaps : (p : ℕ) (s : Os) → (wait p s).0 ≡ reaped → phase p (wait p s).1 ≡ gone
  -- neither call touches another process
  pub kill_other :
      (p q : ℕ) (s : Os)
      → q ≢ p
      → (phase q (kill p s).1 ≡ phase q s) × (heeds q (kill p s).1 ≡ heeds q s)
  pub wait_other :
      (p q : ℕ) (s : Os)
      → q ≢ p
      → (phase q (wait p s).1 ≡ phase q s) × (heeds q (wait p s).1 ≡ heeds q s)
