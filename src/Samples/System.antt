-- ===== src/Samples/System.antt =====
-- A small operating system: the phase of each process by its number, counted up from 1.
use wye.Common.{
  refl, ℕ, suc, ◌+◌, [], ◌∷◌, ◌≡◌, ◌≢◌, Bool, true, false, Option, none, some, ◌==◌, if◌then◌else◌,
  arith,
}
use wye.Text.{Text, lit}
use wye.Kernel.{
  Kernel, Child, Stream, silent, Launch, started, refused, Waited, reaped, failed, Phase, alive,
  zombie, gone,
}

-- What is to be launched next writes `next_output`; nothing can be launched without it.
pub record Machine : Type 0 where
  pub phases : ℕ → Phase
  pub next_pid : ℕ
  pub next_output : Option Stream

abbrev pub set_phase : ℕ → Phase → Machine → Machine
set_phase p ph m = record m { phases = λ q. if q == p then ph else m.phases q }

abbrev pub poll_phase : ℕ → Machine → Phase → Bool × Machine
poll_phase p m alive = (true, m)
poll_phase p m zombie = (true, set_phase p gone m)
poll_phase p m gone = (false, m)

abbrev pub kill_phase : ℕ → Machine → Phase → Option Text × Machine
kill_phase p m alive = (none, set_phase p zombie m)
kill_phase p m zombie = (none, m)
kill_phase p m gone = (some (lit "kill(2) failed"), m)

abbrev pub wait_phase : ℕ → Machine → Phase → Waited × Machine
wait_phase p m alive = (Waited.never, m)
wait_phase p m zombie = (reaped, set_phase p gone m)
wait_phase p m gone = (failed (lit "waitpid(2) failed"), m)

-- A child gets the number.
abbrev pub launch_as : ℕ → Machine → Option Stream → Launch × Machine
launch_as p m none = (refused (lit "fork(2) failed"), m)
launch_as p m (some out) = (
  started (record { pid = p; output = out }),
  record (set_phase p alive m) { next_pid = suc m.next_pid },
)

abbrev pub launch_next : Machine → Option Stream → Launch × Machine
launch_next m out = launch_as m.next_pid m out

pub sample_launch_other :
    (n : ℕ) (m : Machine) (o : Option Stream) (c : Child) (p : ℕ)
    → (launch_as n m o).0 ≡ started c
    → p ≢ c.pid
    → (launch_as n m o).1.phases p ≡ m.phases p
sample_launch_other n m o c p l other = ground arith

pub sample_launch_refused :
    (n : ℕ) (m : Machine) (o : Option Stream) (x : Text) (p : ℕ)
    → (launch_as n m o).0 ≡ refused x
    → (launch_as n m o).1.phases p ≡ m.phases p
sample_launch_refused n m o x p l = ground arith

pub sample_poll_alive :
    (p : ℕ) (m : Machine) → m.phases p ≡ alive → poll_phase p m (m.phases p) ≡ (true, m)
sample_poll_alive p m h = ground arith

pub sample_poll_zombie :
    (p : ℕ) (m : Machine)
    → m.phases p ≡ zombie
    → ((poll_phase p m (m.phases p)).0 ≡ true) × ((poll_phase p m (m.phases p)).1.phases p ≡ gone)
sample_poll_zombie p m h = ground arith

pub sample_poll_gone :
    (p : ℕ) (m : Machine) → m.phases p ≡ gone → poll_phase p m (m.phases p) ≡ (false, m)
sample_poll_gone p m h = ground arith

pub sample_poll_other :
    (p q : ℕ) (m : Machine) → q ≢ p → (poll_phase p m (m.phases p)).1.phases q ≡ m.phases q
sample_poll_other p q m h = ground arith

pub sample_kill_gone :
    (p : ℕ) (m : Machine) → m.phases p ≡ gone → (kill_phase p m (m.phases p)).0 ≢ none
sample_kill_gone p m h = ground arith

pub sample_kill_known :
    (p : ℕ) (m : Machine) → m.phases p ≢ gone → (kill_phase p m (m.phases p)).0 ≡ none
sample_kill_known p m h = ground arith

pub sample_wait_killed :
    (p : ℕ) (m : Machine)
    → m.phases p ≢ gone
    → (wait_phase p (kill_phase p m (m.phases p)).1 ((kill_phase p m (m.phases p)).1.phases p)).0
      ≡ reaped
sample_wait_killed p m h = ground arith

pub sample_wait_reaps :
    (p : ℕ) (m : Machine)
    → (wait_phase p m (m.phases p)).0 ≡ reaped
    → (wait_phase p m (m.phases p)).1.phases p ≡ gone
sample_wait_reaps p m h = ground arith

pub sample_kill_other :
    (p q : ℕ) (m : Machine) → q ≢ p → (kill_phase p m (m.phases p)).1.phases q ≡ m.phases q
sample_kill_other p q m h = ground arith

pub sample_wait_other :
    (p q : ℕ) (m : Machine) → q ≢ p → (wait_phase p m (m.phases p)).1.phases q ≡ m.phases q
sample_wait_other p q m h = ground arith

instance abbrev pub sample_kernel : Kernel
sample_kernel = record {
  Os = Machine;
  launch = λ exec args m. launch_next m m.next_output;
  kill = λ p m. kill_phase p m (m.phases p);
  wait = λ p m. wait_phase p m (m.phases p);
  poll = λ p m. poll_phase p m (m.phases p);
  phase = λ p m. m.phases p;
  launch_other = λ _ _ m. sample_launch_other m.next_pid m m.next_output;
  launch_refused = λ _ _ m. sample_launch_refused m.next_pid m m.next_output;
  poll_alive = sample_poll_alive;
  poll_zombie = sample_poll_zombie;
  poll_gone = sample_poll_gone;
  poll_other = sample_poll_other;
  kill_gone = sample_kill_gone;
  kill_known = sample_kill_known;
  heeds = λ p m. true;
  wait_killed = λ p m h _. sample_wait_killed p m h;
  wait_reaps = sample_wait_reaps;
  kill_other = λ p q m h. (sample_kill_other p q m h, refl);
  wait_other = λ p q m h. (sample_wait_other p q m h, refl);
}

-- The same system, which never refuses a launch.
abbrev pub launch_always : Machine → Launch × Machine
launch_always m =
    launch_next m (some (record { lines = lit "RUNNING" ∷ []; rest = []; ending = silent }))

abbrev pub willing_kernel : Kernel
willing_kernel = record sample_kernel {
  launch = λ exec args m. launch_always m;
  launch_other = λ _ _ m. sample_launch_other m.next_pid m (some _);
  launch_refused = λ _ _ m. sample_launch_refused m.next_pid m (some _);
}

-- The same system, with no number below 100 for a new child.
abbrev pub high_kernel : Kernel
high_kernel = record sample_kernel {
  launch = λ exec args m. launch_as (100 + m.next_pid) m m.next_output;
  launch_other = λ _ _ m. sample_launch_other (100 + m.next_pid) m m.next_output;
  launch_refused = λ _ _ m. sample_launch_refused (100 + m.next_pid) m m.next_output;
}

pub launch_high :
    (m : Machine) (o : Option Stream) (c : Child)
    → (launch_as (100 + m.next_pid) m o).0 ≡ started c
    → 2 ≢ c.pid
launch_high m o c l = ground arith
