-- ===== src/Service/Threads.antt =====
-- The two threads of src/main.C, in the steps in which they can meet: the one that runs `ios.run()`,
-- with the connections and the signal handler, and the background thread of manager::run. They
-- share the manager of src/manager.C, under `jobs_mutex` and `workers_mutex`. The background thread
-- takes `workers_mutex` alone; a handler takes it last, and keeps what it has taken to its end. What
-- the children do by themselves in the middle of a round is left aside.
pub mod Local
pub mod Serial
pub mod Progress
use wye.Common.{Bool, true, false, Option, none, some, List, [], ◌∷◌, ◌++◌, ◌≡◌, ◌≢◌, if◌then◌else◌}
use wye.OrderedMap.{Map, find}
use wye.Text.{Text, lit, text_eq}
use wye.Text.Order.{text_order}
use wye.Outcome.{Exec, Outcome, ok, throws, blocks, aborts, pure, ◌>>=◌, ◌>>◌}
use wye.Ptree.{PropertyTree}
use wye.Kernel.{Kernel}
use wye.Job.{Job}
use wye.Process.{Process, is_running}
use wye.Manager.State.{World}
use wye.Manager.{handle}
use wye.Manager.Workers.{prepare_worker}
use wye.Manager.Monitor.{stop, thread_end}

-- Where the background thread is: it sleeps; it holds the mutex, between the entries that it has
-- checked and those that it has not; or its function was left, which ends the program.
pub data Background : Type 0 where
  sleeping : Background
  checking : Map Text Process → Map Text Process → Background
  ended : Outcome (Unit {0}) → Background

abbrev pub IsAlive : Background → Type 0
IsAlive (ended o) = ⊥
IsAlive b = Unit

abbrev pub is_ok : {A : Type 0} → Outcome A → Bool
is_ok (ok a) = true
is_ok (throws e) = false
is_ok blocks = false
is_ok aborts = false

module _ ⦃k : Kernel⦄ ⦃t : PropertyTree⦄ where
  open k use {Os}
  open t use {Tree, empty, get_string}

  -- A call of the manager by the first thread: a request, or the signal handler.
  pub data Entry : Type 0 where
    request : Text → Tree → Entry
    signal : Entry

  unfoldable pub perform : Entry → Exec World Tree
  perform (request uuid p) = handle uuid p
  perform signal = stop >> pure empty

  abbrev pub is_given : Option Text → Bool
  is_given none = false
  is_given (some id) = true

  abbrev pub is_known : Map Text Job → Option Text → Bool
  is_known jobs none = false
  is_known jobs (some id) = elim (find id jobs) [ none ↦ false | some j ↦ true ]

  -- Whether a handler comes to the point where it takes `workers_mutex`, by what it has read before.
  unfoldable pub takes_workers : Text → Text → Tree → Map Text Job → Bool
  takes_workers op uuid p jobs =
      if text_eq op (lit "create-worker")
      then is_ok (prepare_worker uuid p)
      else if text_eq op (lit "get-workers")
      then true
      else if text_eq op (lit "delete-worker")
      then is_given (get_string (lit "id") p)
      else if text_eq op (lit "create-job")
      then false
      else if text_eq op (lit "get-job")
      then is_known jobs (get_string (lit "id") p)
      else if text_eq op (lit "get-jobs")
      then false
      else if text_eq op (lit "delete-job")
      then is_known jobs (get_string (lit "id") p)
      else false

  unfoldable pub needs_workers : Entry → Map Text Job → Bool
  unfolding takes_workers
  needs_workers (request uuid p) jobs = elim (get_string (lit "operation") p) [
    | none ↦ false
    | some op ↦ takes_workers op uuid p jobs
  ]
  needs_workers signal jobs = true

  -- The first thread is in no call; in one, before it has taken a mutex; it waits for
  -- `workers_mutex`, with `jobs_mutex` if it takes that too; or its call has not returned, and has
  -- ended the program, which is `aborts`, or keeps the mutex for ever, which is `blocks`.
  pub data Foreground : Type 0 where
    idle : Foreground
    entered waiting : Entry → Foreground
    halted : Outcome Tree → Foreground

  abbrev pub IsMoving : Foreground → Type 0
  IsMoving (halted o) = ⊥
  IsMoving f = Unit

  abbrev pub after : Outcome Tree → Foreground
  after (ok a) = idle
  after (throws e) = idle
  after blocks = halted blocks
  after aborts = halted aborts

  pub record Threads : Type 0 where
    pub world : World
    pub foreground : Foreground
    pub background : Background

  -- A call, and what it returned or threw.
  abbrev pub Answer : Type 0
  Answer = Entry × Outcome Tree

  -- A call that does not return is not answered.
  abbrev pub answered : Entry → Outcome Tree → List Answer → List Answer
  answered c (ok a) l = (c, ok a) ∷ l
  answered c (throws e) l = (c, throws e) ∷ l
  answered c blocks l = l
  answered c aborts l = l

  -- One turn of the loop: the entry at the iterator is polled.
  unfoldable pub turn : Map Text Process → Text → Process → Map Text Process → World → World
  turn done key q rest w =
      let (r, (q', s)) = is_running (q, w.os) in
      record w { workers = done ++ (key, q') ∷ rest; os = s }

  abbrev pub polled_worker : Process → World → Process
  polled_worker q w = (is_running (q, w.os)).1.0

  -- One step of one thread. The list is of the answers so far, the last one first.
  pub data Step : List Answer × Threads → List Answer × Threads → Type 0 where
    enters :
        (l : List Answer) (w : World) (b : Background) (c : Entry)
        → IsAlive b
        → Step
            (l, record { world = w; foreground = idle; background = b })
            (l, record { world = w; foreground = entered c; background = b })
    -- a call that does without `workers_mutex`, whoever holds it
    answers :
        (l : List Answer) (w : World) (b : Background) (c : Entry)
        → IsAlive b
        → needs_workers c w.jobs ≡ false
        → Step
            (l, record { world = w; foreground = entered c; background = b })
            (
              answered c (perform c w).0 l,
              record {
                world = (perform c w).1;
                foreground = after (perform c w).0;
                background = b;
              },
            )
    waits :
        (l : List Answer) (w : World) (b : Background) (c : Entry)
        → IsAlive b
        → needs_workers c w.jobs ≡ true
        → Step
            (l, record { world = w; foreground = entered c; background = b })
            (l, record { world = w; foreground = waiting c; background = b })
    -- the mutex is free, and is held to the end of the call
    takes :
        (l : List Answer) (w : World) (c : Entry)
        → Step
            (l, record { world = w; foreground = waiting c; background = sleeping })
            (
              answered c (perform c w).0 l,
              record {
                world = (perform c w).1;
                foreground = after (perform c w).0;
                background = sleeping;
              },
            )
    -- the lock of a round, one turn of its loop, and its end
    wakes :
        (l : List Answer) (w : World) (f : Foreground)
        → IsMoving f
        → Step
            (l, record { world = w; foreground = f; background = sleeping })
            (l, record { world = w; foreground = f; background = checking [] w.workers })
    checks :
        (l : List Answer) (w : World) (f : Foreground) (done rest : Map Text Process) (key : Text)
        (q : Process)
        → thread_end (is_running (q, w.os)).0 ≡ ok tt
        → Step
            (l, record { world = w; foreground = f; background = checking done ((key, q) ∷ rest) })
            (
              l,
              record {
                world = turn done key q rest w;
                foreground = f;
                background = checking (done ++ (key, polled_worker q w) ∷ []) rest;
              },
            )
    fails :
        (l : List Answer) (w : World) (f : Foreground) (done rest : Map Text Process) (key : Text)
        (q : Process) (o : Outcome (Unit {0}))
        → thread_end (is_running (q, w.os)).0 ≡ o
        → o ≢ ok tt
        → Step
            (l, record { world = w; foreground = f; background = checking done ((key, q) ∷ rest) })
            (l, record { world = turn done key q rest w; foreground = f; background = ended o })
    -- the children change by themselves, outside of a round
    changes :
        (l : List Answer) (w : World) (f : Foreground) (g : Os → Os)
        → IsMoving f
        → Step
            (l, record { world = w; foreground = f; background = sleeping })
            (l, record { world = record w { os = g w.os }; foreground = f; background = sleeping })
    rests :
        (l : List Answer) (w : World) (f : Foreground) (done : Map Text Process)
        → Step
            (l, record { world = w; foreground = f; background = checking done [] })
            (l, record { world = w; foreground = f; background = sleeping })

  pub data Steps : List Answer × Threads → List Answer × Threads → Type 0 where
    unmoved : (s : List Answer × Threads) → Steps s s
    moved : {s s' s'' : List Answer × Threads} → Steps s s' → Step s' s'' → Steps s s''
