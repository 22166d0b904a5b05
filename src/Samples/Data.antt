-- ===== src/Samples/Data.antt =====
-- The data at which the theorems are applied.
use wye.Common.{ℕ, Bool, true, false, Option, none, some, [], ◌∷◌, ◌==◌, if◌then◌else◌}
use wye.OrderedMap.{Map}
use wye.Text.{Text, lit}
use wye.Kernel.{Stream, closed, silent, alive, zombie, gone}
use wye.Job.{Job}
use wye.Worker.{running}
use wye.Process.{Process, python}
use wye.Manager.State.{World}
use wye.Samples.Trees.{Node, sample_trees}
use wye.Samples.System.{Machine, sample_kernel}
use wye.Http.{done}
use wye.Samples.Sockets.{Wire, request, sample_http, sample_json}

-- A child that starts, and one that ends before it runs.
abbrev pub good_output : Stream
good_output = record {
  lines = lit "INIT" ∷ lit "INPUT:in:tcp://h:1" ∷ lit "NOTICE:ok" ∷ lit "RUNNING" ∷ [];
  rest = [];
  ending = silent;
}

abbrev pub bad_output : Stream
bad_output = record { lines = lit "INIT" ∷ []; rest = lit "RUNNING"; ending = closed }

abbrev pub silent_output : Stream
silent_output = record { lines = lit "INIT" ∷ []; rest = []; ending = silent }

abbrev pub announced : Map Text Text
announced = (lit "in", lit "tcp://h:1") ∷ []

abbrev pub machine : Option Stream → Machine
machine out = record { phases = λ p. gone; next_pid = 7; next_output = out }

-- Child 1 runs, child 2 has ended, and no other is known.
abbrev pub two_children : Machine
two_children = record {
  phases = λ p. if p == 1 then alive else if p == 2 then zombie else gone;
  next_pid = 3;
  next_output = none;
}

abbrev pub worker_of : Text → Text → ℕ → Process
worker_of id job pid = record {
  worker = record {
    id = id;
    name = lit "w";
    job_id = job;
    state = running;
    outputs = [];
    inputs = [];
  };
  model = python;
  exec = lit "/usr/bin/python";
  args = lit "python" ∷ lit "a.py" ∷ [];
  proc = some (record { pid = pid; output = silent_output });
}

abbrev pub job_one : Job
job_one = record { id = lit "j1"; name = lit "pi"; description = [] }

-- Two workers, the second of job j1 with a child that has ended, and one job.
abbrev pub two_workers : World
two_workers = record {
  workers =
      (lit "a", worker_of (lit "a") (lit "j0") 1)
      ∷ (lit "b", worker_of (lit "b") (lit "j1") 2)
      ∷ [];
  jobs = (lit "j1", job_one) ∷ [];
  os = two_children;
}

abbrev pub no_workers : Machine → World
no_workers m = record { workers = []; jobs = []; os = m }

abbrev pub create_python : Node
create_python = request (
    (lit "model", lit "python")
    ∷ (lit "file", lit "a.py")
    ∷ (lit "job_id", lit "j1")
    ∷ (lit "name", lit "w")
    ∷ [])

-- The worker that this request prepares.
abbrev pub prepared : Process
prepared = record {
  worker = record {
    id = lit "u1";
    name = lit "w";
    job_id = lit "j1";
    state = running;
    outputs = [];
    inputs = [];
  };
  model = python;
  exec = lit "/usr/bin/python";
  args = lit "python" ∷ lit "a.py" ∷ [];
  proc = none;
}

abbrev pub by_id : Text → Node
by_id id = request ((lit "id", id) ∷ [])

abbrev pub wire : Text → Wire
wire text = record {
  chunks = 2;
  text = text;
  written = [];
  broken = false;
  ended = false;
  opening = done;
}

-- ZeroMQ takes no empty address.
abbrev pub not_empty : Text → Bool
not_empty [] = false
not_empty (c ∷ v) = true
