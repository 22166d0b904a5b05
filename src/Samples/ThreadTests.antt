-- ===== src/Samples/ThreadTests.antt =====
-- The theorem on the two threads, at a request that is answered in the middle of a round.
use wye.Common.{◌≡◌, refl, false, [], ◌∷◌}
use wye.Text.{lit, text_eq}
use wye.Ptree.{first_child}
use wye.Outcome.{ok}
use wye.Process.{Process, is_running}
use wye.Manager.State.{World}
use wye.Manager.Monitor.{thread_end}
use wye.Manager.{handle, dispatch}
use wye.Manager.Jobs.{get_jobs}
use wye.Service.Threads.{
  after, Entry, request, perform, needs_workers, takes_workers, Background, sleeping, checking,
  idle, Threads, after, Steps, unmoved, moved, enters, answers, wakes, checks, turn, polled_worker,
}
use wye.Service.Threads.Serial.{Refines, threads_serialize}
use wye.Samples.Trees.{sample_trees, node_children, to_list, value}
use wye.Samples.System.{sample_kernel}
use wye.Samples.Sockets.{request as request_of}
use wye.Samples.Data.{two_workers, worker_of}

abbrev listing : Entry
listing = request (lit "u1") (request_of ((lit "operation", lit "get-jobs") ∷ []))

abbrev first : Process
first = worker_of (lit "a") (lit "j0") 1

abbrev second : Process
second = worker_of (lit "b") (lit "j1") 2

abbrev turned : World
turned = turn [] (lit "a") first ((lit "b", second) ∷ []) two_workers

abbrev in_round : Background
in_round = checking ((lit "a", polled_worker first two_workers) ∷ []) ((lit "b", second) ∷ [])

-- The first worker has been checked, and the second has not.
abbrev midway : Threads
midway = record {
  world = (perform listing turned).1;
  foreground = after (perform listing turned).0;
  background = in_round;
}

first_runs : thread_end (is_running (first, two_workers.os)).0 ≡ ok tt
unfolding thread_end is_running
first_runs = refl

without_workers : needs_workers listing turned.jobs ≡ false
unfolding needs_workers takes_workers turn lit text_eq first_child node_children to_list value
without_workers = refl

history :
    Steps
      ([], record { world = two_workers; foreground = idle; background = sleeping })
      ((listing, (perform listing turned).0) ∷ [], midway)
unfolding perform handle dispatch get_jobs first_child node_children text_eq lit value
history =
    moved
      (moved
        (moved (moved (unmoved _) (wakes [] two_workers idle tt))
          (checks [] two_workers idle [] ((lit "b", second) ∷ []) (lit "a") first first_runs))
        (enters [] turned in_round listing tt))
      (answers [] turned in_round listing tt without_workers)

threads_serialize_example : Refines two_workers ((listing, (perform listing turned).0) ∷ [], midway)
threads_serialize_example =
    threads_serialize two_workers ((listing, (perform listing turned).0) ∷ []) midway history
