-- ===== src/Samples/SurvivalTests.antt =====
-- The theorems on requests that return, and on requests that leave the program running, at concrete
-- tables and systems.
use wye.Common.{ap, subst, inl, inr, ◌≡◌, ◌≢◌, refl, none, List, [], ◌∷◌, arith}
use wye.Text.{lit}
use wye.Text.Order.{compare_text, text_order}
use wye.OrderedMap.{find, same}
use wye.Outcome.{blocks}
use wye.Kernel.{Child, started}
use wye.Process.Startup.Acceptance.{SaysRunning}
use wye.Manager.Termination.{ChildrenEnd, ChildrenSpeak}
use wye.Manager.State.{World, new_manager}
use wye.Connection.{receive, answer_continue, read_body, io, io_outcome}
use wye.Service.{Event, connection, tick, signal, run, step, stuck, crashed}
use wye.Service.Survival.{IsSafe, IsHarmless, step_survives}
use wye.Service.Stuck.{service_never_stuck}
use wye.Service.Threads.{Entry, request, Background, checking}
use wye.Samples.Trees.{sample_trees, node}
use wye.Samples.Sockets.{fields, sample_http, sample_json}
use wye.Samples.System.{launch_always, willing_kernel, sample_kernel}
use wye.Samples.Data.{worker_of, two_children, wire, two_workers, machine}
use wye.Samples.RegistryTests.{sorted, apart}

fresh : find (lit "u9") two_workers.workers ≡ none
unfolding find same lit compare_text
fresh = refl

is_safe : IsSafe two_workers
is_safe = record {
  sorted = sorted;
  apart = apart;
  held = (record { child = λ _ e. absurd (cc) }, (record { child = λ _ e. absurd (cc) }, tt));
}

harmless : IsHarmless (connection 5 (lit "u9") (wire (lit "create-worker"))) two_workers
unfolding receive answer_continue read_body io io_outcome
harmless = (fresh, (λ e h. absurd (cc)), λ r m e. absurd (cc))

step_survives_example :
    (step (connection 5 (lit "u9") (wire (lit "create-worker"))) two_workers).0 ≢ crashed
step_survives_example =
    step_survives (connection 5 (lit "u9") (wire (lit "create-worker"))) two_workers
      (λ p e. absurd (cc)) is_safe harmless

-- A system on which a child says at once that it runs, and keeps its channel open.
ends : ChildrenEnd ⦃k = willing_kernel⦄
ends p m h = ground arith

speaks : ChildrenSpeak ⦃k = willing_kernel⦄
speaks exec args m m' c h = inr (says c (ap (λ r. r.0) h))
  where
    says : (c : Child) → (launch_always m).0 ≡ started c → SaysRunning c.output.lines
    says c h = subst SaysRunning (lines_of c h) (inl refl)
      where
        lines_of :
            (c : Child) → (launch_always m).0 ≡ started c → lit "RUNNING" ∷ [] ≡ c.output.lines
        lines_of c h = ground arith

abbrev history : List (Event ⦃k = willing_kernel⦄)
history = connection 5 (lit "u1") (wire (lit "create-worker")) ∷ tick ∷ signal ∷ []

received : (receive 5 (wire (lit "create-worker"))).0 ≢ blocks
unfolding receive answer_continue read_body io io_outcome
received h = cc

service_never_stuck_example :
    (run ⦃k = willing_kernel⦄ history (new_manager ⦃k = willing_kernel⦄ (machine none))).0 ≢ stuck
service_never_stuck_example =
    service_never_stuck ⦃k = willing_kernel⦄ ends speaks history (machine none)
      (received, (tt, (tt, tt)))

-- A worker is to be created while a round has checked the first of two workers.
abbrev creation : Entry ⦃k = willing_kernel⦄
creation = request (lit "u9") (
    node [] (
      fields (
        (lit "operation", lit "create-worker")
        ∷ (lit "model", lit "python")
        ∷ (lit "file", lit "a.py")
        ∷ (lit "job_id", lit "j1")
        ∷ [])))

abbrev in_round : Background
in_round =
    checking ((lit "a", worker_of (lit "a") (lit "j0") 1) ∷ [])
      ((lit "b", worker_of (lit "b") (lit "j1") 2) ∷ [])

abbrev willing_world : World ⦃k = willing_kernel⦄
willing_world = record { workers = two_workers.workers; jobs = two_workers.jobs; os = two_children }
