-- ===== src/Service/Runs.antt =====
-- The runs of the program of src/main.C and the manager's tables.
use wye.Common.{
  ℕ, ◌≡◌, refl, sym, subst, List, [], ◌∷◌, arith, Option, none, some, Bool-cases, inl, inr,
}
use wye.Text.{Text}
use wye.Outcome.{Outcome}
use wye.Outcome.Laws.{bind-keeps}
use wye.Ptree.{PropertyTree}
use wye.Kernel.{Kernel}
use wye.Http.{Http, Json}
use wye.Manager.State.{World, new_manager}
use wye.Manager.{handle}
use wye.Manager.Invariant.{WellFormed}
use wye.Manager.Invariant.Requests.{handle-WellFormed}
use wye.Manager.Invariant.Rounds.{sweep-WellFormed, stop-WellFormed}
use wye.Connection.{Session, serve, answer, answer_tree, reply_for, respond, on_socket, receive}
use wye.Connection.Replies.{answer_unread, answer_read}
use wye.Service.{
  Event, connection, accept_failed, tick, signal, children, Status, serving, crashed, stuck, exited,
  step, run,
}

module _ ⦃h : Http⦄ ⦃k : Kernel⦄ ⦃t : PropertyTree⦄ ⦃j : Json⦄ where
  open t use {Tree}
  open j use {read_json}
  open h use {body, is_open}

  -- What is sent changes nothing of the manager.
  pub world-reply_for : (o : Outcome Tree) (s : Session) → (reply_for o s).1.world ≡ s.world
  unfolding reply_for
  world-reply_for o s = ground arith

  answer_tree-WellFormed :
      (uuid : Text) (p : Tree) (s : Session)
      → WellFormed s.world
      → WellFormed (answer_tree uuid p s).1.world
  unfolding answer_tree
  answer_tree-WellFormed uuid p s v =
      subst WellFormed
        (sym (
          world-reply_for (handle uuid p s.world).0
            (record s { world = (handle uuid p s.world).1 })))
        (handle-WellFormed uuid p s.world v)

  answer-WellFormed :
      (uuid : Text) (s : Session) → WellFormed s.world → WellFormed (answer uuid s).1.world
  unfolding respond
  answer-WellFormed uuid s v = go (read_json (body s.socket)) refl
    where
      go : (o : Option Tree) → read_json (body s.socket) ≡ o → WellFormed (answer uuid s).1.world
      go none e = subst (λ r. WellFormed r.1.world) (sym (answer_unread uuid s e)) v
      go (some p) e =
          subst (λ r. WellFormed r.1.world) (sym (answer_read uuid s p e))
            (answer_tree-WellFormed uuid p s v)

  serve-WellFormed :
      (fuel : ℕ) (uuid : Text) (s : Session)
      → WellFormed s.world
      → WellFormed (serve fuel uuid s).1.world
  unfolding serve
  serve-WellFormed fuel uuid s v = elim (Bool-cases (is_open s.socket)) [
    | inl e ↦ rw e (
        bind-keeps (λ _. answer uuid) (λ s'. WellFormed s'.world) (on_socket (receive fuel)) s
          (unfold on_socket in v) (λ _ _. answer-WellFormed uuid _ (unfold on_socket in v)))
    | inr e ↦ rw e v
  ]

  -- One event leaves well-formed tables behind.
  pub step-WellFormed : (e : Event) (w : World) → WellFormed w → WellFormed (step e w).1
  unfolding step
  step-WellFormed (connection fuel uuid c) w v =
      serve-WellFormed fuel uuid (record { socket = c; world = w }) v
  step-WellFormed accept_failed w v = v
  step-WellFormed tick w v = sweep-WellFormed w v
  step-WellFormed signal w v = stop-WellFormed w v
  step-WellFormed (children f) w v = record {
    workers_sorted = v.workers_sorted;
    jobs_sorted = v.jobs_sorted;
    workers_good = v.workers_good;
    jobs_good = v.jobs_good;
  }

  run-WellFormed : (es : List Event) (w : World) → WellFormed w → WellFormed (run es w).1
  unfolding run
  run-WellFormed [] w v = v
  run-WellFormed (e ∷ es) w v =
      go (run-WellFormed es (step e w).1 (step-WellFormed e w v)) (step e w).0 refl
    where
      kept : WellFormed (step e w).1
      kept = step-WellFormed e w v

      go :
          WellFormed (run es (step e w).1).1
          → (st : Status) → (step e w).0 ≡ st
          → WellFormed (run (e ∷ es) w).1
      go rest serving eq = rw (eq, run) rest
      go rest crashed eq = rw (eq, run) kept
      go rest stuck eq = rw (eq, run) kept
      go rest (exited n) eq = rw (eq, run) kept

  pub new_manager-WellFormed : (s : k.Os) → WellFormed (new_manager s)
  new_manager-WellFormed s = record {
    workers_sorted = tt;
    jobs_sorted = tt;
    workers_good = tt;
    jobs_good = tt;
  }

  -- From the start, whatever connections, rounds, signals and ends of children come in whatever
  -- order: both tables are sorted and hold each object under its own identifier, and no worker
  -- that is marked as stopped holds a child.
  pub service-WellFormed : (es : List Event) (s : k.Os) → WellFormed (run es (new_manager s)).1
  service-WellFormed es s = run-WellFormed es (new_manager s) (new_manager-WellFormed s)
