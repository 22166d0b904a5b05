-- ===== src/Service/Stuck.antt =====
-- When the program of src/main.C never waits for ever.
use wye.Common.{
  ℕ, ◌≡◌, ◌≢◌, refl, sym, subst, List, [], ◌∷◌, arith, Option, none, some, All, ◌⊎◌, inl, inr,
}
use wye.Text.{Text}
use wye.Outcome.{Outcome, blocks}
use wye.Ptree.{PropertyTree}
use wye.Kernel.{Kernel}
use wye.Http.{Http, Json, Response}
use wye.Manager.State.{World, new_manager}
use wye.Manager.{handle}
use wye.Manager.Termination.{ChildrenEnd, ChildrenSpeak, destroy_all-ne-blocks, handle_returns}
use wye.Manager.Monitor.{sweep, stop}
use wye.Manager.Monitor.Sweep.{sweep-end}
use wye.Manager.Invariant.{WellFormed}
use wye.Connection.{
  Session, make_connection, serve, answer, answer_tree, reply_for, respond, on_socket, receive,
  end_quietly, io, io_outcome,
}
use wye.Service.{
  Event, connection, accept_failed, tick, signal, children, stuck, step, run, status_of,
  status_of_stop,
}
use wye.Service.Runs.{step-WellFormed, new_manager-WellFormed}
use wye.Connection.Replies.{answer_unread, answer_read}

module _ ⦃h : Http⦄ ⦃k : Kernel⦄ ⦃t : PropertyTree⦄ ⦃j : Json⦄ where
  open k use {Os}
  open t use {Tree}
  open j use {read_json}
  open h use {body, is_open, write_response}

  respond-ne-blocks : (r : Response) (s : Session) → (respond r s).0 ≢ blocks
  unfolding respond on_socket io io_outcome
  respond-ne-blocks r s h = ground arith

  reply_for-ne-blocks : (o : Outcome Tree) (s : Session) → o ≢ blocks → (reply_for o s).0 ≢ blocks
  unfolding reply_for
  reply_for-ne-blocks o s n h = grind (arith, respond-ne-blocks)

  -- The request of a connection can be read to its end, or to an error of the socket.
  abbrev pub IsReadable : Event → Type 0
  IsReadable (connection fuel uuid c) = (receive fuel c).0 ≢ blocks
  IsReadable accept_failed = Unit
  IsReadable tick = Unit
  IsReadable signal = Unit
  IsReadable (children g) = Unit

  module _ (e : ChildrenEnd) (f : ChildrenSpeak) where
    answer-ne-blocks : (uuid : Text) (s : Session) → WellFormed s.world → (answer uuid s).0 ≢ blocks
    answer-ne-blocks uuid s v = go (read_json (body s.socket)) refl
      where
        go : (o : Option Tree) → read_json (body s.socket) ≡ o → (answer uuid s).0 ≢ blocks
        go none u = subst (λ r. r.0 ≢ blocks) (sym (answer_unread uuid s u)) (respond-ne-blocks _ s)
        go (some p) u =
            subst (λ r. r.0 ≢ blocks) (sym (answer_read uuid s p u))
              (unfold answer_tree in
                reply_for-ne-blocks (handle uuid p s.world).0 _
                  (handle_returns uuid p s.world v.workers_sorted e f))

    sweep-ne-blocks : (w : World) → (sweep w).0 ≢ blocks
    sweep-ne-blocks w h = elim (sweep-end w) [ inl (a, _) ↦ cc | inr (a, _) ↦ cc ]

    serve-ne-blocks :
        (fuel : ℕ) (uuid : Text) (s : Session)
        → (receive fuel s.socket).0 ≢ blocks
        → WellFormed s.world
        → (serve fuel uuid s).0 ≢ blocks
    unfolding serve on_socket end_quietly
    serve-ne-blocks fuel uuid s r v h = ground (
      arith,
      answer-ne-blocks uuid (record { socket = (receive fuel s.socket).1; world = s.world })
          (record {
            workers_sorted = v.workers_sorted;
            jobs_sorted = v.jobs_sorted;
            workers_good = v.workers_good;
            jobs_good = v.jobs_good;
          }),
    )

    stuck-blocks : (r : Outcome (Unit {0})) → status_of r ≡ stuck → r ≡ blocks
    unfolding status_of
    stuck-blocks r h = ground arith

    step-ne-stuck : (ev : Event) (w : World) → IsReadable ev → WellFormed w → (step ev w).0 ≢ stuck
    unfolding step status_of status_of_stop
    step-ne-stuck (connection fuel uuid c) w r v h =
        serve-ne-blocks fuel uuid (make_connection c w) r v (stuck-blocks _ h)
    step-ne-stuck accept_failed w r v h = cc
    step-ne-stuck tick w r v h = ground (arith, sweep-ne-blocks w)
    step-ne-stuck signal w r v h =
        unfold stop in ground (arith, destroy_all-ne-blocks w.workers w.os e)
    step-ne-stuck (children g) w r v h = cc

    run-stuck :
        (ev : Event) (es : List Event) (w : World)
        → (run (ev ∷ es) w).0 ≡ stuck
        → ((step ev w).0 ≡ stuck) ⊎ ((run es (step ev w).1).0 ≡ stuck)
    unfolding run
    run-stuck ev es w h = ground arith

    run-ne-stuck :
        (es : List Event) (w : World) → All IsReadable es → WellFormed w → (run es w).0 ≢ stuck
    run-ne-stuck [] w r v h = unfold run in cc
    run-ne-stuck (ev ∷ es) w r v h = elim (run-stuck ev es w h) [
      | inl now ↦ step-ne-stuck ev w r.0 v now
      | inr later ↦ run-ne-stuck es (step ev w).1 r.1 (step-WellFormed ev w v) later
    ]

    -- Whatever connections, rounds, signals and ends of children come in whatever order, no call of
    -- the program waits for ever: when a process that was sent the signal ends, a child that is
    -- launched says at some time that it runs or closes its channel, and the request of each
    -- connection can be read to its end or to an error of the socket.
    pub service_never_stuck :
        (es : List Event) (s : Os) → All IsReadable es → (run es (new_manager s)).0 ≢ stuck
    service_never_stuck es s r = run-ne-stuck es (new_manager s) r (new_manager-WellFormed s)
