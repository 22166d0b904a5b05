-- ===== src/Service/Kept.antt =====
-- A property of the manager that each request and each round of the background thread keeps holds
-- in every state from which the program of src/main.C goes on serving.
use wye.Common.{
  ℕ, ◌≡◌, ◌≢◌, refl, sym, subst, List, [], ◌∷◌, arith, Option, none, some, Bool-cases, inl, inr,
  All,
}
use wye.Text.{Text}
use wye.Outcome.{Outcome, ok, throws, blocks, aborts, ◌>>◌}
use wye.Outcome.Settled.{Settles, bind-Settles}
use wye.Ptree.{PropertyTree}
use wye.Kernel.{Kernel}
use wye.Http.{Http, Json}
use wye.Manager.State.{World}
use wye.Manager.{handle}
use wye.Manager.Monitor.{sweep, stop}
use wye.Connection.{
  Session, serve, answer, answer_tree, reply_for, respond, on_socket, receive, end_quietly,
}
use wye.Service.{
  Event, connection, accept_failed, tick, signal, children, serving, step, run, status_of,
  status_of_stop,
}
use wye.Service.Runs.{world-reply_for}
use wye.Connection.Replies.{answer_unread, answer_read}

module _ ⦃h : Http⦄ ⦃k : Kernel⦄ ⦃t : PropertyTree⦄ ⦃j : Json⦄ where
  open k use {Os}
  open t use {Tree}
  open j use {read_json}
  open h use {body, is_open}

  pub run_next :
      (e : Event) (es : List Event) (w : World)
      → (step e w).0 ≡ serving
      → run (e ∷ es) w ≡ run es (step e w).1
  unfolding run
  run_next e es w h = rw (h, run) refl

  pub run_ended :
      (e : Event) (es : List Event) (w : World)
      → (run (e ∷ es) w).0 ≡ serving
      → (step e w).0 ≡ serving
  unfolding run
  run_ended e es w h = ground arith

  -- The identifiers that a request may get are all of one kind, and so are the changes that the
  -- children make by themselves.
  module _ (U : Text → Type 0) (Good : (Os → Os) → Type 0) where
    abbrev pub EventIs : Event → Type 0
    EventIs (connection fuel uuid c) = U uuid
    EventIs accept_failed = Unit
    EventIs tick = Unit
    EventIs signal = Unit
    EventIs (children f) = Good f

  pub record KeptByEvents (U : Text → Type 0) (Good : (Os → Os) → Type 0) (P : World → Type 0)
      : Type 0 where
    pub handled : (uuid : Text) (p : Tree) (w : World) → U uuid → P w → Settles P (handle uuid p w)
    pub swept : (w : World) → P w → (sweep w).0 ≡ ok tt → P (sweep w).1
    pub moved : (f : Os → Os) (w : World) → Good f → P w → P (record w { os = f w.os })

  module _ (U : Text → Type 0) (Good : (Os → Os) → Type 0) (P : World → Type 0)
      (parts : KeptByEvents U Good P) where
    abbrev Q : Session → Type 0
    Q s = P s.world

    answer_tree-Settles :
        (uuid : Text) (p : Tree) (s : Session)
        → U uuid
        → P s.world
        → Settles Q (answer_tree uuid p s)
    unfolding answer_tree
    answer_tree-Settles uuid p s u v nb na =
        subst P (sym (world-reply_for o (record s { world = (handle uuid p s.world).1 })))
          (parts.handled uuid p s.world u v (λ e. nb (blocked o _ e)) (λ e. na (aborted o _ e)))
      where
        o : Outcome Tree
        o = (handle uuid p s.world).0

        blocked : (r : Outcome Tree) (s' : Session) → r ≡ blocks → (reply_for r s').0 ≡ blocks
        blocked r s' e = rw e (unfold reply_for in refl)

        aborted : (r : Outcome Tree) (s' : Session) → r ≡ aborts → (reply_for r s').0 ≡ aborts
        aborted r s' e = rw e (unfold reply_for in refl)

    answer-Settles : (uuid : Text) (s : Session) → U uuid → P s.world → Settles Q (answer uuid s)
    answer-Settles uuid s u v = go (read_json (body s.socket)) refl
      where
        go : (o : Option Tree) → read_json (body s.socket) ≡ o → Settles Q (answer uuid s)
        go none e = subst (Settles Q) (sym (answer_unread uuid s e)) (λ _ _. unfold respond in v)
        go (some p) e =
            subst (Settles Q) (sym (answer_read uuid s p e)) (answer_tree-Settles uuid p s u v)

    quiet-Settles :
        (r : Outcome (Unit {0})) (s : Session) → Settles Q (r, s) → Settles Q (end_quietly r, s)
    unfolding end_quietly
    quiet-Settles (ok u) s v nb na = v (λ e. cc) (λ e. cc)
    quiet-Settles (throws e) s v nb na = v (λ e. cc) (λ e. cc)
    quiet-Settles blocks s v nb na = v nb na
    quiet-Settles aborts s v nb na = v nb na

    serve-Settles :
        (fuel : ℕ) (uuid : Text) (s : Session) → U uuid → P s.world → Settles Q (serve fuel uuid s)
    unfolding serve
    serve-Settles fuel uuid s u v =
        let whole = on_socket (receive fuel) >> answer uuid in
        elim (Bool-cases (is_open s.socket)) [
          | inl e ↦ rw e (
              quiet-Settles (whole s).0 (whole s).1 (
                bind-Settles Q (λ _. answer uuid) (on_socket (receive fuel)) s
                  (λ _ _. unfold on_socket in v)
                  (λ _ _ _. answer-Settles uuid _ u (unfold on_socket in v))))
          | inr e ↦ rw e (λ _ _. v)
        ]

    serving-eq-ok : (r : Outcome (Unit {0})) → status_of r ≡ serving → r ≡ ok tt
    unfolding status_of
    serving-eq-ok r e = ground arith

    stop-ne-serving : (r : Outcome (Unit {0})) → status_of_stop r ≢ serving
    unfolding status_of_stop
    stop-ne-serving r e = ground arith

    after_ok :
        {S : Type 0} (R : S → Type 0) (r : Outcome (Unit {0})) (s : S)
        → Settles R (r, s)
        → r ≡ ok tt
        → R s
    after_ok R r s v e = v (λ b. cc) (λ a. cc)

    step-keeps :
        (e : Event) (w : World) → EventIs U Good e → P w → (step e w).0 ≡ serving → P (step e w).1
    unfolding step
    step-keeps (connection fuel uuid c) w g v eq =
        let s : Session = record { socket = c; world = w } in
        after_ok Q (serve fuel uuid s).0 (serve fuel uuid s).1 (serve-Settles fuel uuid s g v)
          (serving-eq-ok _ eq)
    step-keeps accept_failed w g v eq = v
    step-keeps tick w g v eq = parts.swept w v (serving-eq-ok (sweep w).0 eq)
    step-keeps signal w g v eq = absurd (stop-ne-serving (stop w).0 eq)
    step-keeps (children f) w g v eq = parts.moved f w g v

    -- A run that goes on serving.
    pub run-keeps :
        (es : List Event) (w : World)
        → All (EventIs U Good) es
        → P w
        → (run es w).0 ≡ serving
        → P (run es w).1
    run-keeps [] w g v eq = unfold run in v
    run-keeps (e ∷ es) w g v eq =
        let on = run_ended e es w eq in
        let next = run_next e es w on in
        subst (λ r. P r.1) (sym next)
          (run-keeps es (step e w).1 g.1 (step-keeps e w g.0 v on)
            (subst (λ r. r.0 ≡ serving) next eq))
