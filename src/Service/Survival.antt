-- ===== src/Service/Survival.antt =====
-- When no event of src/main.C ends the program.
use wye.Common.{
  ℕ, zero, suc, ◌≡◌, ◌≢◌, refl, sym, ap, subst, ◌∙◌, arith, Option, none, some, Bool-cases, inl,
  inr,
}
use wye.OrderedMap.{find}
use wye.OrderedMap.Laws.{IsSorted}
use wye.Text.{Text}
use wye.Text.Order.{text_order}
use wye.Outcome.{
  Outcome, Fault, Exec, ok, throws, blocks, aborts, invalid_request, runtime_error, other,
  end_of_file, continue, ◌>>=◌,
}
use wye.Ptree.{PropertyTree}
use wye.Kernel.{Kernel}
use wye.Http.{Http, Json, Io, done, eof, error, Response}
use wye.Manager.State.{World}
use wye.Manager.{handle}
use wye.Manager.Survival.{handle_survives}
use wye.Manager.Monitor.{sweep, stop}
use wye.Manager.Monitor.Stop.{Apart, stop_reaps_all}
use wye.Manager.Monitor.Sweep.{sweep-end}
use wye.Manager.Monitor.Launched.{AllHaveChild}
use wye.Connection.{
  Session, make_connection, serve, answer, answer_tree, reply_for, respond, on_socket, receive,
  read_body, answer_continue, end_quietly, io, io_outcome,
}
use wye.Connection.Replies.{response_for, reply_for-response, answer_unread, answer_read}
use wye.Service.{
  Event, connection, accept_failed, tick, signal, children, crashed, step, status_of,
  status_of_stop,
}

-- The end of a call that does not end the program: it returns, waits, or throws the end of the
-- stream.
abbrev pub IsQuiet : {A : Type 0} → Outcome A → Type 0
IsQuiet r = (r ≢ aborts) × ((e : Fault) → r ≡ throws e → e ≡ end_of_file)

module _ {S A B : Type 0} (f : A → Exec S B) where
  continue-IsQuiet :
      (r : Outcome A) (s : S)
      → IsQuiet r
      → ((a : A) → r ≡ ok a → IsQuiet (f a s).0)
      → IsQuiet (continue f r s).0
  continue-IsQuiet (ok a) s q g = g a refl
  continue-IsQuiet (throws e) s q g = ((λ h. cc), λ e' h. q.1 e' (ground arith))
  continue-IsQuiet blocks s q g = ((λ h. cc), λ e h. absurd (cc))
  continue-IsQuiet aborts s q g = absurd (q.0 refl)

  bind-IsQuiet :
      (m : Exec S A) (s : S)
      → IsQuiet (m s).0
      → ((a : A) → (m s).0 ≡ ok a → IsQuiet (f a (m s).1).0)
      → IsQuiet ((m >>= f) s).0
  bind-IsQuiet m s q g = continue-IsQuiet (m s).0 (m s).1 q g

module _ ⦃h : Http⦄ ⦃k : Kernel⦄ ⦃t : PropertyTree⦄ ⦃j : Json⦄ where
  open h use {Socket, body, is_open, write_response}
  open t use {Tree}
  open j use {read_json, write_json}

  -- Every answer can be printed.
  abbrev pub Prints : Type 0
  Prints = (p : Tree) → write_json p ≢ none

  -- Whatever is written on the socket, the peer takes it or has ended the stream.
  abbrev pub IsTaken : Socket → Type 0
  IsTaken c = (r : Response) (m : Text) → (write_response r c).0 ≢ error m

  respond-IsQuiet : (r : Response) (s : Session) → IsTaken s.socket → IsQuiet (respond r s).0
  unfolding respond on_socket io io_outcome
  respond-IsQuiet r s n = go (write_response r s.socket).0 refl
    where
      go :
          (i : Io)
          → (write_response r s.socket).0 ≡ i
          → IsQuiet (io_outcome (write_response r s.socket).0)
      go done e = ((λ a. ground arith), λ x y. ground arith)
      go eof e = ((λ a. ground arith), λ x y. ground arith)
      go (error m) e = absurd (n r m e)

  unanswered-blocks : (o : Outcome Tree) → Prints → o ≢ aborts → response_for o ≡ none → o ≡ blocks
  unanswered-blocks (ok pt) p na e = absurd (p pt (ground arith))
  unanswered-blocks (throws (invalid_request m)) p na e = absurd (cc)
  unanswered-blocks (throws (runtime_error m)) p na e = absurd (cc)
  unanswered-blocks (throws (other m)) p na e = absurd (cc)
  unanswered-blocks (throws end_of_file) p na e = absurd (cc)
  unanswered-blocks blocks p na e = refl
  unanswered-blocks aborts p na e = absurd (na refl)

  blocks-IsQuiet : {A : Type 0} (r : Outcome A) → r ≡ blocks → IsQuiet r
  blocks-IsQuiet r e = ((λ a. cc), λ x y. absurd (cc))

  reply_for-IsQuiet :
      (o : Outcome Tree) (s : Session)
      → Prints
      → IsTaken s.socket
      → o ≢ aborts
      → IsQuiet (reply_for o s).0
  reply_for-IsQuiet o s p n na = go (response_for o) refl
    where
      go : (x : Option Response) → response_for o ≡ x → IsQuiet (reply_for o s).0
      go none e =
          blocks-IsQuiet (reply_for o s).0
            (ap (λ x. (reply_for x s).0) (unanswered-blocks o p na e) ∙ (unfold reply_for in refl))
      go (some r) e =
          subst (λ x. IsQuiet x.0) (sym (reply_for-response o r s e)) (respond-IsQuiet r s n)

  -- No child of a worker is lost or shared, each one ends on the signal, and each worker that counts
  -- as running has one.
  pub record IsSafe (w : World) : Type 0 where
    pub sorted : IsSorted w.workers
    pub apart : Apart w.workers w.os
    pub held : AllHaveChild w

  answer-IsQuiet :
      (uuid : Text) (s : Session)
      → Prints
      → IsTaken s.socket
      → IsSafe s.world
      → find uuid s.world.workers ≡ none
      → IsQuiet (answer uuid s).0
  answer-IsQuiet uuid s p n v f = go (read_json (body s.socket)) refl
    where
      go : (o : Option Tree) → read_json (body s.socket) ≡ o → IsQuiet (answer uuid s).0
      go none e = subst (λ x. IsQuiet x.0) (sym (answer_unread uuid s e)) (respond-IsQuiet _ s n)
      go (some q) e =
          subst (λ x. IsQuiet x.0) (sym (answer_read uuid s q e))
            (unfold answer_tree in
              reply_for-IsQuiet (handle uuid q s.world).0 _ p n
                (handle_survives uuid q s.world v.sorted v.apart f))

  read_body-ne-aborts : (n : ℕ) (c : Socket) → (read_body n c).0 ≢ aborts
  unfolding read_body io io_outcome
  read_body-ne-aborts zero c e = cc
  read_body-ne-aborts (suc n) c e = grind (arith, read_body-ne-aborts n)

  receive-ne-aborts : (n : ℕ) (c : Socket) → (receive n c).0 ≢ aborts
  unfolding receive answer_continue io io_outcome
  receive-ne-aborts n c e = grind (arith, read_body-ne-aborts n)

  -- The request of a connection is read whole or its stream ends, the response is taken or the
  -- stream ends, and the identifier that it may get is not in use.
  abbrev pub IsHarmless : Event → World → Type 0
  IsHarmless (connection fuel uuid c) w =
      (find uuid w.workers ≡ none)
      × ((e : Fault) → (receive fuel c).0 ≡ throws e → e ≡ end_of_file)
      × IsTaken (receive fuel c).1
  IsHarmless accept_failed w = Unit
  IsHarmless tick w = Unit
  IsHarmless signal w = Unit
  IsHarmless (children g) w = Unit

  quiet-status : (r : Outcome (Unit {0})) → IsQuiet r → status_of (end_quietly r) ≢ crashed
  unfolding status_of end_quietly
  quiet-status (ok u) q e = cc
  quiet-status (throws (invalid_request m)) q e = absurd (cc (q.1 (invalid_request m) refl))
  quiet-status (throws (runtime_error m)) q e = absurd (cc (q.1 (runtime_error m) refl))
  quiet-status (throws (other m)) q e = absurd (cc (q.1 (other m) refl))
  quiet-status (throws end_of_file) q e = cc
  quiet-status blocks q e = cc
  quiet-status aborts q e = q.0 refl

  serve-survives :
      (fuel : ℕ) (uuid : Text) (s : Session)
      → Prints
      → IsSafe s.world
      → IsHarmless (connection fuel uuid s.socket) s.world
      → status_of (serve fuel uuid s).0 ≢ crashed
  unfolding serve
  serve-survives fuel uuid s p v (f, rd, n) = elim (Bool-cases (is_open s.socket)) [
    | inl e ↦ rw e (
        quiet-status _ (
          bind-IsQuiet (λ _. answer uuid) (on_socket (receive fuel)) s
            (unfold on_socket in (receive-ne-aborts fuel s.socket, rd))
            (λ _ _. unfold on_socket in answer-IsQuiet uuid _ p n same f)))
    | inr e ↦ rw e (λ x. unfold status_of in cc)
  ]
    where
      same : IsSafe (record { workers = s.world.workers; jobs = s.world.jobs; os = s.world.os })
      same = record { sorted = v.sorted; apart = v.apart; held = v.held }

  stopped-status : (r : Outcome (Unit {0})) → r ≡ ok tt → status_of_stop r ≢ crashed
  unfolding status_of_stop
  stopped-status r e x = ground arith

  swept-status : (r : Outcome (Unit {0})) → r ≡ ok tt → status_of r ≢ crashed
  unfolding status_of
  swept-status r e x = ground arith

  -- No event ends the program otherwise than by `exit`, in a state in which the child of each worker
  -- is known to the system, ends on the signal and belongs to that worker only, and each worker that
  -- counts as running has a child. For a connection, its request is read whole or its stream ends,
  -- its response is taken or its stream ends, the answer can be printed, and the identifier that it
  -- may get is not in use.
  pub step_survives :
      (ev : Event) (w : World) → Prints → IsSafe w → IsHarmless ev w → (step ev w).0 ≢ crashed
  unfolding step
  step_survives (connection fuel uuid c) w p v n =
      serve-survives fuel uuid (make_connection c w) p v n
  step_survives accept_failed w p v n = λ e. cc
  step_survives tick w p v n = elim (sweep-end w) [
    | inl (e, _) ↦ swept-status (sweep w).0 e
    | inr (_, lost) ↦ absurd (lost v.held)
  ]
  step_survives signal w p v n = stopped-status (stop w).0 (stop_reaps_all w v.apart).0
  step_survives (children g) w p v n = λ e. cc
