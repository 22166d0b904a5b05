-- ===== src/Connection/Replies.antt =====
-- What connection::operator() of src/connection.C answers.
use wye.Common.{ℕ, ◌≡◌, refl, sym, ap, ◌∙◌, [], ◌∷◌, ◌++◌, arith, true, Option, none, some}
use wye.Text.{Text}
use wye.Outcome.{
  Outcome, ok, throws, blocks, aborts, what, invalid_request, runtime_error, other, end_of_file,
}
use wye.Ptree.{PropertyTree}
use wye.Kernel.{Kernel}
use wye.Http.{Http, Json, done, Response}
use wye.Manager.State.{World}
use wye.Manager.{handle}
use wye.Connection.{
  Session, serve, answer, answer_tree, reply_for, respond, on_socket, io, receive, success,
  bad_request, server_error, not_interpreted,
}
use wye.Connection.Reading.{receive-sent}

module _ ⦃h : Http⦄ ⦃k : Kernel⦄ ⦃t : PropertyTree⦄ ⦃j : Json⦄ where
  open h use {Socket, is_open, body, write_response, sent, sent-write_response}
  open j use {read_json, write_json}
  open t use {Tree}

  -- The response to each way in which a request can end; none where nothing is answered.
  abbrev pub response_for : Outcome Tree → Option Response
  response_for (ok pt) = elim (write_json pt) [ none ↦ none | some out ↦ some (success out) ]
  response_for (throws (invalid_request m)) = some (bad_request m)
  response_for (throws e) = some (server_error (what e))
  response_for blocks = none
  response_for aborts = none

  pub reply_for-response :
      (o : Outcome Tree) (r : Response) (s : Session)
      → response_for o ≡ some r
      → reply_for o s ≡ respond r s
  unfolding reply_for
  reply_for-response (ok pt) r s e = ground arith
  reply_for-response (throws (invalid_request m)) r s e = ground arith
  reply_for-response (throws (runtime_error m)) r s e = ground arith
  reply_for-response (throws (other m)) r s e = ground arith
  reply_for-response (throws end_of_file) r s e = ground arith
  reply_for-response blocks r s e = cc
  reply_for-response aborts r s e = cc

  respond_done :
      (r : Response) (s : Session)
      → (write_response r s.socket).0 ≡ done
      → respond r s ≡ (ok tt, record s { socket = (write_response r s.socket).1 })
  unfolding respond on_socket io
  respond_done r s e = ground arith

  -- What is answered to the text of a request, and the state that is left: an unreadable text does
  -- not reach the manager.
  abbrev pub decide_response : Text → Option Tree → World → Option Response × World
  decide_response uuid none w = (some (bad_request not_interpreted), w)
  decide_response uuid (some p) w = let (o, w') = handle uuid p w in (response_for o, w')

  pub answer_unread :
      (uuid : Text) (s : Session)
      → read_json (body s.socket) ≡ none
      → answer uuid s ≡ respond (bad_request not_interpreted) s
  unfolding answer
  answer_unread uuid s e = rw (e, answer)

  pub answer_read :
      (uuid : Text) (s : Session) (p : Tree)
      → read_json (body s.socket) ≡ some p
      → answer uuid s ≡ answer_tree uuid p s
  unfolding answer
  answer_read uuid s p e = rw (e, answer)

  -- The response that is decided is the one that is written.
  pub answer-response :
      (uuid : Text) (s : Session) (r : Response) (w : World)
      → decide_response uuid (read_json (body s.socket)) s.world ≡ (some r, w)
      → answer uuid s ≡ respond r (record s { world = w })
  unfolding answer
  answer-response uuid s r w e = go (read_json (body s.socket)) refl e
    where
      go :
          (o : Option Tree)
          → read_json (body s.socket) ≡ o
          → decide_response uuid o s.world ≡ (some r, w)
          → answer uuid s ≡ respond r (record s { world = w })
      go none f g =
          unread f
          ∙ ap (λ x. respond x s) (first_eq g)
          ∙ ap (λ v. respond r (record s { world = v })) (ap (λ x. x.1) g)
        where
          unread :
              read_json (body s.socket) ≡ none
              → answer uuid s ≡ respond (bad_request not_interpreted) s
          unread f = rw (f, answer)

          first_eq :
              decide_response uuid none s.world ≡ (some r, w) → bad_request not_interpreted ≡ r
          first_eq g = cc (ap (λ x. x.0) g)
      go (some p) f g =
          handled f
          ∙ reply_for-response (handle uuid p s.world).0 r (left_by p) (ap (λ x. x.0) g)
          ∙ ap (λ v. respond r (record s { world = v })) (ap (λ x. x.1) g)
        where
          left_by : Tree → Session
          left_by p = record s { world = (handle uuid p s.world).1 }

          handled :
              read_json (body s.socket) ≡ some p
              → answer uuid s ≡ reply_for (handle uuid p s.world).0 (left_by p)
          handled f = rw (f, answer)

  answer_lem :
      (uuid : Text) (s : Session) (r : Response) (w : World)
      → decide_response uuid (read_json (body s.socket)) s.world ≡ (some r, w)
      → (write_response r s.socket).0 ≡ done
      → answer uuid s ≡ (ok tt, record s { socket = (write_response r s.socket).1; world = w })
  answer_lem uuid s r w e d =
      answer-response uuid s r w e ∙ respond_done r (record s { world = w }) d

  after_receive :
      (fuel : ℕ) (uuid : Text) (s : Session) (c : Socket)
      → is_open s.socket ≡ true
      → receive fuel s.socket ≡ (ok tt, c)
      → (answer uuid (record s { socket = c })).0 ≡ ok tt
      → serve fuel uuid s ≡ answer uuid (record s { socket = c })
  unfolding serve on_socket
  after_receive fuel uuid s c o rc a = rw (o, rc) (ground arith)

  -- A connection whose request is read whole, and whose response can be written, puts exactly one
  -- response on the wire: that the text is not understood, if it is no JSON; else the answer to
  -- what the manager returned or threw, a 200, 400 or 500. The state is the one that the manager
  -- left, and what was not JSON did not reach it.
  pub serve_answers_once :
      (fuel : ℕ) (uuid : Text) (s : Session) (c : Socket) (r : Response) (w : World)
      → is_open s.socket ≡ true
      → receive fuel s.socket ≡ (ok tt, c)
      → decide_response uuid (read_json (body c)) s.world ≡ (some r, w)
      → (write_response r c).0 ≡ done
      → ((serve fuel uuid s).0 ≡ ok tt)
        × ((serve fuel uuid s).1.world ≡ w)
        × (sent (serve fuel uuid s).1.socket ≡ sent s.socket ++ r ∷ [])
  serve_answers_once fuel uuid s c r w o rc e d =
      let answered = answer_lem uuid (record s { socket = c }) r w e d in
      let served = after_receive fuel uuid s c o rc (ap (λ x. x.0) answered) ∙ answered in
      let unanswered : sent c ≡ sent s.socket =
        ap (λ x. sent x.1) (sym rc) ∙ receive-sent fuel s.socket in
      rw served (refl, refl, sent-write_response r c d ∙ ap (λ l. l ++ r ∷ []) unanswered)

  -- Only a refusal of the manager is answered by a 400.
  pub status-response_for :
      (o : Outcome Tree) (r : Response)
      → response_for o ≡ some r
      → r.status ≡ 400
      → (m : Text) × (o ≡ throws (invalid_request m))
  status-response_for (ok pt) r e st = absurd (ground arith)
  status-response_for (throws (invalid_request m)) r e st = (m, refl)
  status-response_for (throws (runtime_error m)) r e st = absurd (ground arith)
  status-response_for (throws (other m)) r e st = absurd (ground arith)
  status-response_for (throws end_of_file) r e st = absurd (ground arith)
  status-response_for blocks r e st = absurd (cc)
  status-response_for aborts r e st = absurd (cc)
