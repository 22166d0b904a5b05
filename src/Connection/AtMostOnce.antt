-- ===== src/Connection/AtMostOnce.antt =====
-- How many responses connection::operator() of src/connection.C writes, on every path through it.
use wye.Common.{
  ℕ, ◌≡◌, refl, sym, ap, subst, ◌∙◌, ◌⊎◌, inl, inr, [], ◌∷◌, ◌++◌, arith, Option, none, some,
  Bool-cases,
}
use wye.Text.{Text}
use wye.Outcome.{
  Outcome, ok, throws, blocks, aborts, invalid_request, runtime_error, other, end_of_file,
}
use wye.Outcome.Laws.{bind-keeps}
use wye.Ptree.{PropertyTree}
use wye.Kernel.{Kernel}
use wye.Http.{Http, Json, Io, done, eof, error, Response}
use wye.Manager.{handle}
use wye.Connection.{
  Session, serve, answer, answer_tree, reply_for, respond, on_socket, io, receive, bad_request,
  not_interpreted,
}
use wye.Connection.Reading.{receive-sent}
use wye.Connection.Replies.{response_for, reply_for-response, answer_unread, answer_read}

module _ ⦃h : Http⦄ ⦃k : Kernel⦄ ⦃t : PropertyTree⦄ ⦃j : Json⦄ where
  open h use {Socket, is_open, body, write_response, sent, sent-write_response, sent-write_failed}
  open j use {read_json}
  open t use {Tree}

  -- The second socket is the first one with at most one more response on the wire.
  abbrev pub AtMostOnce : Socket → Socket → Type 0
  AtMostOnce c c' = (sent c' ≡ sent c) ⊎ ((r : Response) × (sent c' ≡ sent c ++ r ∷ []))

  respond-AtMostOnce : (r : Response) (s : Session) → AtMostOnce s.socket (respond r s).1.socket
  unfolding respond on_socket io
  respond-AtMostOnce r s = go (write_response r s.socket).0 refl
    where
      go :
          (i : Io)
          → (write_response r s.socket).0 ≡ i
          → AtMostOnce s.socket (write_response r s.socket).1
      go done e = inr (r, sent-write_response r s.socket e)
      go eof e = inl (sent-write_failed r s.socket (λ d. cc))
      go (error m) e = inl (sent-write_failed r s.socket (λ d. cc))

  AtMostOnce-later : {b c d : Socket} → sent c ≡ sent b → AtMostOnce c d → AtMostOnce b d
  AtMostOnce-later e (inl f) = inl (f ∙ e)
  AtMostOnce-later e (inr (r, f)) = inr (r, f ∙ ap (λ l. l ++ r ∷ []) e)

  pub unanswered :
      (o : Outcome Tree) (s : Session) → response_for o ≡ none → (reply_for o s).1.socket ≡ s.socket
  unfolding reply_for
  unanswered (ok pt) s e = ground arith
  unanswered (throws (invalid_request m)) s e = absurd (cc)
  unanswered (throws (runtime_error m)) s e = absurd (cc)
  unanswered (throws (other m)) s e = absurd (cc)
  unanswered (throws end_of_file) s e = absurd (cc)
  unanswered blocks s e = refl
  unanswered aborts s e = refl

  reply_for-AtMostOnce :
      (o : Outcome Tree) (s : Session) → AtMostOnce s.socket (reply_for o s).1.socket
  reply_for-AtMostOnce o s = go (response_for o) refl
    where
      go : (x : Option Response) → response_for o ≡ x → AtMostOnce s.socket (reply_for o s).1.socket
      go none e = inl (ap sent (unanswered o s e))
      go (some r) e =
          subst (λ x. AtMostOnce s.socket x.1.socket) (sym (reply_for-response o r s e))
            (respond-AtMostOnce r s)

  answer-AtMostOnce : (uuid : Text) (s : Session) → AtMostOnce s.socket (answer uuid s).1.socket
  answer-AtMostOnce uuid s = go (read_json (body s.socket)) refl
    where
      go :
          (o : Option Tree)
          → read_json (body s.socket) ≡ o
          → AtMostOnce s.socket (answer uuid s).1.socket
      go none e =
          subst (λ x. AtMostOnce s.socket x.1.socket) (sym (answer_unread uuid s e))
            (respond-AtMostOnce (bad_request not_interpreted) s)
      go (some p) e =
          subst (λ x. AtMostOnce s.socket x.1.socket) (sym (answer_read uuid s p e))
            (unfold answer_tree in reply_for-AtMostOnce (handle uuid p s.world).0 _)

  pub serve-AtMostOnce :
      (fuel : ℕ) (uuid : Text) (s : Session) → AtMostOnce s.socket (serve fuel uuid s).1.socket
  unfolding serve
  serve-AtMostOnce fuel uuid s = elim (Bool-cases (is_open s.socket)) [
    | inl e ↦ rw e (
        bind-keeps (λ _. answer uuid) (λ s'. AtMostOnce s.socket s'.socket)
          (on_socket (receive fuel)) s (unfold on_socket in inl (receive-sent fuel s.socket))
          (λ _ _.
            unfold on_socket in
            AtMostOnce-later (receive-sent fuel s.socket) (answer-AtMostOnce uuid _)))
    | inr e ↦ rw e (inl refl)
  ]
