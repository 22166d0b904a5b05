-- ===== src/Connection/BadRequest.antt =====
-- What a request that connection::operator() of src/connection.C answers by a 400 leaves behind.
use wye.Common.{
  ℕ, ◌≡◌, ◌≢◌, refl, sym, ap, subst, ◌∙◌, List, [], ◌∷◌, ◌++◌, arith, Option, none, some,
  Bool-cases, inl, inr, append-nil,
}
use wye.Text.{Text}
use wye.Outcome.{Outcome}
use wye.Outcome.Laws.{bind-keeps}
use wye.Ptree.{PropertyTree}
use wye.Kernel.{Kernel}
use wye.Http.{Http, Json, Io, done, eof, error, Response}
use wye.Manager.{handle}
use wye.Manager.Errors.{handle_refusal_clean}
use wye.Connection.{
  Session, serve, answer, answer_tree, reply_for, respond, on_socket, io, receive, bad_request,
  not_interpreted,
}
use wye.Connection.Reading.{receive-sent}
use wye.Connection.Replies.{
  response_for, reply_for-response, status-response_for, answer_unread, answer_read,
}
use wye.Connection.AtMostOnce.{unanswered}

append-cancel {ℓ} : {A : Type ℓ} → (l a b : List A) → l ++ a ≡ l ++ b → a ≡ b
append-cancel [] a b e = e
append-cancel (x ∷ l) a b e = append-cancel l a b (ground (arith, e))

module _ ⦃h : Http⦄ ⦃k : Kernel⦄ ⦃t : PropertyTree⦄ ⦃j : Json⦄ where
  open h use {Socket, is_open, body, write_response, sent, sent-write_response, sent-write_failed}
  open j use {read_json}
  open t use {Tree}

  -- If the second session has a 400 more on the wire, it has the state of the first.
  abbrev RefusedUnchanged : Session → Session → Type 0
  RefusedUnchanged s s' =
      (r : Response)
      → sent s'.socket ≡ sent s.socket ++ r ∷ []
      → r.status ≡ 400
      → s'.world ≡ s.world

  silent-RefusedUnchanged :
      (s s' : Session) → sent s'.socket ≡ sent s.socket → RefusedUnchanged s s'
  silent-RefusedUnchanged s s' e r w st = absurd (
      cc (append-cancel (sent s.socket) (r ∷ []) [] (sym w ∙ e ∙ sym (append-nil (sent s.socket)))))

  respond-world : (r : Response) (s : Session) → (respond r s).1.world ≡ s.world
  unfolding respond on_socket
  respond-world r s = refl

  -- What is on the wire is what was to be written.
  respond-wrote :
      (r r' : Response) (s : Session)
      → sent (respond r s).1.socket ≡ sent s.socket ++ r' ∷ []
      → r ≡ r'
  unfolding respond on_socket io
  respond-wrote r r' s e = go (write_response r s.socket).0 refl
    where
      failed : (write_response r s.socket).0 ≢ done → r ≡ r'
      failed ne = absurd (
          cc (
            append-cancel (sent s.socket) (r' ∷ []) []
              (sym e ∙ sent-write_failed r s.socket ne ∙ sym (append-nil (sent s.socket)))))

      go : (i : Io) → (write_response r s.socket).0 ≡ i → r ≡ r'
      go done w = ground (
        arith,
        append-cancel (sent s.socket) (r ∷ []) (r' ∷ [])
            (sym (sent-write_response r s.socket w) ∙ e),
      )
      go eof w = failed (λ d. cc)
      go (error m) w = failed (λ d. cc)

  answer_tree-RefusedUnchanged :
      (uuid : Text) (p : Tree) (s : Session) → RefusedUnchanged s (answer_tree uuid p s).1
  unfolding answer_tree
  answer_tree-RefusedUnchanged uuid p s = go (response_for o) refl
    where
      o : Outcome Tree
      o = (handle uuid p s.world).0

      left_by : Session
      left_by = record s { world = (handle uuid p s.world).1 }

      go : (x : Option Response) → response_for o ≡ x → RefusedUnchanged s (reply_for o left_by).1
      go none e = silent-RefusedUnchanged s _ (ap sent (unanswered o left_by e))
      go (some r) e =
          subst (λ x. RefusedUnchanged s x.1) (sym (reply_for-response o r left_by e))
            (λ r' w st.
              let (m, refusal) =
                status-response_for o r e
                  (ap (λ x. x.status) (respond-wrote r r' left_by w) ∙ st) in
              respond-world r left_by ∙ handle_refusal_clean m uuid p s.world refusal)

  answer-RefusedUnchanged : (uuid : Text) (s : Session) → RefusedUnchanged s (answer uuid s).1
  answer-RefusedUnchanged uuid s = go (read_json (body s.socket)) refl
    where
      go : (o : Option Tree) → read_json (body s.socket) ≡ o → RefusedUnchanged s (answer uuid s).1
      go none e =
          subst (λ x. RefusedUnchanged s x.1) (sym (answer_unread uuid s e))
            (λ r w st. respond-world (bad_request not_interpreted) s)
      go (some p) e =
          subst (λ x. RefusedUnchanged s x.1) (sym (answer_read uuid s p e))
            (answer_tree-RefusedUnchanged uuid p s)

  serve-RefusedUnchanged :
      (fuel : ℕ) (uuid : Text) (s : Session) → RefusedUnchanged s (serve fuel uuid s).1
  unfolding serve on_socket
  serve-RefusedUnchanged fuel uuid s = elim (Bool-cases (is_open s.socket)) [
    | inl e ↦ rw e (
        bind-keeps (λ _. answer uuid) (RefusedUnchanged s) (on_socket (receive fuel)) s
          (λ r w st. refl) (λ _ _. later _ (receive-sent fuel s.socket)))
    | inr e ↦ rw e (λ r w st. refl)
  ]
    where
      later :
          (c : Socket)
          → sent c ≡ sent s.socket
          → RefusedUnchanged s (answer uuid (record s { socket = c })).1
      later c e r w st =
          answer-RefusedUnchanged uuid (record s { socket = c }) r
            (w ∙ ap (λ l. l ++ r ∷ []) (sym e)) st

  -- A connection that has put a response with the status 400 on the wire, whatever its request was,
  -- has left the tables and the operating system as they were.
  pub bad_request_changes_nothing :
      (fuel : ℕ) (uuid : Text) (s : Session) (r : Response)
      → sent (serve fuel uuid s).1.socket ≡ sent s.socket ++ r ∷ []
      → r.status ≡ 400
      → (serve fuel uuid s).1.world ≡ s.world
  bad_request_changes_nothing = serve-RefusedUnchanged
