-- ===== src/Connection/Reading.antt =====
-- How connection::operator() of src/connection.C reads a request.
use wye.Common.{ℕ, zero, suc, ◌<◌, ◌≡◌, refl, arith, inl, inr, ◌⊎◌}
use wye.Outcome.{blocks}
use wye.Http.{Http, ReadState, drained, message_ready, body_ready, finished}
use wye.Connection.{io, io_outcome, read_body, answer_continue, receive}

module _ ⦃h : Http⦄ where
  open h use {
    Socket, read_request, write_continue, read_state, read_some, read_trailers, sent,
    sent-read_request, sent-write_continue, sent-read_some, sent-read_trailers, remaining,
    remaining-read_some, remaining-read_trailers,
  }

  ReadState-cases :
      (c : Socket)
      → (read_state c ≡ drained)
        ⊎ (read_state c ≡ message_ready)
        ⊎ (read_state c ≡ body_ready)
        ⊎ (read_state c ≡ finished)
  ReadState-cases c = go (read_state c)
    where
      go :
          (st : ReadState)
          → (st ≡ drained) ⊎ (st ≡ message_ready) ⊎ (st ≡ body_ready) ⊎ (st ≡ finished)
      go drained = inl refl
      go message_ready = inr (inl refl)
      go body_ready = inr (inr (inl refl))
      go finished = inr (inr (inr refl))

  read_body-sent : (n : ℕ) (c : Socket) → sent (read_body n c).1 ≡ sent c
  unfolding read_body io
  read_body-sent zero c = refl
  read_body-sent (suc n) c = ground (
    arith,
    read_body-sent n (read_some c).1,
    read_body-sent n (read_trailers c).1,
    sent-read_some c,
    sent-read_trailers c,
  )

  -- Nothing is answered while a request is read.
  pub receive-sent : (n : ℕ) (c : Socket) → sent (receive n c).1 ≡ sent c
  unfolding receive answer_continue io
  receive-sent n c = grind (arith, read_body-sent n, sent-read_request, sent-write_continue)

  -- With more fuel than there is left to read, the loop that reads the body waits for ever only on
  -- a socket whose stream is finished, on which the code does nothing, round after round.
  pub read_body-blocks :
      (n : ℕ) (c : Socket)
      → remaining c < n
      → (read_body n c).0 ≡ blocks
      → read_state (read_body n c).1 ≡ finished
  unfolding read_body io io_outcome
  read_body-blocks zero c h b = absurd (omega arith)
  read_body-blocks (suc n) c h b = ground (
    arith,
    read_body-blocks n (read_some c).1,
    read_body-blocks n (read_trailers c).1,
    remaining-read_some c,
    remaining-read_trailers c,
  )
