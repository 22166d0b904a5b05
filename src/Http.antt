-- ===== src/Http.antt =====
-- The libraries between a socket and the manager: Boost.Http, whose sockets read requests and write
-- responses, and Boost's JSON parser and printer. They are parameters of the model; the laws on
-- sockets say which calls put a response on the wire.
use wye.Common.{◌≢◌, ℕ, ◌<◌, ◌≡◌, Bool, Option, List, [], ◌∷◌, ◌++◌}
use wye.Text.{Text}
use wye.Ptree.{PropertyTree}

-- boost::http::read_state; `drained` is its `empty`
pub data ReadState : Type 0 where
  drained message_ready body_ready finished : ReadState

-- How an asynchronous call ends: it returns, or it throws a `system_error`, whose code is end of
-- file or another.
pub data Io : Type 0 where
  done eof : Io
  error : Text → Io

pub record Response : Type 0 where
  pub status : ℕ
  pub reason : Text
  pub body : Text

pub record Http : Type 1 where
  -- the socket, with the message that it reads into
  pub Socket : Type 0
  pub is_open : Socket → Bool
  pub read_request : Socket → Io × Socket
  pub continue_required : Socket → Bool
  pub write_continue : Socket → Io × Socket
  pub read_state : Socket → ReadState
  pub read_some : Socket → Io × Socket
  pub read_trailers : Socket → Io × Socket
  pub body : Socket → Text
  pub write_response : Response → Socket → Io × Socket
  -- the responses that were written whole to the peer
  pub sent : Socket → List Response
  pub sent-read_request : (c : Socket) → sent (read_request c).1 ≡ sent c
  pub sent-write_continue : (c : Socket) → sent (write_continue c).1 ≡ sent c
  pub sent-read_some : (c : Socket) → sent (read_some c).1 ≡ sent c
  pub sent-read_trailers : (c : Socket) → sent (read_trailers c).1 ≡ sent c
  pub sent-write_response :
      (r : Response) (c : Socket)
      → (write_response r c).0 ≡ done
      → sent (write_response r c).1 ≡ sent c ++ r ∷ []
  pub sent-write_failed :
      (r : Response) (c : Socket)
      → (write_response r c).0 ≢ done
      → sent (write_response r c).1 ≡ sent c
  -- how much of the request is still to be read; each read that returns makes it less
  pub remaining : Socket → ℕ
  pub remaining-read_some :
      (c : Socket)
      → read_state c ≡ message_ready
      → (read_some c).0 ≡ done
      → remaining (read_some c).1 < remaining c
  pub remaining-read_trailers :
      (c : Socket)
      → read_state c ≡ body_ready
      → (read_trailers c).0 ≡ done
      → remaining (read_trailers c).1 < remaining c

pub record Json ⦃t : PropertyTree⦄ : Type 0 where
  pub read_json : Text → Option t.Tree
  -- `none` is a throw
  pub write_json : t.Tree → Option Text
