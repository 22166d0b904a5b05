-- ===== src/Samples/Sockets.antt =====
-- Sockets that hold one request, and a JSON parser for a handful of texts.
use Prim.Native.Nat.{pred}
use wye.Common.{
  ℕ, zero, suc, ◌<◌, ◌≡◌, ◌≢◌, refl, Bool, true, false, none, some, List, [], ◌∷◌, ◌++◌, arith,
  if◌then◌else◌,
}
use wye.Text.{Text, lit, text_eq}
use wye.Http.{
  Http, Json, Io, done, error, ReadState, drained, message_ready, body_ready, finished, Response,
}
use wye.Samples.Trees.{Node, node, Kids, nil, kid, sample_trees, value}

-- The body is read in `chunks` pieces; on a socket that is `ended` the stream then is finished, and a
-- broken one refuses to write.
pub record Wire : Type 0 where
  pub chunks : ℕ
  pub text : Text
  pub written : List Response
  pub broken : Bool
  pub ended : Bool
  -- how the read of the request's head ends
  pub opening : Io

abbrev pub state_of : Bool → ℕ → ReadState
state_of true zero = finished
state_of false zero = drained
state_of true (suc n) = message_ready
state_of false (suc n) = message_ready

abbrev pub read_chunk : Wire → Io × Wire
read_chunk c = (done, record c { chunks = pred c.chunks })

abbrev pub write_on : Bool → Response → Wire → Io × Wire
write_on true r c = (error (lit "broken pipe"), c)
write_on false r c = (done, record c { written = c.written ++ r ∷ [] })

pub sample_sent :
    (b : Bool) (r : Response) (c : Wire)
    → (write_on b r c).0 ≡ done
    → (write_on b r c).1.written ≡ c.written ++ r ∷ []
sample_sent b r c h = ground arith

pub sample_not_sent :
    (b : Bool) (r : Response) (c : Wire)
    → (write_on b r c).0 ≢ done
    → (write_on b r c).1.written ≡ c.written
sample_not_sent b r c h = ground arith

pub sample_less : (b : Bool) (n : ℕ) → state_of b n ≡ message_ready → pred n < n
sample_less true zero h = absurd (cc)
sample_less false zero h = absurd (cc)
sample_less b (suc n) h = omega arith

pub sample_never : (b : Bool) (n : ℕ) → state_of b n ≡ body_ready → pred n < n
sample_never true zero h = absurd (cc)
sample_never false zero h = absurd (cc)
sample_never true (suc n) h = absurd (cc)
sample_never false (suc n) h = absurd (cc)

instance abbrev pub sample_http : Http
sample_http = record {
  Socket = Wire;
  is_open = λ c. true;
  read_request = λ c. (c.opening, c);
  continue_required = λ c. false;
  write_continue = λ c. (done, c);
  read_state = λ c. state_of c.ended c.chunks;
  read_some = read_chunk;
  read_trailers = read_chunk;
  body = λ c. c.text;
  write_response = λ r c. write_on c.broken r c;
  sent = λ c. c.written;
  sent-read_request = λ c. refl;
  sent-write_continue = λ c. refl;
  sent-read_some = λ c. refl;
  sent-read_trailers = λ c. refl;
  sent-write_response = λ r c. sample_sent c.broken r c;
  sent-write_failed = λ r c. sample_not_sent c.broken r c;
  remaining = λ c. c.chunks;
  remaining-read_some = λ c h _. sample_less c.ended c.chunks h;
  remaining-read_trailers = λ c h _. sample_never c.ended c.chunks h;
}

-- A text is the operation that it names, with the fields that the samples use.
abbrev pub fields : List (Text × Text) → Kids
fields [] = nil
fields ((k, v) ∷ l) = kid k (node v nil) (fields l)

abbrev pub request : List (Text × Text) → Node
request l = node [] (fields l)

abbrev fields_for : Text → List (Text × Text)
fields_for op =
    if text_eq op (lit "create-worker")
    then (lit "model", lit "python")
      ∷ (lit "file", lit "a.py")
      ∷ (lit "job_id", lit "j1")
      ∷ (lit "name", lit "w")
      ∷ []
    else []

instance abbrev pub sample_json : Json
sample_json = record {
  read_json = λ s.
      if text_eq s (lit "?") then none else some (request ((lit "operation", s) ∷ fields_for s));
  write_json = λ t. some (value t);
}

-- A tree with one child.
abbrev pub nested : Text → Node → Node
nested key c = node [] (kid key c nil)
