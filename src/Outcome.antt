-- ===== src/Outcome.antt =====
-- How a call of the service's code ends. A handler mutates its state and may throw, may wait for
-- ever, or may end the whole program by `std::terminate`; what was written before stays written.
pub mod Pure
pub mod Laws
pub mod Settled
use wye.Common.{Option, none, some}
use wye.Text.{Text, lit}

-- src/invalid_request.h, `std::runtime_error`, and every other `std::exception` by its `what()`.
pub data Fault : Type 0 where
  invalid_request : Text → Fault
  runtime_error : Text → Fault
  other : Text → Fault
  -- a `system_error` whose code is `asio::error::eof`
  end_of_file : Fault

-- e.what()
unfoldable pub what : Fault → Text
what (invalid_request m) = m
what (runtime_error m) = m
what (other m) = m
what end_of_file = lit "End of file"

pub data Outcome {ℓ} (A : Type ℓ) : Type ℓ where
  ok : A → Outcome A
  throws : Fault → Outcome A
  blocks aborts : Outcome A

abbrev pub Exec : Type 0 → Type 0 → Type 0
Exec S A = S → Outcome A × S

module _ {S A : Type 0} where
  abbrev pub pure : A → Exec S A
  pure a s = (ok a, s)

  abbrev pub raise : Fault → Exec S A
  raise e s = (throws e, s)

  -- A pure computation that may throw.
  abbrev pub lift : Outcome A → Exec S A
  lift r s = (r, s)

  abbrev pub gets : (S → A) → Exec S A
  gets f s = (ok (f s), s)

abbrev pub modify : {S : Type 0} → (S → S) → Exec S (Unit {0})
modify f s = (ok tt, f s)

module _ {S A B : Type 0} where
  abbrev pub continue : (A → Exec S B) → Outcome A → S → Outcome B × S
  continue f (ok a) s = f a s
  continue f (throws e) s = (throws e, s)
  continue f blocks s = (blocks, s)
  continue f aborts s = (aborts, s)

  infixl 10 ◌>>=◌ ◌>>◌
  abbrev pub ◌>>=◌ : Exec S A → (A → Exec S B) → Exec S B
  ◌>>=◌ m f s = let (r, s') = m s in continue f r s'

  abbrev pub ◌>>◌ : Exec S A → Exec S B → Exec S B
  m >> n = m >>= λ _. n

-- A value that a `catch` clause replaces by another exception when it is missing.
abbrev pub or_throw : {A : Type 0} → Option A → Fault → Outcome A
or_throw none e = throws e
or_throw (some a) e = ok a
