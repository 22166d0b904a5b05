-- ===== src/Outcome/Settled.antt =====
-- What holds of the state of a call that has returned or thrown. One that waits for ever or ends
-- the program leaves nothing that a later call could meet.
use wye.Common.{◌≡◌, ◌≢◌, refl}
use wye.Outcome.{Outcome, Fault, Exec, ok, throws, blocks, aborts, continue, ◌>>=◌}

-- A call that returns neither waits for ever nor ends the program.
module _ {A : Type 0} (r : Outcome A) (a : A) where
  pub ok-ne-blocks : r ≡ ok a → r ≢ blocks
  ok-ne-blocks e b = cc

  pub ok-ne-aborts : r ≡ ok a → r ≢ aborts
  ok-ne-aborts e b = cc

module _ {S : Type 0} (P : S → Type 0) where
  abbrev pub Settles : {A : Type 0} → Outcome A × S → Type 0
  Settles (r, s) = r ≢ blocks → r ≢ aborts → P s

  module _ {A B : Type 0} (f : A → Exec S B) where
    continue-Settles :
        (r : Outcome A) (s : S)
        → Settles (r, s)
        → ((a : A) → r ≡ ok a → P s → Settles (f a s))
        → Settles (continue f r s)
    continue-Settles (ok a) s h g nb na = g a refl (h (λ e. cc) (λ e. cc)) nb na
    continue-Settles (throws e) s h g nb na = h (λ e. cc) (λ e. cc)
    continue-Settles blocks s h g nb na = absurd (nb refl)
    continue-Settles aborts s h g nb na = absurd (na refl)

    continue_after-Settles :
        (r : Outcome A) (s : S)
        → ((e : Fault) → r ≢ throws e)
        → ((a : A) → r ≡ ok a → Settles (f a s))
        → Settles (continue f r s)
    continue_after-Settles (ok a) s n g nb na = g a refl nb na
    continue_after-Settles (throws e) s n g nb na = absurd (n e refl)
    continue_after-Settles blocks s n g nb na = absurd (nb refl)
    continue_after-Settles aborts s n g nb na = absurd (na refl)

    -- A sequence whose first call throws nothing settles as the rest does.
    pub bind_after-Settles :
        (m : Exec S A) (s : S)
        → ((e : Fault) → (m s).0 ≢ throws e)
        → ((a : A) → (m s).0 ≡ ok a → Settles (f a (m s).1))
        → Settles ((m >>= f) s)
    bind_after-Settles m s n g = continue_after-Settles (m s).0 (m s).1 n g

    -- A sequence settles as its parts do.
    pub bind-Settles :
        (m : Exec S A) (s : S)
        → Settles (m s)
        → ((a : A) → (m s).0 ≡ ok a → P (m s).1 → Settles (f a (m s).1))
        → Settles ((m >>= f) s)
    bind-Settles m s h g = continue-Settles (m s).0 (m s).1 h g
