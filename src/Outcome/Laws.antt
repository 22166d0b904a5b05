-- ===== src/Outcome/Laws.antt =====
-- Inversion of a sequence of calls, for proofs that keep the calls shut.
use wye.Common.{◌≡◌, refl, arith, ◌⊎◌, inl, inr}
use wye.Outcome.{Outcome, Fault, Exec, ok, throws, blocks, aborts, continue, ◌>>=◌}

module _ {S A B : Type 0} (f : A → Exec S B) where
  continue-eq-ok :
      (r : Outcome A) (s : S) (b : B)
      → (continue f r s).0 ≡ ok b
      → (a : A) × (r ≡ ok a) × ((f a s).0 ≡ ok b)
  continue-eq-ok (ok a) s b h = (a, refl, h)
  continue-eq-ok (throws e) s b h = ground arith
  continue-eq-ok blocks s b h = ground arith
  continue-eq-ok aborts s b h = ground arith

  continue-eq-throws :
      (r : Outcome A) (s : S) (e : Fault)
      → (continue f r s).0 ≡ throws e
      → ((r ≡ throws e) × ((continue f r s).1 ≡ s))
        ⊎ ((a : A) × (r ≡ ok a) × ((f a s).0 ≡ throws e) × ((continue f r s).1 ≡ (f a s).1))
  continue-eq-throws (ok a) s e h = inr (a, refl, h, refl)
  continue-eq-throws (throws e') s e h = inl (ground arith, refl)
  continue-eq-throws blocks s e h = ground arith
  continue-eq-throws aborts s e h = ground arith

  -- A sequence that returns is one whose first call returned.
  pub bind-eq-ok :
      (m : Exec S A) (s : S) (b : B)
      → ((m >>= f) s).0 ≡ ok b
      → (a : A) × ((m s).0 ≡ ok a) × ((f a (m s).1).0 ≡ ok b)
  bind-eq-ok m s b h = continue-eq-ok (m s).0 (m s).1 b h

  -- A sequence throws what its first call throws, or what the rest throws.
  pub bind-eq-throws :
      (m : Exec S A) (s : S) (e : Fault)
      → ((m >>= f) s).0 ≡ throws e
      → (((m s).0 ≡ throws e) × (((m >>= f) s).1 ≡ (m s).1))
        ⊎ ((a : A) × ((m s).0 ≡ ok a)
            × ((f a (m s).1).0 ≡ throws e)
            × (((m >>= f) s).1 ≡ (f a (m s).1).1))
  bind-eq-throws m s e h = continue-eq-throws (m s).0 (m s).1 e h

  continue-keeps :
      (P : S → Type 0) (r : Outcome A) (s : S)
      → P s
      → ((a : A) → r ≡ ok a → P (f a s).1)
      → P (continue f r s).1
  continue-keeps P (ok a) s h g = g a refl
  continue-keeps P (throws e) s h g = h
  continue-keeps P blocks s h g = h
  continue-keeps P aborts s h g = h

  -- A sequence keeps what its parts keep, however it ends.
  pub bind-keeps :
      (P : S → Type 0) (m : Exec S A) (s : S)
      → P (m s).1
      → ((a : A) → (m s).0 ≡ ok a → P (f a (m s).1).1)
      → P ((m >>= f) s).1
  bind-keeps P m s h g = continue-keeps P (m s).0 (m s).1 h g

module _ {S A B : Type 0} where
  pub lift-keeps :
      (P : S → Type 0) (r : Outcome A) (f : A → Exec S B) (s : S)
      → P s
      → ((a : A) → P (f a s).1)
      → P (continue f r s).1
  lift-keeps P r f s h g = bind-keeps f P (λ s. (r, s)) s h (λ a _. g a)
