-- ===== src/Outcome/Pure.antt =====
-- Sequencing of pure code that may throw.
use wye.Outcome.{Outcome, ok, throws, blocks, aborts}

module _ {A B : Type 0} where
  infixl 10 ◌>>=◌ ◌>>◌
  abbrev pub ◌>>=◌ : Outcome A → (A → Outcome B) → Outcome B
  ok a >>= f = f a
  throws e >>= f = throws e
  blocks >>= f = blocks
  aborts >>= f = aborts

  abbrev pub ◌>>◌ : Outcome A → Outcome B → Outcome B
  m >> n = m >>= λ _. n
