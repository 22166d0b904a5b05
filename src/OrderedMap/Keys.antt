-- ===== src/OrderedMap/Keys.antt =====
-- What depends on the keys of a `std::map` alone.
use Prim.Native.Nat.{Ordering}
use wye.Common.{◌≡◌, [], ◌∷◌, arith, All}
use wye.OrderedMap.{Order, Map, keys}
use wye.OrderedMap.Laws.{IsSorted}

module _ {ℓ κ κ'} {K : Type ℓ} {V : Type κ} {W : Type κ'} ⦃o : Order K⦄ where
  below_keys :
      (k : K) (m : Map K V) (n : Map K W)
      → keys n ≡ keys m
      → All (λ e. o.cmp k e.0 ≡ Ordering.lt) m
      → All (λ e. o.cmp k e.0 ≡ Ordering.lt) n
  below_keys k [] [] h b = tt
  below_keys k [] ((j, w) ∷ n) h b = absurd (cc)
  below_keys k ((i, v) ∷ m) [] h b = absurd (cc)
  below_keys k ((i, v) ∷ m) ((j, w) ∷ n) h b = ground (arith, below_keys k m n)

  pub keys-IsSorted : (m : Map K V) (n : Map K W) → keys n ≡ keys m → IsSorted m → IsSorted n
  keys-IsSorted [] [] h s = tt
  keys-IsSorted [] ((j, w) ∷ n) h s = absurd (cc)
  keys-IsSorted ((i, v) ∷ m) [] h s = absurd (cc)
  keys-IsSorted ((i, v) ∷ m) ((j, w) ∷ n) h s = ground (arith, below_keys j m n, keys-IsSorted m n)
