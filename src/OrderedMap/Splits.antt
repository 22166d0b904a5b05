-- ===== src/OrderedMap/Splits.antt =====
-- A sorted `std::map` around one of its entries.
use Prim.Native.Nat.{Ordering}
use wye.Common.{◌≡◌, refl, false, some, [], ◌∷◌, ◌++◌, arith, All}
use wye.OrderedMap.{Order, Map, same, find, erase}
use wye.OrderedMap.Laws.{same_self, IsSorted}

lt-same {ℓ} : {K : Type ℓ} ⦃o : Order K⦄ (i k : K) → o.cmp i k ≡ Ordering.lt → same k i ≡ false
unfolding same
lt-same ⦃o⦄ i k h = ground (arith, o.cmp_flip i k)

module _ {ℓ κ} {K : Type ℓ} {V : Type κ} ⦃o : Order K⦄ where
  -- The key stands at none of the entries.
  abbrev pub Fresh : K → Map K V → Type 0
  Fresh k m = All (λ e. same k e.0 ≡ false) m

  below-Fresh : (k : K) (m : Map K V) → All (λ e. o.cmp k e.0 ≡ Ordering.lt) m → Fresh k m
  unfolding same
  below-Fresh k [] b = tt
  below-Fresh k ((j, w) ∷ m) b = (ground arith, below-Fresh k m b.1)

  above-split :
      (i k : K) (pre m : Map K V) (v : V)
      → All (λ e. o.cmp i e.0 ≡ Ordering.lt) (pre ++ (k, v) ∷ m)
      → (o.cmp i k ≡ Ordering.lt) × All (λ e. o.cmp i e.0 ≡ Ordering.lt) (pre ++ m)
  above-split i k [] m v h = h
  above-split i k ((j, w) ∷ pre) m v h =
      let (lt, rest) = above-split i k pre m v h.1 in (lt, (h.0, rest))

  -- In a sorted table an entry's key stands nowhere else, and the rest is sorted.
  pub IsSorted-split :
      (k : K) (v : V) (pre m : Map K V)
      → IsSorted (pre ++ (k, v) ∷ m)
      → Fresh k pre × Fresh k m × IsSorted (pre ++ m)
  IsSorted-split k v [] m s = (tt, below-Fresh k m s.0, s.1)
  IsSorted-split k v ((j, w) ∷ pre) m s =
      let (fp, fm, rest) = IsSorted-split k v pre m s.1 in
      let (lt, above) = above-split j k pre m v s.0 in ((lt-same j k lt, fp), fm, (above, rest))

  pub find-split :
      (k : K) (v : V) (pre m : Map K V) → Fresh k pre → find k (pre ++ (k, v) ∷ m) ≡ some v
  unfolding find
  find-split k v [] m f = ground (arith, same_self k)
  find-split k v ((j, w) ∷ pre) m f = ground (arith, find-split k v pre m f.1)

  pub erase-Fresh : (k : K) (m : Map K V) → Fresh k m → erase k m ≡ m
  unfolding erase
  erase-Fresh k [] f = refl
  erase-Fresh k ((j, w) ∷ m) f = ground (arith, erase-Fresh k m f.1)

  pub erase-split :
      (k : K) (v : V) (pre m : Map K V)
      → Fresh k pre
      → Fresh k m
      → erase k (pre ++ (k, v) ∷ m) ≡ pre ++ m
  unfolding erase
  erase-split k v [] m f g = ground (arith, same_self k, erase-Fresh k m g)
  erase-split k v ((j, w) ∷ pre) m f g = ground (arith, erase-split k v pre m f.1 g)
