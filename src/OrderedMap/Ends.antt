-- ===== src/OrderedMap/Ends.antt =====
-- A `std::map` at the end of its order.
use Prim.Native.Nat.{Ordering}
use wye.Common.{◌≡◌, refl, none, some, [], ◌∷◌, ◌++◌, arith, All}
use wye.OrderedMap.{Order, Map, same, find, insert}

module _ {ℓ κ} {K : Type ℓ} {V : Type κ} ⦃o : Order K⦄ where
  -- All keys of the table are less than this one.
  abbrev pub Above : K → Map K V → Type 0
  Above k m = All (λ e. o.cmp e.0 k ≡ Ordering.lt) m

  pub find-Above : (k : K) (m : Map K V) → Above k m → find k m ≡ none
  unfolding find same
  find-Above k [] a = refl
  find-Above k ((j, w) ∷ m) a = ground (arith, find-Above k m a.1, o.cmp_flip j k)

  pub insert-Above : (k : K) (v : V) (m : Map K V) → Above k m → insert k v m ≡ m ++ (k, v) ∷ []
  unfolding insert
  insert-Above k v [] a = refl
  insert-Above k v ((j, w) ∷ m) a = ground (arith, insert-Above k v m a.1, o.cmp_flip j k)

  pub find-last : (k : K) (v : V) (m : Map K V) → Above k m → find k (m ++ (k, v) ∷ []) ≡ some v
  unfolding find same
  find-last k v [] a = ground (arith, o.cmp_self k)
  find-last k v ((j, w) ∷ m) a = ground (arith, find-last k v m a.1, o.cmp_flip j k)

  pub insert-last :
      (k : K) (v w : V) (m : Map K V) → Above k m → insert k w (m ++ (k, v) ∷ []) ≡ m ++ (k, w) ∷ []
  unfolding insert
  insert-last k v w [] a = ground (arith, o.cmp_self k)
  insert-last k v w ((j, x) ∷ m) a = ground (arith, insert-last k v w m a.1, o.cmp_flip j k)

  pub Above-append :
      (k j : K) (v : V) (m : Map K V)
      → Above k m
      → o.cmp j k ≡ Ordering.lt
      → Above k (m ++ (j, v) ∷ [])
  Above-append k j v [] a h = (h, tt)
  Above-append k j v ((i, w) ∷ m) a h = (a.0, Above-append k j v m a.1 h)

module _ {ℓ κ μ} {K : Type ℓ} {V : Type κ} {W : Type μ} ⦃o : Order K⦄ where
  -- All keys of the first table are less than those of the second.
  abbrev pub AllAbove : Map K V → Map K W → Type 0
  AllAbove d m = All (λ e. Above e.0 d) m

  pub AllAbove-append :
      (k : K) (v : V) (d : Map K V) (m : Map K W)
      → AllAbove d m
      → All (λ e. o.cmp k e.0 ≡ Ordering.lt) m
      → AllAbove (d ++ (k, v) ∷ []) m
  AllAbove-append k v d [] a b = tt
  AllAbove-append k v d ((j, w) ∷ m) a b =
      (Above-append j k v d a.0 b.0, AllAbove-append k v d m a.1 b.1)

module _ {ℓ κ μ} {K : Type ℓ} (V : Type κ) {W : Type μ} ⦃o : Order K⦄ where
  pub AllAbove-nothing : (m : Map K W) → AllAbove {V = V} [] m
  AllAbove-nothing [] = tt
  AllAbove-nothing (e ∷ m) = (tt, AllAbove-nothing m)
