-- ===== src/OrderedMap.antt =====
-- `std::map`: entries in increasing order of their keys, which is the order of iteration.
pub mod Laws
pub mod Splits
pub mod Entries
pub mod Outside
pub mod Keys
pub mod Ends
use Prim.Native.Nat.{Ordering}
use wye.Common.{◌≡◌, ◌↔◌, Bool, true, false, Option, none, some, List, [], ◌∷◌, map, if◌then◌else◌}

-- What `std::map` asks of `std::less` on its keys: a strict total order.
pub record Order {ℓ} (K : Type ℓ) : Type ℓ where
  pub cmp : K → K → Ordering
  pub cmp_eq : (a b : K) → cmp a b ≡ Ordering.eq → a ≡ b
  pub cmp_self : (a : K) → cmp a a ≡ Ordering.eq
  pub cmp_flip : (a b : K) → (cmp a b ≡ Ordering.lt) ↔ (cmp b a ≡ Ordering.gt)
  pub cmp_trans :
      (a b c : K) → cmp a b ≡ Ordering.lt → cmp b c ≡ Ordering.lt → cmp a c ≡ Ordering.lt

abbrev pub Map {ℓ κ} : Type ℓ → Type κ → Type (ℓ ⊔ κ)
Map K V = List (K × V)

-- Neither key is less than the other.
unfoldable pub same {ℓ} : {K : Type ℓ} ⦃o : Order K⦄ → K → K → Bool
same ⦃o⦄ a b = elim (o.cmp a b) [ Ordering.eq ↦ true | _ ↦ false ]

module _ {ℓ κ} {K : Type ℓ} {V : Type κ} ⦃o : Order K⦄ where
  -- m.find(k)
  unfoldable pub find : K → Map K V → Option V
  find k [] = none
  find k ((j, v) ∷ m) = if same k j then some v else find k m

  -- m[k] = v
  unfoldable pub insert : K → V → Map K V → Map K V
  insert k v [] = (k, v) ∷ []
  insert k v ((j, w) ∷ m) = elim (o.cmp k j) [
    | Ordering.lt ↦ (k, v) ∷ (j, w) ∷ m
    | Ordering.eq ↦ (j, v) ∷ m
    | Ordering.gt ↦ (j, w) ∷ insert k v m
  ]

  -- m.erase(k)
  unfoldable pub erase : K → Map K V → Map K V
  erase k [] = []
  erase k ((j, w) ∷ m) = let rest = erase k m in if same k j then rest else (j, w) ∷ rest

  abbrev pub keys : Map K V → List K
  keys m = map (λ e. e.0) m
