-- ===== src/OrderedMap/Entries.antt =====
-- Predicates on the entries of a `std::map`.
use Prim.Native.Nat.{Ordering}
use wye.Common.{
  ◌≡◌, refl, subst, Bool, true, false, some, [], ◌∷◌, arith, All, if◌then◌else◌, Bool-cases, inl,
  inr, sym,
}
use wye.OrderedMap.{Order, Map, same, find, insert, erase}
use wye.OrderedMap.Laws.{same→eq}

module _ {ℓ κ} {K : Type ℓ} {V : Type κ} ⦃o : Order K⦄ (P : K → V → Type 0) where
  abbrev pub Entries : Map K V → Type 0
  Entries m = All (λ e. P e.0 e.1) m

  pub insert-Entries : (k : K) (v : V) (m : Map K V) → P k v → Entries m → Entries (insert k v m)
  unfolding insert
  insert-Entries k v [] p h = (p, tt)
  insert-Entries k v ((j, w) ∷ m) p h = go (insert-Entries k v m p h.1) (o.cmp k j) refl
    where
      go :
          Entries (insert k v m)
          → (c : Ordering) → o.cmp k j ≡ c
          → Entries (elim c [
            | Ordering.lt ↦ (k, v) ∷ (j, w) ∷ m
            | Ordering.eq ↦ (j, v) ∷ m
            | Ordering.gt ↦ (j, w) ∷ insert k v m
          ])
      go ih Ordering.lt e = (p, h)
      go ih Ordering.eq e = (subst (λ x. P x v) (o.cmp_eq k j e) p, h.1)
      go ih Ordering.gt e = (h.0, ih)

  pub erase-Entries : (k : K) (m : Map K V) → Entries m → Entries (erase k m)
  unfolding erase
  erase-Entries k [] h = tt
  erase-Entries k ((j, w) ∷ m) h = go (same k j) (erase-Entries k m h.1)
    where
      go : (b : Bool) → Entries (erase k m) → Entries (if b then erase k m else (j, w) ∷ erase k m)
      go true ih = ih
      go false ih = (h.0, ih)

  pub find-Entries : (k : K) (v : V) (m : Map K V) → Entries m → find k m ≡ some v → P k v
  unfolding find
  find-Entries k v [] h e = absurd (cc)
  find-Entries k v ((j, w) ∷ m) h e = elim (Bool-cases (same k j)) [
    | inl hit ↦
        let eq : w ≡ v = ground arith in
        subst (λ x. P x v) (sym (same→eq k j hit)) (subst (P j) eq h.0)
    | inr miss ↦ find-Entries k v m h.1 (ground arith)
  ]
