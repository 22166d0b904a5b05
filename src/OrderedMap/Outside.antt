-- ===== src/OrderedMap/Outside.antt =====
-- The entries of a `std::map` that an insertion and a removal leave alone.
use Prim.Native.Nat.{Ordering}
use wye.Common.{◌≡◌, refl, sym, subst, true, false, some, [], ◌∷◌, arith, All, Bool-cases, inl, inr}
use wye.OrderedMap.{Order, Map, same, find, insert, erase}
use wye.OrderedMap.Laws.{IsSorted, IsSorted, same→eq, find_below}
use wye.OrderedMap.Entries.{Entries}
use wye.OrderedMap.Splits.{IsSorted-split, erase-Fresh, Fresh}

module _ {ℓ κ} {K : Type ℓ} {V : Type κ} ⦃o : Order K⦄ where
  pub insert-insert : (k : K) (v w : V) (m : Map K V) → insert k w (insert k v m) ≡ insert k w m
  unfolding insert
  insert-insert k v w [] = ground (arith, o.cmp_self k)
  insert-insert k v w ((j, x) ∷ m) = ground (arith, o.cmp_self k, insert-insert k v w m)

  -- What stands behind the first entry of a sorted table is found in the whole table.
  pub find-later :
      (j k : K) (v w : V) (m : Map K V)
      → All (λ e. o.cmp j e.0 ≡ Ordering.lt) m
      → find k m ≡ some w
      → find k ((j, v) ∷ m) ≡ some w
  unfolding find
  find-later j k v w m b f = elim (Bool-cases (same k j)) [
    | inl hit ↦
        let eq = same→eq k j hit in
        absurd
          (cc (f, find_below k m (subst (λ i. All (λ e. o.cmp i e.0 ≡ Ordering.lt) m) (sym eq) b)))
    | inr miss ↦ rw miss f
  ]

  erase-hit : (k j : K) (v : V) (m : Map K V) → same k j ≡ true → erase k ((j, v) ∷ m) ≡ erase k m
  unfolding erase
  erase-hit k j v m h = rw h refl

  erase-miss :
      (k j : K) (v : V) (m : Map K V) → same k j ≡ false → erase k ((j, v) ∷ m) ≡ (j, v) ∷ erase k m
  unfolding erase
  erase-miss k j v m h = rw h refl

  module _ (P : K → V → Type 0) where
    -- What holds of all entries after an insertion, and of the entry that it replaced, held of all
    -- entries before.
    pub Entries-insert :
        (k : K) (v : V) (m : Map K V)
        → Entries P (insert k v m)
        → ((w : V) → find k m ≡ some w → P k w)
        → Entries P m
    unfolding insert find same
    Entries-insert k v [] h f = tt
    Entries-insert k v ((j, x) ∷ m) h f = go (Entries-insert k v m) (o.cmp k j) refl h
      where
        go :
            (Entries P (insert k v m) → ((w : V) → find k m ≡ some w → P k w) → Entries P m)
            → (c : Ordering) → o.cmp k j ≡ c
            → Entries P (elim c [
              | Ordering.lt ↦ (k, v) ∷ (j, x) ∷ m
              | Ordering.eq ↦ (j, v) ∷ m
              | Ordering.gt ↦ (j, x) ∷ insert k v m
            ])
            → Entries P ((j, x) ∷ m)
        go ih Ordering.lt e h = h.1
        go ih Ordering.eq e h = (subst (λ i. P i x) (o.cmp_eq k j e) (f x (ground arith)), h.1)
        go ih Ordering.gt e h = (h.0, ih h.1 (λ w g. f w (ground arith)))

    pub Entries-erase :
        (k : K) (m : Map K V)
        → IsSorted m
        → Entries P (erase k m)
        → ((w : V) → find k m ≡ some w → P k w)
        → Entries P m
    unfolding erase find
    Entries-erase k [] s h f = tt
    Entries-erase k ((j, x) ∷ m) s h f = elim (Bool-cases (same k j)) [
      | inl hit ↦
          let eq = same→eq k j hit in
          let (_, fresh, _) = IsSorted-split j x [] m s in
          (
            subst (λ i. P i x) eq (f x (rw hit refl)),
            subst (Entries P) (erase-Fresh k m (subst (λ i. Fresh i m) (sym eq) fresh))
                (subst (Entries P) (erase-hit k j x m hit) h),
          )
      | inr miss ↦
          let (hd, tl) = subst (Entries P) (erase-miss k j x m miss) h in
          (hd, Entries-erase k m s.1 tl (λ w g. f w (rw miss g)))
    ]
