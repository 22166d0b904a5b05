-- ===== src/OrderedMap/Laws.antt =====
-- The laws of `std::map`: lookups after each operation, the order of iteration, and that equal
-- contents mean equal iteration.
use Prim.Native.Nat.{Ordering}
use wye.Common.{◌≡◌, refl, true, none, some, [], ◌∷◌, arith, if◌then◌else◌, All}
use wye.Common.{false}
use wye.OrderedMap.{Order, Map, same, find, insert, erase}

module _ {ℓ} {K : Type ℓ} ⦃o : Order K⦄ where
  pub same_self : (a : K) → same a a ≡ true
  unfolding same
  same_self a = ground (arith, o.cmp_self a)

  pub same→eq : (a b : K) → same a b ≡ true → a ≡ b
  unfolding same
  same→eq a b h = ground (arith, o.cmp_eq a b)

  pub same_sym : (a b : K) → same a b ≡ same b a
  unfolding same
  same_sym a b =
      ground (arith, o.cmp_flip a b, o.cmp_flip b a, o.cmp_eq a b, o.cmp_eq b a, o.cmp_self a)

module _ {ℓ κ} {K : Type ℓ} {V : Type κ} ⦃o : Order K⦄ where
  pub find-insert :
      (j k : K) (v : V) (m : Map K V)
      → find j (insert k v m) ≡ (if same j k then some v else find j m)
  unfolding find insert
  find-insert j k v [] = refl
  find-insert j k v ((i, w) ∷ m) =
      ground (arith, find-insert j k v m, o.cmp_eq k i, same→eq j k, same→eq j i, o.cmp_self i)

  pub find-erase :
      (j k : K) (m : Map K V) → find j (erase k m) ≡ (if same j k then none else find j m)
  unfolding find erase
  find-erase j k [] = ground arith
  find-erase j k ((i, w) ∷ m) =
      ground (arith, find-erase j k m, same→eq j k, same→eq k i, same→eq j i, same_self i)

  -- Iteration meets the keys in increasing order.
  abbrev pub IsSorted : Map K V → Type (ℓ ⊔ κ)
  IsSorted [] = Unit
  IsSorted ((k, v) ∷ m) = All (λ e. o.cmp k e.0 ≡ Ordering.lt) m × IsSorted m

  Below-insert :
      (i k : K) (v : V) (m : Map K V)
      → o.cmp i k ≡ Ordering.lt
      → All (λ e. o.cmp i e.0 ≡ Ordering.lt) m
      → All (λ e. o.cmp i e.0 ≡ Ordering.lt) (insert k v m)
  unfolding insert
  Below-insert i k v [] h b = (h, tt)
  Below-insert i k v ((j, w) ∷ m) h b = ground (arith, Below-insert i k v m)

  Below-erase :
      (i k : K) (m : Map K V)
      → All (λ e. o.cmp i e.0 ≡ Ordering.lt) m
      → All (λ e. o.cmp i e.0 ≡ Ordering.lt) (erase k m)
  unfolding erase
  Below-erase i k [] b = tt
  Below-erase i k ((j, w) ∷ m) b = ground (arith, Below-erase i k m)

  Below-trans :
      (i k : K) (m : Map K V)
      → o.cmp i k ≡ Ordering.lt
      → All (λ e. o.cmp k e.0 ≡ Ordering.lt) m
      → All (λ e. o.cmp i e.0 ≡ Ordering.lt) m
  Below-trans i k [] h b = tt
  Below-trans i k ((j, w) ∷ m) h b = (o.cmp_trans i k j h b.0, Below-trans i k m h b.1)

  pub insert-IsSorted : (k : K) (v : V) (m : Map K V) → IsSorted m → IsSorted (insert k v m)
  unfolding insert
  insert-IsSorted k v [] s = (tt, tt)
  insert-IsSorted k v ((j, w) ∷ m) s =
      ground (arith, insert-IsSorted k v m, o.cmp_flip j k, Below-trans k j m, Below-insert j k v m)

  pub erase-IsSorted : (k : K) (m : Map K V) → IsSorted m → IsSorted (erase k m)
  unfolding erase
  erase-IsSorted k [] s = tt
  erase-IsSorted k ((j, w) ∷ m) s = ground (arith, erase-IsSorted k m, Below-erase j k m)

  pub find_below : (k : K) (m : Map K V) → All (λ e. o.cmp k e.0 ≡ Ordering.lt) m → find k m ≡ none
  unfolding find same
  find_below k [] b = refl
  find_below k ((j, w) ∷ m) b = ground (arith, find_below k m)

  heads_agree :
      (a b : K) (v w : V) (m n : Map K V)
      → IsSorted ((a, v) ∷ m)
      → IsSorted ((b, w) ∷ n)
      → ((k : K) → find k ((a, v) ∷ m) ≡ find k ((b, w) ∷ n))
      → (a ≡ b) × (v ≡ w)
  unfolding find same
  heads_agree a b v w m n s t h = ground (
    arith,
    h a,
    h b,
    o.cmp_self a,
    o.cmp_self b,
    o.cmp_flip a b,
    o.cmp_flip b a,
    o.cmp_eq a b,
    Below-trans a b n,
    Below-trans b a m,
    find_below a n,
    find_below b m,
  )

  tails_agree :
      (a b : K) (v w : V) (m n : Map K V)
      → IsSorted ((a, v) ∷ m)
      → IsSorted ((b, w) ∷ n)
      → a ≡ b
      → (k : K) → find k ((a, v) ∷ m) ≡ find k ((b, w) ∷ n)
      → find k m ≡ find k n
  unfolding find
  tails_agree a b v w m n s t e k h =
      ground (arith, same→eq k a, same→eq k b, find_below k m, find_below k n, same_self k)

  -- Two sorted tables with the same lookups are one table: what iteration shows depends on the
  -- contents alone, not on the history of insertions and removals.
  pub map_ext : (m n : Map K V) → IsSorted m → IsSorted n → ((k : K) → find k m ≡ find k n) → m ≡ n
  unfolding find same
  map_ext [] [] s t h = refl
  map_ext [] ((b, w) ∷ n) s t h = ground (arith, h b, o.cmp_self b)
  map_ext ((a, v) ∷ m) [] s t h = ground (arith, h a, o.cmp_self a)
  map_ext ((a, v) ∷ m) ((b, w) ∷ n) s t h =
      let heads = heads_agree a b v w m n s t h in
      let tails = map_ext m n s.1 t.1 (λ k. tails_agree a b v w m n s t heads.0 k (h k)) in
      cc (heads.0, heads.1, tails)

  pub find-hit : (k j : K) (v : V) (m : Map K V) → same k j ≡ true → find k ((j, v) ∷ m) ≡ some v
  unfolding find
  find-hit k j v m h = rw h

  pub find-miss :
      (k j : K) (v : V) (m : Map K V) → same k j ≡ false → find k ((j, v) ∷ m) ≡ find k m
  unfolding find
  find-miss k j v m h = rw h
