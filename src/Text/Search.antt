-- ===== src/Text/Search.antt =====
-- The searches of `std::string` that the start-up protocol makes.
use wye.Common.{
  ℕ, zero, suc, ◌+◌, ◌^◌, ◌<◌, ◌≡◌, refl, ap, true, false, ◌⊎◌, inl, inr, [], ◌∷◌, ◌++◌, arith,
  ◌==◌, length, take, drop, Bool-cases, All,
}
use wye.Text.{Text, text_eq, text_eq_iff, find_from, npos, to_int, to_size}

-- The text does not hold the byte.
abbrev pub Lacks : ℕ → Text → Type 0
Lacks c = All (λ x. (x == c) ≡ false)

pub Lacks-append : (c : ℕ) (s t : Text) → Lacks c s → Lacks c t → Lacks c (s ++ t)
Lacks-append c [] t h g = g
Lacks-append c (x ∷ s) t h g = (h.0, Lacks-append c s t h.1 g)

take-drop : (n : ℕ) (s : Text) → s ≡ take n s ++ drop n s
take-drop zero s = refl
take-drop (suc n) [] = refl
take-drop (suc n) (x ∷ s) = ap (λ l. x ∷ l) (take-drop n s)

-- A text that passes the test for a prefix is the prefix and what `substr` leaves.
pub prefix_split : (n : ℕ) (s t : Text) → text_eq (take n s) t ≡ true → s ≡ t ++ drop n s
prefix_split n s t h = cc (take-drop n s, (text_eq_iff (take n s) t).0 h)

pub find_from-first :
    (c i : ℕ) (name value : Text)
    → Lacks c name
    → find_from c i (name ++ c ∷ value) ≡ i + length name
unfolding find_from
find_from-first c i [] value h = ground arith
find_from-first c i (x ∷ name) value h = ground (arith, find_from-first c (i + 1) name value)

pub find_from-cases :
    (c i : ℕ) (s : Text)
    → (Lacks c s × (find_from c i s ≡ npos))
      ⊎ ((name : Text) × (value : Text) × (s ≡ name ++ c ∷ value) × Lacks c name)
unfolding find_from
find_from-cases c i [] = inl (tt, refl)
find_from-cases c i (x ∷ s) = elim (Bool-cases (x == c)) [
  | inl hit ↦ inr ([], s, ground arith, tt)
  | inr miss ↦ elim (find_from-cases c (i + 1) s) [
    | inl (lacks, e) ↦ inl ((miss, lacks), rw miss e)
    | inr (name, value, e, lacks) ↦ inr (x ∷ name, value, ap (λ l. x ∷ l) e, (miss, lacks))
  ]
]

-- Below 2 ^ 31 the conversions between `size_t` and `int` keep a position.
pub to_size-to_int : (n : ℕ) → n < 2 ^ 31 → to_size (to_int n) ≡ n
unfolding to_size to_int
to_size-to_int n h = ground arith

pub to_int-small : (n : ℕ) → n < 2 ^ 31 → to_int n ≡ n
unfolding to_int
to_int-small n h = omega arith

pub to_size-small : (n : ℕ) → n < 2 ^ 31 → to_size n ≡ n
unfolding to_size
to_size-small n h = ground arith

pub drop-after : (name value : Text) (c : ℕ) → drop (length name + 1) (name ++ c ∷ value) ≡ value
drop-after [] value c = refl
drop-after (x ∷ name) value c = rw suc_add_one (drop-after name value c)
  where
    suc_add_one : suc (length name) + 1 ≡ suc (length name + 1)
    suc_add_one = omega arith
