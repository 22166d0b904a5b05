-- ===== src/Text/Order.antt =====
-- The order of `std::string::operator<`: bytes from the left, the shorter string first.
use Prim.Native.Nat.{compare, Ordering}
use wye.Common.{ℕ, ◌≡◌, ◌↔◌, refl, List, [], ◌∷◌, arith}
use wye.OrderedMap.{Order}

-- Three-way comparison.
unfoldable pub compare_text : List ℕ → List ℕ → Ordering
compare_text [] [] = Ordering.eq
compare_text [] (y ∷ ys) = Ordering.lt
compare_text (x ∷ xs) [] = Ordering.gt
compare_text (x ∷ xs) (y ∷ ys) = elim (compare x y) [
  | Ordering.lt ↦ Ordering.lt
  | Ordering.eq ↦ compare_text xs ys
  | Ordering.gt ↦ Ordering.gt
]

pub compare_text-eq : (s t : List ℕ) → compare_text s t ≡ Ordering.eq → s ≡ t
unfolding compare_text
compare_text-eq [] [] h = refl
compare_text-eq [] (y ∷ ys) h = ground arith
compare_text-eq (x ∷ xs) [] h = ground arith
compare_text-eq (x ∷ xs) (y ∷ ys) h = ground (arith, compare_text-eq xs ys)

pub compare_text_self : (s : List ℕ) → compare_text s s ≡ Ordering.eq
unfolding compare_text
compare_text_self [] = refl
compare_text_self (x ∷ xs) = ground (arith, compare_text_self xs)

pub compare_text-flip :
    (s t : List ℕ) → (compare_text s t ≡ Ordering.lt) ↔ (compare_text t s ≡ Ordering.gt)
unfolding compare_text
compare_text-flip [] [] = ((λ h. ground arith), (λ h. ground arith))
compare_text-flip [] (y ∷ ys) = ((λ h. refl), (λ h. refl))
compare_text-flip (x ∷ xs) [] = ((λ h. ground arith), (λ h. ground arith))
compare_text-flip (x ∷ xs) (y ∷ ys) =
    ((λ h. ground (arith, compare_text-flip xs ys)), (λ h. ground (arith, compare_text-flip xs ys)))

pub compare_text_trans :
    (s t u : List ℕ)
    → compare_text s t ≡ Ordering.lt
    → compare_text t u ≡ Ordering.lt
    → compare_text s u ≡ Ordering.lt
unfolding compare_text
compare_text_trans [] [] u h k = ground arith
compare_text_trans [] (y ∷ ys) [] h k = ground arith
compare_text_trans [] (y ∷ ys) (z ∷ zs) h k = refl
compare_text_trans (x ∷ xs) [] u h k = ground arith
compare_text_trans (x ∷ xs) (y ∷ ys) [] h k = ground arith
compare_text_trans (x ∷ xs) (y ∷ ys) (z ∷ zs) h k = ground (arith, compare_text_trans xs ys zs)

instance abbrev pub text_order : Order (List ℕ)
text_order = record {
  cmp = compare_text;
  cmp_eq = compare_text-eq;
  cmp_self = compare_text_self;
  cmp_flip = compare_text-flip;
  cmp_trans = compare_text_trans;
}
