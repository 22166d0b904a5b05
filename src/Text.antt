-- ===== src/Text.antt =====
-- `std::string` as the service uses it: a list of bytes, with equality, `substr`, `find` and the
-- order of `operator<` by which `std::map` keeps its keys.
pub mod Order
pub mod Search
use Prim.Native.Nat.{compare, Ordering}
use Prim.Native.Char.{code}
use Prim.Native.String.{String}
use native.Mathlib.Decide.{ℕ_discrete}
use wye.Common.{
  ℕ, zero, suc, ◌+◌, ◌-◌, ◌%◌, ◌^◌, ◌≡◌, ◌↔◌, refl, Bool, true, false, Option, none, some, List, [],
  ◌∷◌, ◌&&◌, arith, ltb, ◌==◌, if◌then◌else◌, length, drop,
}

abbrev pub Text : Type 0
Text = List ℕ

-- A string literal of the source, by its bytes; shut, so that proofs keep its name.
unfoldable pub lit : String → Text
lit String.[] = []
lit (String.◌∷◌ c s) = code c ∷ lit s

-- operator==
unfoldable pub text_eq : Text → Text → Bool
text_eq [] [] = true
text_eq [] (y ∷ ys) = false
text_eq (x ∷ xs) [] = false
text_eq (x ∷ xs) (y ∷ ys) = (x == y) && text_eq xs ys

pub text_eq_iff : (s t : Text) → (text_eq s t ≡ true) ↔ (s ≡ t)
unfolding text_eq
text_eq_iff [] [] = ((λ h. refl), (λ h. refl))
text_eq_iff [] (y ∷ ys) = ((λ h. ground arith), (λ h. ground arith))
text_eq_iff (x ∷ xs) [] = ((λ h. ground arith), (λ h. ground arith))
text_eq_iff (x ∷ xs) (y ∷ ys) =
    ((λ h. ground (arith, text_eq_iff xs ys)), (λ h. ground (arith, text_eq_iff xs ys)))

pub text_eq_refl : (s : Text) → text_eq s s ≡ true
text_eq_refl s = (text_eq_iff s s).1 refl

-- `std::string::npos`, on a platform whose `size_t` has 64 bits
abbrev pub npos : ℕ
npos = 2 ^ 64 - 1

-- `s.substr(n)` throws `out_of_range` when `n` is past the end.
unfoldable pub substr_from : ℕ → Text → Option Text
substr_from n s = if ltb (length s) n then none else some (drop n s)

-- The position of the first byte `c`, counted from `i`.
unfoldable pub find_from : ℕ → ℕ → Text → ℕ
find_from c i [] = npos
find_from c i (x ∷ xs) = if x == c then i else find_from c (i + 1) xs

-- Conversion of a `size_t` to `int` keeps the low 32 bits; `int` to `size_t` extends the sign.
unfoldable pub to_int : ℕ → ℕ
to_int n = n % 2 ^ 32

unfoldable pub to_size : ℕ → ℕ
to_size n = if ltb n (2 ^ 31) then n else n + (2 ^ 64 - 2 ^ 32)
