-- ===== src/Client/Decimal.antt =====
-- The `%d` of the numbers that python/wye writes.
use wye.Common.{
  ℕ, zero, suc, ◌+◌, ◌-◌, ◌*◌, ◌/◌, ◌%◌, ◌<◌, ◌≤◌, ◌≡◌, refl, [], ◌∷◌, ◌++◌, arith, ltb,
  if◌then◌else◌, length, length-append,
}
use wye.Text.{Text}
use wye.Text.Search.{Lacks, Lacks-append}

-- The fuel bounds the digits; the number itself is enough of it.
unfoldable pub digits_from : ℕ → ℕ → Text
digits_from zero n = []
digits_from (suc f) n =
    let high = digits_from f (n / 10) in
    if ltb n 10 then (b'0' + n) ∷ [] else high ++ (b'0' + n % 10) ∷ []

unfoldable pub decimal : ℕ → Text
unfolding digits_from
decimal n = digits_from (suc n) n

-- The number that a run of digits stands for.
unfoldable pub value_from : ℕ → Text → ℕ
value_from acc [] = acc
value_from acc (c ∷ s) = value_from (acc * 10 + (c - b'0')) s

value_from-append :
    (acc : ℕ) (s t : Text) → value_from acc (s ++ t) ≡ value_from (value_from acc s) t
unfolding value_from
value_from-append acc [] t = refl
value_from-append acc (c ∷ s) t = value_from-append (acc * 10 + (c - b'0')) s t

value-digits : (f n : ℕ) → n < f → value_from 0 (digits_from f n) ≡ n
unfolding value_from digits_from
value-digits zero n h = absurd (omega arith)
value-digits (suc f) n h = ground (
  arith,
  value-digits f (n / 10),
  value_from-append 0 (digits_from f (n / 10)) ((b'0' + n % 10) ∷ []),
)

-- The digits stand for the number, so the fuel is enough.
pub value-decimal : (n : ℕ) → value_from 0 (decimal n) ≡ n
unfolding decimal
value-decimal n = value-digits (suc n) n (omega arith)

length-digits : (f n : ℕ) → length (digits_from f n) ≤ f
unfolding digits_from
length-digits zero n = omega arith
length-digits (suc f) n =
    ground (
      arith,
      length-digits f (n / 10),
      length-append (digits_from f (n / 10)) ((b'0' + n % 10) ∷ []),
    )

pub length-decimal : (n : ℕ) → length (decimal n) ≤ suc n
unfolding decimal
length-decimal n = length-digits (suc n) n

digits-Lacks : (c f n : ℕ) → c < b'0' → Lacks c (digits_from f n)
unfolding digits_from
digits-Lacks c zero n h = tt
digits-Lacks c (suc f) n h = ground (
  arith,
  digits-Lacks c f (n / 10) h,
  Lacks-append c (digits_from f (n / 10)) ((b'0' + n % 10) ∷ []),
)

-- No byte in front of the digits is among them.
pub decimal-Lacks : (c n : ℕ) → c < b'0' → Lacks c (decimal n)
unfolding decimal
decimal-Lacks c n h = digits-Lacks c (suc n) n h
