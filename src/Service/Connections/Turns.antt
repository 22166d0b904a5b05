-- ===== src/Service/Connections/Turns.antt =====
-- What a turn of one of the connections of src/main.C changes of the others.
use wye.Common.{ℕ, ◌≡◌, ◌≢◌, subst, true, false, ◌==◌, List, arith, inl, inr, Bool-cases}
use wye.Ptree.{PropertyTree}
use wye.Kernel.{Kernel}
use wye.Http.{Http, Json}
use wye.Connection.Steps.{Point, deciding}
use wye.Connection.Steps.Rest.{reaches_manager, has_decided}
use wye.Service.Connections.{Coroutine, Turn, resumes, note, replace}

module _ ⦃h : Http⦄ ⦃k : Kernel⦄ ⦃t : PropertyTree⦄ ⦃j : Json⦄ where
  pub replace_each :
      (Q : ℕ → Coroutine → Type 0) (i : ℕ) (y : Coroutine) (f : ℕ → Coroutine)
      → Q i y
      → ((n : ℕ) → i ≢ n → Q n (f n))
      → (n : ℕ) → Q n (replace i y f n)
  replace_each Q i y f q g n = elim (Bool-cases (n == i)) [
    | inl e ↦ rw e (subst (λ x. Q x y) (same_number e) q)
    | inr e ↦ rw e (g n (other_number e))
  ]
    where
      same_number : (n == i) ≡ true → i ≡ n
      same_number e = ground arith

      other_number : (n == i) ≡ false → i ≢ n
      other_number e h = ground arith

  pub deciding_only : (p : Point) → reaches_manager p ≡ true → p ≡ deciding
  deciding_only p e = ground arith

  pub undecided : (p : Point) → reaches_manager p ≡ true → has_decided p ≢ true
  undecided p e h = ground arith

  pub unnoted : (p : Point) (i : ℕ) (l : List Turn) → reaches_manager p ≡ false → note p i l ≡ l
  unnoted p i l e = ground arith

  pub resumes-apart : (i n : ℕ) → i ≢ n → let x : Turn = resumes i in x ≢ resumes n
  resumes-apart i n other e = other (ground arith)
