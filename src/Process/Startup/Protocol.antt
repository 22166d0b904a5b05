-- ===== src/Process/Startup/Protocol.antt =====
-- The start-up protocol as a grammar, against the loop's body in process::run_process of
-- src/process.C. The lengths are those below which an `int` holds a position.
use wye.Common.{
  ℕ, zero, suc, ◌⊎◌, ap, ◌+◌, ◌^◌, ◌<◌, ◌≤◌, ◌≡◌, ◌↔◌, refl, ◌∙◌, List, [], ◌∷◌, ◌++◌, arith,
  length, take, drop, length-append, take-append, inl, inr,
}
use wye.OrderedMap.{Map, insert}
use wye.Text.{Text, lit, text_eq, text_eq_iff, substr_from, find_from, npos, to_int}
use wye.Text.Order.{text_order}
use wye.Text.Search.{
  Lacks, find_from-first, find_from-cases, to_size-small, to_int-small, prefix_split, drop-after,
}
use wye.Outcome.{runtime_error}
use wye.Process.Startup.{more, bad, split_input, read_input, read_line}

abbrev pub IsShort : Text → Type 0
IsShort s = length s < 2 ^ 31

-- A line that lets the loop go on, and what it adds to the inputs.
pub data Says : Text → Map Text Text → Map Text Text → Type 0 where
  init : (ins : Map Text Text) → Says (lit "INIT") ins ins
  notice : (text : Text) (ins : Map Text Text) → Says (lit "NOTICE:" ++ text) ins ins
  input :
      (name value : Text) (ins : Map Text Text)
      → Lacks b':' name
      → Says (lit "INPUT:" ++ (name ++ (b':' ∷ value))) ins (insert name value ins)

split_input_lem :
    (n : ℕ) (body : Text) (ins : Map Text Text)
    → n + 1 < 2 ^ 31
    → n + 1 ≤ length body
    → split_input n body ins ≡ more (insert (take n body) (drop (n + 1) body) ins)
unfolding split_input substr_from
split_input_lem n body ins h k =
    ground (arith, to_size-small n, to_int-small (n + 1), to_size-small (n + 1))

length_around :
    (name value : Text) (c : ℕ) → length (name ++ c ∷ value) ≡ length name + 1 + length value
length_around name value c = omega (arith, length-append name (c ∷ value))

pub read_input-found :
    (name value : Text) (ins : Map Text Text)
    → IsShort (name ++ b':' ∷ value)
    → Lacks b':' name
    → read_input (name ++ b':' ∷ value) ins ≡ more (insert name value ins)
unfolding read_input
read_input-found name value ins h lacks =
    rw (position, split_input_lem n body ins small within, take-append, drop-after)
  where
    n : ℕ
    n = length name

    body : Text
    body = name ++ b':' ∷ value

    small : n + 1 < 2 ^ 31
    small = omega (arith, length_around name value b':')

    within : n + 1 ≤ length body
    within = omega (arith, length_around name value b':')

    position : to_int (find_from b':' 0 body) ≡ n
    position =
        rw (find_from-first b':' 0 name value lacks)
          (to_int-small (0 + length name) (omega (arith, small)) ∙ omega arith)

pub read_line-Says :
    {line : Text} {ins ins' : Map Text Text}
    → Says line ins ins'
    → IsShort line
    → read_line line ins ≡ more ins'
unfolding read_line lit text_eq
read_line-Says (init ins) h = refl
read_line-Says (notice text ins) h = refl
read_line-Says (input name value ins lacks) h = read_input-found name value ins (omega arith) lacks

pub read_input-missing :
    (body : Text) (ins : Map Text Text)
    → find_from b':' 0 body ≡ npos
    → read_input body ins
      ≡ bad (runtime_error (lit "Did not interpret process output INPUT:" ++ body))
unfolding read_input split_input to_int
read_input-missing body ins h = rw h

read_input-Says :
    (body : Text) (ins ins' : Map Text Text)
    → IsShort body
    → read_input body ins ≡ more ins'
    → Says (lit "INPUT:" ++ body) ins ins'
read_input-Says body ins ins' h e = elim (find_from-cases b':' 0 body) [
  | inl (lacks, missing) ↦ absurd (cc (read_input-missing body ins missing))
  | inr (name, value, split, lacks) ↦
      let short : IsShort (name ++ b':' ∷ value) = rw split at h in
      let same : ins' ≡ insert name value ins =
        cc (read_input-found name value ins short lacks, ap (λ b. read_input b ins) split) in
      rw (split, same) (input name value ins lacks)
]

-- The ways in which a line lets the loop go on.
read_line-cases :
    (line : Text) (ins ins' : Map Text Text)
    → read_line line ins ≡ more ins'
    → ((line ≡ lit "INIT") × (ins' ≡ ins))
      ⊎ ((line ≡ lit "INPUT:" ++ drop 6 line) × (read_input (drop 6 line) ins ≡ more ins'))
      ⊎ ((line ≡ lit "NOTICE:" ++ drop 7 line) × (ins' ≡ ins))
unfolding read_line
read_line-cases line ins ins' h = ground (
  arith,
  text_eq_iff line (lit "INIT"),
  prefix_split 6 line (lit "INPUT:"),
  prefix_split 7 line (lit "NOTICE:"),
)

pub length-drop-le : (n : ℕ) (s : Text) → length (drop n s) ≤ length s
length-drop-le zero s = omega arith
length-drop-le (suc n) [] = omega arith
length-drop-le (suc n) (x ∷ s) = omega (arith, length-drop-le n s)

-- A line lets the loop go on exactly when it is a word of the grammar.
pub read_line_iff :
    (line : Text) (ins ins' : Map Text Text)
    → IsShort line
    → (read_line line ins ≡ more ins') ↔ Says line ins ins'
read_line_iff line ins ins' short = (to, λ says. read_line-Says says short)
  where
    to : read_line line ins ≡ more ins' → Says line ins ins'
    to h = elim (read_line-cases line ins ins' h) [
      | inl (e, e') ↦ rw (e, e') (init ins)
      | inr (inl (e, r)) ↦
          rw e (read_input-Says (drop 6 line) ins ins' (omega (arith, length-drop-le 6 line)) r)
      | inr (inr (e, e')) ↦ rw (e, e') (notice (drop 7 line) ins)
    ]

-- The lines up to the first `RUNNING`, and the inputs that they announce.
pub data Starts : List Text → Map Text Text → Map Text Text → Type 0 where
  runs : (rest : List Text) (ins : Map Text Text) → Starts (lit "RUNNING" ∷ rest) ins ins
  says :
      {line : Text} {lines : List Text} {ins mid ins' : Map Text Text}
      → Says line ins mid
      → Starts lines mid ins'
      → Starts (line ∷ lines) ins ins'
