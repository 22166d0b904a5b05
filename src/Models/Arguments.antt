-- ===== src/Models/Arguments.antt =====
-- The argument in which src/*_process.C hands an address list to a child, and how the children of
-- python/wye take it apart.
pub mod Sockets
use wye.Common.{
  ℕ, ◌≡◌, refl, sym, ap, ◌∙◌, Option, none, some, List, [], ◌∷◌, ◌++◌, append-nil, append_assoc,
  arith, All, ◌==◌, if◌then◌else◌,
}
use wye.Text.{Text, lit}
use wye.Text.Search.{Lacks}
use wye.Models.Outputs.{append_all, output_text}

cons_before : ℕ → Option (Text × Text) → Option (Text × Text)
cons_before x none = none
cons_before x (some (a, b)) = some (x ∷ a, b)

-- arg.split(c, 1): what stands before the first byte c, and what stands behind it
pub split_first : ℕ → Text → Option (Text × Text)
unfolding cons_before
split_first c [] = none
split_first c (x ∷ s) =
    let rest = cons_before x (split_first c s) in if x == c then some ([], s) else rest

cons_first : ℕ → List Text → List Text
cons_first x [] = (x ∷ []) ∷ []
cons_first x (a ∷ l) = (x ∷ a) ∷ l

-- s.split(c)
pub split_on : ℕ → Text → List Text
unfolding cons_first
split_on c [] = [] ∷ []
split_on c (x ∷ s) = let rest = split_on c s in if x == c then [] ∷ rest else cons_first x rest

pub split_pair : Option (Text × Text) → Option (Text × List Text)
unfolding split_on
split_pair none = none
split_pair (some (name, outs)) = some (name, split_on b',' outs)

-- parse_outputs of python/wye/__init__.py, for one argument: its name and its addresses
pub parse_output : Text → Option (Text × List Text)
unfolding split_pair split_first
parse_output arg = split_pair (split_first b':' arg)

-- The addresses behind the first, each with the comma before it.
commas : List Text → Text
commas [] = []
commas (k ∷ a) = b',' ∷ (k ++ commas a)

append_all-commas : (outs : Text) (a : List Text) → append_all outs (lit ",") a ≡ outs ++ commas a
unfolding append_all commas lit
append_all-commas outs [] = sym (append-nil outs)
append_all-commas outs (k ∷ a) =
    append_all-commas ((outs ++ lit ",") ++ k) a
    ∙ append_assoc (outs ++ lit ",") k (commas a)
    ∙ append_assoc outs (lit ",") (k ++ commas a)

output_text-commas :
    (name k : Text) (a : List Text) → output_text name (k ∷ a) ≡ name ++ (b':' ∷ (k ++ commas a))
unfolding output_text append_all lit
output_text-commas name k a =
    ap (λ s. append_all (s ++ k) (lit ",") a) (append-nil (name ++ lit ":"))
    ∙ append_all-commas ((name ++ lit ":") ++ k) a
    ∙ append_assoc (name ++ lit ":") k (commas a)
    ∙ append_assoc name (lit ":") (k ++ commas a)

pub split_first-Lacks :
    (c : ℕ) (name s : Text) → Lacks c name → split_first c (name ++ c ∷ s) ≡ some (name, s)
unfolding split_first
split_first-Lacks c [] s h = ground arith
split_first-Lacks c (x ∷ name) s h = ground (arith, split_first-Lacks c name s h.1)

-- Splitting at a text that lacks the byte goes on behind it.
split_on-Lacks :
    (c : ℕ) (k s : Text) (a : Text) (l : List Text)
    → Lacks c k
    → split_on c s ≡ a ∷ l
    → split_on c (k ++ s) ≡ (k ++ a) ∷ l
unfolding split_on
split_on-Lacks c [] s a l h e = e
split_on-Lacks c (x ∷ k) s a l h e = ground (arith, split_on-Lacks c k s a l h.1 e)

split_on-commas : (a : List Text) → All (Lacks b',') a → split_on b',' (commas a) ≡ [] ∷ a
unfolding split_on commas
split_on-commas [] h = refl
split_on-commas (k ∷ a) h =
    ap (λ l. [] ∷ l)
      (split_on-Lacks b',' k (commas a) [] a h.0 (split_on-commas a h.1)
        ∙ ap (λ s. s ∷ a) (append-nil k))

-- A child that takes the argument of a non-empty address list apart finds the name and the
-- addresses that the request gave, when the name holds no colon and no address holds a comma.
pub parse-output_text :
    (name k : Text) (a : List Text)
    → Lacks b':' name
    → All (Lacks b',') (k ∷ a)
    → parse_output (output_text name (k ∷ a)) ≡ some (name, k ∷ a)
unfolding parse_output
parse-output_text name k a h g =
    ap parse_output (output_text-commas name k a)
    ∙ ap split_pair (split_first-Lacks b':' name (k ++ commas a) h)
    ∙ ap (λ l. some (name, l))
        (split_on-Lacks b',' k (commas a) [] a g.0 (split_on-commas a g.1)
          ∙ ap (λ s. s ∷ a) (append-nil k))
