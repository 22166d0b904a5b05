-- ===== src/Models/Programs.antt =====
-- The Python program that src/lambda_process.C writes.
use wye.Common.{◌≡◌, refl, sym, ap, ◌∙◌, List, [], ◌∷◌, ◌++◌, append-nil, append_assoc}
use wye.OrderedMap.{Map}
use wye.Text.{Text, lit}
use wye.Worker.{AddressList}
use wye.Models.Outputs.{output_text}
use wye.Models.Lambda.{program, quote_list, quote_outputs}
use wye.Models.Commands.{list_args, output_args}

-- A Python string literal.
abbrev pub quoted : Text → Text
quoted a = lit "'" ++ (a ++ lit "'")

-- The elements of a Python list, the first behind `sep` and the others behind commas.
pub elements : Text → List Text → Text
elements sep [] = []
elements sep (a ∷ l) = (sep ++ quoted a) ++ elements (lit ",") l

-- The separator for what follows the elements.
next_sep : Text → List Text → Text
next_sep sep [] = sep
next_sep sep (a ∷ l) = next_sep (lit ",") l

elements-append :
    (sep : Text) (l m : List Text)
    → elements sep (l ++ m) ≡ elements sep l ++ elements (next_sep sep l) m
unfolding elements next_sep
elements-append sep [] m = refl
elements-append sep (a ∷ l) m =
    ap (λ s. (sep ++ quoted a) ++ s) (elements-append (lit ",") l m)
    ∙ sym (append_assoc (sep ++ quoted a) (elements (lit ",") l) _)

quote_list-elements :
    (name : Text) (al : AddressList) (sep buf : Text)
    → quote_list name al sep buf
      ≡ (next_sep sep (list_args name al), buf ++ elements sep (list_args name al))
unfolding quote_list elements next_sep list_args
quote_list-elements name [] sep buf = ap (λ s. (sep, s)) (sym (append-nil buf))
quote_list-elements name (a ∷ al) sep buf =
    quote_list-elements name al (lit ",") (buf ++ (sep ++ quoted (output_text name a)))
    ∙ ap (λ s. (next_sep (lit ",") (list_args name al), s))
        (append_assoc buf (sep ++ quoted (output_text name a))
          (elements (lit ",") (list_args name al)))

quote_outputs-elements :
    (m : Map Text AddressList) (sep buf : Text)
    → quote_outputs m sep buf ≡ buf ++ elements sep (output_args m)
unfolding quote_outputs elements output_args
quote_outputs-elements [] sep buf = sym (append-nil buf)
quote_outputs-elements ((name, al) ∷ m) sep buf =
    ap (λ r. quote_outputs m r.0 r.1) (quote_list-elements name al sep buf)
    ∙ quote_outputs-elements m (next_sep sep (list_args name al))
        (buf ++ elements sep (list_args name al))
    ∙ append_assoc buf (elements sep (list_args name al)) _
    ∙ ap (λ s. buf ++ s) (sym (elements-append sep (list_args name al) (output_args m)))

-- A Python list of string literals.
pub python_list : List Text → Text
python_list l = lit "[" ++ (elements [] l ++ lit "]")

-- The program that a lambda worker runs calls the named function of `wye.func` on the serialised
-- function, as a string literal, and on the list of the arguments that any other class would get on
-- its command line, as string literals with commas between them.
pub program-python_list :
    (call fn : Text) (outputs : Map Text AddressList)
    → program call fn outputs
      ≡ lit "import wye.func; wye.func."
        ++ (call
            ++ (lit "("
                ++ (quoted fn ++ (lit ", " ++ (python_list (output_args outputs) ++ lit ")")))))
unfolding program python_list lit
program-python_list call fn outputs =
    ap (λ s. s ++ lit "])") (quote_outputs-elements outputs [] _) ∙ simp append_assoc
