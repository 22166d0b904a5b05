-- ===== src/Ptree/Laws.antt =====
-- What `get<std::string>` finds in a tree after each operation that builds one.
use mathlib.Core.Option
use wye.Common.{◌≡◌, sym, ap, ◌∙◌, true, false, none, some, List, [], ◌∷◌, ◌++◌, arith}
use wye.Text.{Text, text_eq, text_eq_iff, text_eq_refl}
use wye.Ptree.{PropertyTree, is_plain, first_child, put_child}

module _ {T : Type 0} where
  pub first_child-snoc :
      (k j : Text) (c : T) (l : List (Text × T))
      → text_eq j k ≡ false
      → first_child k (l ++ (j, c) ∷ []) ≡ first_child k l
  unfolding first_child
  first_child-snoc k j c [] h = ground arith
  first_child-snoc k j c ((i, d) ∷ l) h = ground (arith, first_child-snoc k j c l h)

  first_child-put_self :
      (k : Text) (v : Text) (f : T → T) (e : T) (g : T → Text) (l : List (Text × T))
      → ((c : T) → g (f c) ≡ v)
      → Option.map g (first_child k (put_child k f e l)) ≡ some v
  unfolding first_child put_child
  first_child-put_self k v f e g [] h = ground (arith, text_eq_refl k, h e)
  first_child-put_self k v f e g ((i, d) ∷ l) h =
      ground (arith, first_child-put_self k v f e g l h, h d)

  first_child-put_ne :
      (k j : Text) (f : T → T) (e : T) (l : List (Text × T))
      → text_eq j k ≡ false
      → first_child k (put_child j f e l) ≡ first_child k l
  unfolding first_child put_child
  first_child-put_ne k j f e [] h = ground arith
  first_child-put_ne k j f e ((i, d) ∷ l) h =
      ground
        (arith, first_child-put_ne k j f e l h, text_eq_iff i j, text_eq_iff i k, text_eq_iff j k)

module _ ⦃t : PropertyTree⦄ where
  open t use {
    Tree, empty, get_string, get_child, get_value, children, put, put_value, push_back, add_child,
    children-empty, children-add_child, children-put, get_value-put_value, get_child-first,
    get_string-child,
  }

  get_string-first :
      (k : Text) (p : Tree)
      → is_plain k ≡ true
      → get_string k p ≡ Option.map get_value (first_child k (children p))
  get_string-first k p h = get_string-child k p ∙ ap (Option.map get_value) (get_child-first k p h)

  pub get_string-empty : (k : Text) → is_plain k ≡ true → get_string k empty ≡ none
  unfolding first_child
  get_string-empty k h =
      get_string-first k empty h ∙ ap (λ l. Option.map get_value (first_child k l)) children-empty

  pub get_string-put_self :
      (k v : Text) (p : Tree) → is_plain k ≡ true → get_string k (put k v p) ≡ some v
  get_string-put_self k v p h =
      get_string-first k (put k v p) h
      ∙ ap (λ l. Option.map get_value (first_child k l)) (children-put k v p h)
      ∙ first_child-put_self k v (put_value v) empty get_value (children p)
          (λ c. get_value-put_value v c)

  pub get_string-put_ne :
      (k j v : Text) (p : Tree)
      → is_plain k ≡ true
      → is_plain j ≡ true
      → text_eq j k ≡ false
      → get_string k (put j v p) ≡ get_string k p
  get_string-put_ne k j v p h g ne =
      get_string-first k (put j v p) h
      ∙ ap (λ l. Option.map get_value (first_child k l)) (children-put j v p g)
      ∙ ap (Option.map get_value) (first_child-put_ne k j (put_value v) empty (children p) ne)
      ∙ sym (get_string-first k p h)

  pub get_string-add_child :
      (k j : Text) (c p : Tree)
      → is_plain k ≡ true
      → is_plain j ≡ true
      → text_eq j k ≡ false
      → get_string k (add_child j c p) ≡ get_string k p
  get_string-add_child k j c p h g ne =
      get_string-first k (add_child j c p) h
      ∙ ap (λ l. Option.map get_value (first_child k l)) (children-add_child j c p g)
      ∙ ap (Option.map get_value) (first_child-snoc k j c (children p) ne)
      ∙ sym (get_string-first k p h)

module _ {T : Type 0} where
  first_child-snoc_self :
      (k : Text) (c : T) (l : List (Text × T))
      → first_child k l ≡ none
      → first_child k (l ++ (k, c) ∷ []) ≡ some c
  unfolding first_child
  first_child-snoc_self k c [] h = ground (arith, text_eq_refl k)
  first_child-snoc_self k c ((i, d) ∷ l) h = ground (arith, first_child-snoc_self k c l)

module _ ⦃t : PropertyTree⦄ where
  open t use {
    Tree, empty, get_child, children, put, put_value, add_child, children-empty, children-add_child,
    children-put, get_child-first,
  }

  pub get_child-add_child_self :
      (k : Text) (c p : Tree)
      → is_plain k ≡ true
      → get_child k p ≡ none
      → get_child k (add_child k c p) ≡ some c
  get_child-add_child_self k c p h n =
      get_child-first k (add_child k c p) h
      ∙ ap (first_child k) (children-add_child k c p h)
      ∙ first_child-snoc_self k c (children p) (sym (get_child-first k p h) ∙ n)

  pub get_child-put_ne :
      (k j v : Text) (p : Tree)
      → is_plain k ≡ true
      → is_plain j ≡ true
      → text_eq j k ≡ false
      → get_child k (put j v p) ≡ get_child k p
  get_child-put_ne k j v p h g ne =
      get_child-first k (put j v p) h
      ∙ ap (first_child k) (children-put j v p g)
      ∙ first_child-put_ne k j (put_value v) empty (children p) ne
      ∙ sym (get_child-first k p h)

  pub get_child-empty : (k : Text) → is_plain k ≡ true → get_child k empty ≡ none
  unfolding first_child
  get_child-empty k h = get_child-first k empty h ∙ ap (first_child k) children-empty

  pub get_child-add_child :
      (k j : Text) (c p : Tree)
      → is_plain k ≡ true
      → is_plain j ≡ true
      → text_eq j k ≡ false
      → get_child k (add_child j c p) ≡ get_child k p
  get_child-add_child k j c p h g ne =
      get_child-first k (add_child j c p) h
      ∙ ap (first_child k) (children-add_child j c p g)
      ∙ first_child-snoc k j c (children p) ne
      ∙ sym (get_child-first k p h)
