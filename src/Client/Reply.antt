-- ===== src/Client/Reply.antt =====
-- What `Worker.implement` of python/wye reads of the reply that process::run_process of
-- src/process.C makes when a child has started.
use Prim.Native.Nat.{Ordering}
use wye.Common.{
  ◌≡◌, refl, sym, ap, subst, ◌∙◌, true, false, none, some, List, [], ◌∷◌, ◌++◌, map, All, arith,
  append-nil, append_assoc, Bool-cases, inl, inr, is_empty, if◌then◌else◌,
}
use wye.OrderedMap.{Map, insert}
use wye.OrderedMap.Laws.{IsSorted}
use wye.OrderedMap.Ends.{insert-Above, AllAbove, AllAbove-append, AllAbove-nothing}
use wye.Text.{Text, lit, text_eq, text_eq_iff}
use wye.Text.Order.{text_order, compare_text, compare_text_self}
use wye.Ptree.{PropertyTree, is_plain, first_child, put_child}
use wye.Ptree.Laws.{
  first_child-snoc, get_string-put_self, get_string-add_child, get_child-add_child_self,
  get_child-put_ne, get_child-empty,
}
use wye.Kernel.{Kernel}
use wye.Process.{Process, startup_reply}
use wye.Process.Describe.{put_all, put_inputs}
use wye.Outcome.{ok, other, or_throw}
use wye.Manager.State.{World}
use wye.Client.Request.{Inputs}
use wye.Client.Deploy.{dictionary, add_inputs, response_id}

module _ {T : Type 0} where
  put_child-missing :
      (k : Text) (f : T → T) (e : T) (l : List (Text × T))
      → first_child k l ≡ none
      → put_child k f e l ≡ l ++ (k, f e) ∷ []
  unfolding put_child first_child
  put_child-missing k f e [] h = refl
  put_child-missing k f e ((j, c) ∷ l) h = ground (arith, put_child-missing k f e l)

text_eq-above : (k j : Text) → compare_text k j ≡ Ordering.lt → text_eq k j ≡ false
text_eq-above k j h = elim (Bool-cases (text_eq k j)) [
  | inl e ↦
      let same : k ≡ j = (text_eq_iff k j).0 e in
      absurd (cc (h, ap (compare_text k) same, compare_text_self k))
  | inr e ↦ e
]

module _ ⦃t : PropertyTree⦄ where
  open t use {
    Tree, empty, put, put_value, add_child, children, get_value, get_child, children-empty,
    children-put, get_value-put_value,
  }

  abbrev leaf : Text × Text → Text × Tree
  leaf (k, v) = (k, put_value v empty)

  no_inputs : (id : Text) → get_child (lit "inputs") (put (lit "id") id empty) ≡ none
  unfolding is_plain lit text_eq
  no_inputs id =
      get_child-put_ne (lit "inputs") (lit "id") id empty refl refl refl
      ∙ get_child-empty (lit "inputs") refl

  abbrev AreMissing : Map Text Text → List (Text × Tree) → Type 0
  AreMissing m l = All (λ e. first_child e.0 l ≡ none) m

  still_missing :
      (k : Text) (c : Tree) (m : Map Text Text) (l : List (Text × Tree))
      → All (λ e. compare_text k e.0 ≡ Ordering.lt) m
      → AreMissing m l
      → AreMissing m (l ++ (k, c) ∷ [])
  still_missing k c [] l b a = tt
  still_missing k c ((j, w) ∷ m) l b a =
      (first_child-snoc j k c l (text_eq-above k j b.0) ∙ a.0, still_missing k c m l b.1 a.1)

  nowhere : (m : Map Text Text) → AreMissing m []
  unfolding first_child
  nowhere [] = tt
  nowhere (e ∷ m) = (refl, nowhere m)

  -- One child for each input, in their order.
  children-put_all :
      (m : Map Text Text) (r : Tree)
      → IsSorted m
      → All (λ e. is_plain e.0 ≡ true) m
      → AreMissing m (children r)
      → children (put_all m r) ≡ children r ++ map leaf m
  unfolding put_all
  children-put_all [] r s p a = sym (append-nil (children r))
  children-put_all ((k, v) ∷ m) r s p a =
      let next : children (put k v r) ≡ children r ++ leaf (k, v) ∷ [] =
        children-put k v r p.0 ∙ put_child-missing k (put_value v) empty (children r) a.0 in
      children-put_all m (put k v r) s.1 p.1 (
        subst (AreMissing m) (sym next)
          (still_missing k (put_value v empty) m (children r) s.0 a.1))
      ∙ ap (λ l. l ++ map leaf m) next
      ∙ append_assoc (children r) (leaf (k, v) ∷ []) (map leaf m)

  -- The tree in which the inputs stand.
  reply_inputs :
      (i : Text × Text) (m : Map Text Text) (id : Text)
      → get_child (lit "inputs") (put_inputs (i ∷ m) (put (lit "id") id empty))
        ≡ some (put_all (i ∷ m) empty)
  unfolding put_inputs is_plain lit text_eq
  reply_inputs i m id =
      get_child-add_child_self (lit "inputs") (put_all (i ∷ m) empty) (put (lit "id") id empty) refl
        (no_inputs id)

module _ ⦃k : Kernel⦄ ⦃t : PropertyTree⦄ where
  open t use {
    Tree, empty, put, put_value, children, get_value, get_string, children-empty,
    get_value-put_value,
  }

  dictionary-leaves :
      (m d : Map Text Text) → IsSorted m → AllAbove d m → dictionary (map leaf m) d ≡ d ++ m
  unfolding dictionary
  dictionary-leaves [] d s a = sym (append-nil d)
  dictionary-leaves ((k, v) ∷ m) d s a =
      ap (λ x. dictionary (map leaf m) (insert k x d)) (get_value-put_value v empty)
      ∙ ap (dictionary (map leaf m)) (insert-Above k v d a.0)
      ∙ dictionary-leaves m (d ++ (k, v) ∷ []) s.1 (AllAbove-append k v d m a.1 s.0)
      ∙ append_assoc d ((k, v) ∷ []) m

  add_reply :
      (m : Map Text Text) (id : Text) (ins : Inputs)
      → IsSorted m
      → All (λ e. is_plain e.0 ≡ true) m
      → add_inputs id (put_inputs m (put (lit "id") id empty)) ins
        ≡ (if is_empty m then ins else insert id m ins)
  unfolding add_inputs put_inputs
  add_reply [] id ins s p =
      ap (λ o. elim o [ none ↦ ins | some c ↦ insert id (dictionary (children c) []) ins ])
        (no_inputs id)
  add_reply (i ∷ m) id ins s p =
      ap (λ o. elim o [ none ↦ ins | some c ↦ insert id (dictionary (children c) []) ins ])
        (reply_inputs i m id)
      ∙ ap (λ d. insert id d ins)
          (ap (λ l. dictionary l [])
              (children-put_all (i ∷ m) empty s p
                  (subst (AreMissing (i ∷ m)) (sym children-empty) (nowhere (i ∷ m)))
                ∙ ap (λ l. l ++ map leaf (i ∷ m)) children-empty)
            ∙ dictionary-leaves (i ∷ m) [] s (AllAbove-nothing Text (i ∷ m)))

  reply_id :
      (m : Map Text Text) (id : Text)
      → get_string (lit "id") (put_inputs m (put (lit "id") id empty)) ≡ some id
  unfolding put_inputs is_plain lit text_eq
  reply_id [] id = get_string-put_self (lit "id") id empty refl
  reply_id (i ∷ m) id =
      get_string-add_child (lit "id") (lit "inputs") (put_all (i ∷ m) empty)
        (put (lit "id") id empty) refl refl refl
      ∙ get_string-put_self (lit "id") id empty refl

  -- The Python package reads of the reply to a `create-worker` what the worker is: its identifier, and
  -- under it the inputs that the child has announced, all of them and no others, or nothing if it
  -- has announced none. The table of the inputs is sorted, and no name is empty or holds a
  -- dot.
  pub announced_inputs_read :
      (q : Process) (ins : Inputs) (w : World)
      → IsSorted q.inputs
      → All (λ e. is_plain e.0 ≡ true) q.inputs
      → (response_id (startup_reply q) w ≡ (ok q.id, w))
        × (add_inputs q.id (startup_reply q) ins
            ≡ (if is_empty q.inputs then ins else insert q.id q.inputs ins))
  unfolding response_id startup_reply
  announced_inputs_read q ins w s p = (
    ap (λ o. (or_throw o (other (lit "KeyError")), w)) (reply_id q.inputs q.id),
    add_reply q.inputs q.id ins s p,
  )
