-- ===== src/Client/Fields.antt =====
-- What the service reads of a request of python/wye.
use mathlib.Core.Option
use wye.Common.{
  ◌≡◌, refl, sym, ap, ◌∙◌, true, false, Option, none, some, List, [], ◌∷◌, ◌++◌, append-nil,
  append_assoc, map, arith, is_empty, if◌then◌else◌, Bool-cases, inl, inr,
}
use wye.OrderedMap.{Map, find, same}
use wye.OrderedMap.Laws.{IsSorted, map_ext, same→eq, same_self}
use wye.Text.{Text, lit, text_eq, text_eq_iff, text_eq_refl}
use wye.Text.Order.{text_order}
use wye.Ptree.{PropertyTree, is_plain, first_child}
use wye.Worker.{AddressList}
use wye.Process.Report.{push_addresses}
use wye.Models.Outputs.{read_outputs}
use wye.Models.Requested.{lists, last_child, wanted, requested_outputs}
use wye.Models.Described.{shown_list, last-shown, lists-or_else}
use wye.Client.Request.{push_fields, push_lists, request_tree}

-- The keys of a table are compared as texts.
same-text : (s t : Text) → same s t ≡ text_eq t s
same-text s t = elim (Bool-cases (same s t)) [
  | inl h ↦ h ∙ sym ((text_eq_iff t s).1 (sym (same→eq s t h)))
  | inr h ↦ elim (Bool-cases (text_eq t s)) [
    | inl g ↦ let eq : t ≡ s = (text_eq_iff t s).0 g in absurd (cc (h, ap (same s) eq, same_self s))
    | inr g ↦ h ∙ sym g
  ]
]

module _ ⦃t : PropertyTree⦄ where
  open t use {
    Tree, empty, put_value, push_back, children, get_value, get_string, get_child, children-empty,
    children-push_back, get_child-first, get_string-child, get_value-put_value,
  }

  abbrev leaf_child : Text × Text → Text × Tree
  leaf_child (k, v) = (k, put_value v empty)

  children-push_fields :
      (m : Map Text Text) (r : Tree) → children (push_fields m r) ≡ children r ++ map leaf_child m
  unfolding push_fields
  children-push_fields [] r = sym (append-nil (children r))
  children-push_fields ((k, v) ∷ m) r =
      children-push_fields m (push_back k (put_value v empty) r)
      ∙ ap (λ x. x ++ map leaf_child m) (children-push_back k (put_value v empty) r)
      ∙ append_assoc (children r) ((k, put_value v empty) ∷ []) (map leaf_child m)

  children-push_lists :
      (m : Map Text AddressList) (r : Tree)
      → children (push_lists m r) ≡ children r ++ map shown_list m
  unfolding push_lists shown_list
  children-push_lists [] r = sym (append-nil (children r))
  children-push_lists ((name, al) ∷ m) r =
      children-push_lists m (push_back name (push_addresses al empty) r)
      ∙ ap (λ x. x ++ map shown_list m) (children-push_back name (push_addresses al empty) r)
      ∙ append_assoc (children r) ((name, push_addresses al empty) ∷ []) (map shown_list m)

  fields_of_empty : (m : Map Text Text) → children (push_fields m empty) ≡ map leaf_child m
  fields_of_empty m = children-push_fields m empty ∙ ap (λ x. x ++ map leaf_child m) children-empty

  -- The child under `outputs`, when there are any.
  abbrev outputs_child : Map Text AddressList → List (Text × Tree)
  outputs_child outs = if is_empty outs then [] else (lit "outputs", push_lists outs empty) ∷ []

  children-request :
      (fields : Map Text Text) (outs : Map Text AddressList)
      → children (request_tree fields outs) ≡ map leaf_child fields ++ outputs_child outs
  unfolding request_tree
  children-request fields [] = fields_of_empty fields ∙ sym (append-nil (map leaf_child fields))
  children-request fields (e ∷ outs) =
      children-push_back (lit "outputs") (push_lists (e ∷ outs) empty) (push_fields fields empty)
      ∙ ap (λ x. x ++ (lit "outputs", push_lists (e ∷ outs) empty) ∷ []) (fields_of_empty fields)

  first-fields :
      (k : Text) (m : Map Text Text) (l : List (Text × Tree))
      → first_child k (map leaf_child m ++ l)
        ≡ elim (find k m) [ none ↦ first_child k l | some v ↦ some (put_value v empty) ]
  unfolding first_child find
  first-fields k [] l = refl
  first-fields k ((j, v) ∷ m) l = ground (arith, first-fields k m l, same-text k j)

  -- What is asked for by a plain name is the dictionary's own entry.
  pub field-request :
      (k : Text) (fields : Map Text Text) (outs : Map Text AddressList)
      → is_plain k ≡ true
      → text_eq (lit "outputs") k ≡ false
      → get_string k (request_tree fields outs) ≡ find k fields
  field-request k fields outs plain ne =
      get_string-child k (request_tree fields outs)
      ∙ ap (Option.map get_value) (
          get_child-first k (request_tree fields outs) plain
          ∙ ap (first_child k) (children-request fields outs)
          ∙ first-fields k fields (outputs_child outs))
      ∙ go (find k fields) outs
    where
      go :
          (o : Option Text) (outs : Map Text AddressList)
          → Option.map get_value (elim o [
            | none ↦ first_child k (outputs_child outs)
            | some v ↦ some (put_value v empty)
          ])
            ≡ o
      go none [] = unfold first_child in refl
      go none (e ∷ outs) = unfold first_child in rw ne refl
      go (some v) outs = ap some (get_value-put_value v empty)

  outputs-request :
      (fields : Map Text Text) (outs : Map Text AddressList)
      → find (lit "outputs") fields ≡ none
      → wanted (get_child (lit "outputs") (request_tree fields outs)) ≡ map shown_list outs
  unfolding wanted
  outputs-request fields outs h =
      ap wanted (
        get_child-first (lit "outputs") (request_tree fields outs) (unfold is_plain lit in refl)
        ∙ ap (first_child (lit "outputs")) (children-request fields outs)
        ∙ first-fields (lit "outputs") fields (outputs_child outs))
      ∙ rw h (go outs)
    where
      go :
          (outs : Map Text AddressList)
          → wanted (first_child (lit "outputs") (outputs_child outs)) ≡ map shown_list outs
      go [] = unfold first_child in refl
      go (e ∷ outs) =
          unfold first_child in
          rw (text_eq_refl (lit "outputs")) (
            children-push_lists (e ∷ outs) empty
            ∙ ap (λ x. x ++ map shown_list (e ∷ outs)) children-empty)

  -- The service takes the lists over as they are.
  pub read_outputs-request :
      (fields : Map Text Text) (outs : Map Text AddressList)
      → IsSorted outs
      → find (lit "outputs") fields ≡ none
      → read_outputs (request_tree fields outs) [] ≡ outs
  read_outputs-request fields outs s h =
      map_ext (read_outputs (request_tree fields outs) []) outs
        (requested_outputs (request_tree fields outs) []).0 s
        λ name.
          (requested_outputs (request_tree fields outs) name).1
          ∙ ap (λ l. Option.map lists (last_child name l none)) (outputs-request fields outs h)
          ∙ ap (Option.map lists) (last-shown name outs none s)
          ∙ lists-or_else (find name outs)
