-- ===== src/Models/Described.antt =====
-- The address lists in the answers of the service, `process::describe` of src/process.C, read back
-- the way `init_process` of src/*_process.C reads those of a request.
use mathlib.Core.Option
use wye.Common.{
  ◌≡◌, refl, sym, ap, ap₂, ◌∙◌, arith, Option, none, some, true, List, [], ◌∷◌, ◌++◌, map,
  append-nil, append_assoc, if◌then◌else◌, is_empty,
}
use wye.OrderedMap.{Map, find, same}
use wye.OrderedMap.Laws.{IsSorted, map_ext, find_below, same→eq}
use wye.OrderedMap.Entries.{Entries}
use wye.Text.{Text}
use wye.Text.Order.{text_order}
use wye.Ptree.{PropertyTree, is_plain}
use wye.Worker.{Address, AddressList}
use wye.Process.{Process}
use wye.Process.Describe.{push_texts}
use wye.Process.Report.{push_addresses, add_outputs, describe}
use wye.Process.Report.Lists.{outputs-describe}
use wye.Models.Outputs.{read_outputs}
use wye.Models.Requested.{addresses, lists, last_child, wanted, requested_outputs}

module _ ⦃t : PropertyTree⦄ where
  open t use {
    Tree, empty, put_value, push_back, children, get_value, get_child, children-empty,
    children-push_back, children-add_child, get_value-put_value,
  }

  abbrev text_child : Text → Text × Tree
  text_child i = ([], put_value i empty)

  abbrev address_child : Address → Text × Tree
  address_child a = ([], push_texts a empty)

  children-push_texts :
      (l : List Text) (acc : Tree) → children (push_texts l acc) ≡ children acc ++ map text_child l
  unfolding push_texts
  children-push_texts [] acc = sym (append-nil (children acc))
  children-push_texts (i ∷ l) acc =
      children-push_texts l (push_back [] (put_value i empty) acc)
      ∙ ap (λ x. x ++ map text_child l) (children-push_back [] (put_value i empty) acc)
      ∙ append_assoc (children acc) (([], put_value i empty) ∷ []) (map text_child l)

  values : (l : List Text) → map (λ e. get_value e.1) (map text_child l) ≡ l
  values [] = refl
  values (i ∷ l) = ap₂ (λ x y. x ∷ y) (get_value-put_value i empty) (values l)

  addresses-push_texts : (l : List Text) → addresses (push_texts l empty) ≡ l
  unfolding addresses
  addresses-push_texts l =
      ap (map (λ e. get_value e.1))
        (children-push_texts l empty ∙ ap (λ x. x ++ map text_child l) children-empty)
      ∙ values l

  children-push_addresses :
      (l : AddressList) (wal : Tree)
      → children (push_addresses l wal) ≡ children wal ++ map address_child l
  unfolding push_addresses
  children-push_addresses [] wal = sym (append-nil (children wal))
  children-push_addresses (a ∷ l) wal =
      children-push_addresses l (push_back [] (push_texts a empty) wal)
      ∙ ap (λ x. x ++ map address_child l) (children-push_back [] (push_texts a empty) wal)
      ∙ append_assoc (children wal) (([], push_texts a empty) ∷ []) (map address_child l)

  all_addresses : (l : AddressList) → map (λ e. addresses e.1) (map address_child l) ≡ l
  all_addresses [] = refl
  all_addresses (a ∷ l) = ap₂ (λ x y. x ∷ y) (addresses-push_texts a) (all_addresses l)

  lists-push_addresses : (l : AddressList) → lists (push_addresses l empty) ≡ l
  unfolding lists
  lists-push_addresses l =
      ap (map (λ e. addresses e.1))
        (children-push_addresses l empty ∙ ap (λ x. x ++ map address_child l) children-empty)
      ∙ all_addresses l

  -- The child under which a description shows the lists of one name.
  unfoldable pub shown_list : Text × AddressList → Text × Tree
  shown_list (name, al) = (name, push_addresses al empty)

  children-add_outputs :
      (m : Map Text AddressList) (outs : Tree)
      → Entries (λ name _. is_plain name ≡ true) m
      → children (add_outputs m outs) ≡ children outs ++ map shown_list m
  unfolding add_outputs shown_list
  children-add_outputs [] outs h = sym (append-nil (children outs))
  children-add_outputs ((name, al) ∷ m) outs h =
      children-add_outputs m _ h.1
      ∙ ap (λ x. x ++ map shown_list m) (children-add_child name (push_addresses al empty) outs h.0)
      ∙ append_assoc (children outs) ((name, push_addresses al empty) ∷ []) (map shown_list m)

  abbrev pub or_else : Option Tree → Option AddressList → Option Tree
  or_else o none = o
  or_else o (some al) = some (push_addresses al empty)

  pub last-shown :
      (name : Text) (m : Map Text AddressList) (o : Option Tree)
      → IsSorted m
      → last_child name (map shown_list m) o ≡ or_else o (find name m)
  unfolding last_child find shown_list
  last-shown name [] o s = refl
  last-shown name ((k, al) ∷ m) o s =
      last-shown name m (if same name k then some (push_addresses al empty) else o) s.1
      ∙ ground (arith, find_below k m s.0, same→eq name k)

  pub lists-or_else : (o : Option AddressList) → Option.map lists (or_else none o) ≡ o
  lists-or_else none = refl
  lists-or_else (some al) = ap some (lists-push_addresses al)

  children-wanted :
      (m : Map Text AddressList)
      → Entries (λ name _. is_plain name ≡ true) m
      → wanted (if is_empty m then none else some (add_outputs m empty)) ≡ map shown_list m
  unfolding wanted
  children-wanted [] h = refl
  children-wanted (e ∷ m) h =
      children-add_outputs (e ∷ m) empty h ∙ ap (λ x. x ++ map shown_list (e ∷ m)) children-empty

  -- The description of a worker, read back as a request, gives the worker's own address lists, when
  -- they are in the order of their names and no name is empty or holds a dot.
  pub read_outputs-describe :
      (q : Process)
      → IsSorted q.outputs
      → Entries (λ name _. is_plain name ≡ true) q.outputs
      → read_outputs (describe q empty) [] ≡ q.outputs
  read_outputs-describe q s h =
      map_ext (read_outputs (describe q empty) []) q.outputs
        (requested_outputs (describe q empty) []).0 s
        λ name.
          (requested_outputs (describe q empty) name).1
          ∙ ap (λ o. Option.map lists (last_child name (wanted o) none)) (outputs-describe q)
          ∙ ap (λ l. Option.map lists (last_child name l none)) (children-wanted q.outputs h)
          ∙ ap (Option.map lists) (last-shown name q.outputs none s)
          ∙ lists-or_else (find name q.outputs)
