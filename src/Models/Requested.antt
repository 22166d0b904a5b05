-- ===== src/Models/Requested.antt =====
-- The address lists that `init_process` of src/*_process.C takes from a request: `read_outputs`
-- against a description by the name of a list.
use mathlib.Core.Option
use wye.Common.{
  ◌≡◌, refl, sym, ap, ◌∙◌, arith, Option, none, some, List, [], ◌∷◌, ◌++◌, map, append-nil,
  append_assoc, if◌then◌else◌,
}
use wye.OrderedMap.{Map, find, insert, same}
use wye.OrderedMap.Laws.{IsSorted, find-insert, insert-IsSorted}
use wye.Text.{Text, lit}
use wye.Text.Order.{text_order}
use wye.Ptree.{PropertyTree}
use wye.Worker.{Address, AddressList}
use wye.Models.Outputs.{read_address, read_address_list, read_outputs_from, read_outputs}

module _ ⦃t : PropertyTree⦄ where
  open t use {Tree, get_child, get_value, children}

  -- The addresses of one list, and the lists of one name, in the order of the request.
  unfoldable pub addresses : Tree → Address
  addresses j = map (λ e. get_value e.1) (children j)

  unfoldable pub lists : Tree → AddressList
  lists wal = map (λ e. addresses e.1) (children wal)

  -- The last child under a name.
  unfoldable pub last_child : Text → List (Text × Tree) → Option Tree → Option Tree
  last_child name [] o = o
  last_child name ((key, c) ∷ l) o = last_child name l (if same name key then some c else o)

  read_address_lem :
      (l : List (Text × Tree)) (a : Address) → read_address l a ≡ a ++ map (λ e. get_value e.1) l
  unfolding read_address
  read_address_lem [] a = sym (append-nil a)
  read_address_lem ((key, k) ∷ l) a =
      read_address_lem l (a ++ get_value k ∷ [])
      ∙ append_assoc a (get_value k ∷ []) (map (λ e. get_value e.1) l)

  read_address_list_lem :
      (l : List (Text × Tree)) (al : AddressList)
      → read_address_list l al ≡ al ++ map (λ e. addresses e.1) l
  unfolding read_address_list addresses
  read_address_list_lem [] al = sym (append-nil al)
  read_address_list_lem ((key, j) ∷ l) al =
      read_address_list_lem l (al ++ read_address (children j) [] ∷ [])
      ∙ append_assoc al (read_address (children j) [] ∷ []) (map (λ e. addresses e.1) l)
      ∙ ap (λ x. al ++ x ∷ map (λ e. addresses e.1) l) (read_address_lem (children j) [])

  find-read :
      (name : Text) (l : List (Text × Tree)) (m : Map Text AddressList) (o : Option Tree)
      → find name m ≡ Option.map lists o
      → find name (read_outputs_from l m) ≡ Option.map lists (last_child name l o)
  unfolding read_outputs_from last_child lists
  find-read name [] m o h = h
  find-read name ((key, wal) ∷ l) m o h =
      find-read name l (insert key (read_address_list (children wal) []) m)
        (if same name key then some wal else o)
        (find-insert name key (read_address_list (children wal) []) m
          ∙ ground (arith, read_address_list_lem (children wal) []))

  IsSorted-read :
      (l : List (Text × Tree)) (m : Map Text AddressList)
      → IsSorted m
      → IsSorted (read_outputs_from l m)
  unfolding read_outputs_from
  IsSorted-read [] m s = s
  IsSorted-read ((key, wal) ∷ l) m s = IsSorted-read l _ (insert-IsSorted key _ m s)

  -- The children of a request's `outputs`; there are none without it.
  unfoldable pub wanted : Option Tree → List (Text × Tree)
  wanted none = []
  wanted (some os) = children os

  -- The table of address lists that a new worker takes from a request is in the order of the names,
  -- and holds under each name the lists of the last child of `outputs` with that name, each with its
  -- addresses in the request's order, and nothing under any other name.
  pub requested_outputs :
      (p : Tree) (name : Text)
      → IsSorted (read_outputs p [])
        × (find name (read_outputs p [])
            ≡ Option.map lists (last_child name (wanted (get_child (lit "outputs") p)) none))
  unfolding read_outputs wanted
  requested_outputs p name = go (get_child (lit "outputs") p) refl
    where
      go :
          (o : Option Tree)
          → get_child (lit "outputs") p ≡ o
          → IsSorted (read_outputs p [])
            × (find name (read_outputs p []) ≡ Option.map lists (last_child name (wanted o) none))
      go none e = rw (e, read_outputs) (tt, unfold find last_child in refl)
      go (some os) e =
          rw (e, read_outputs)
            (
              IsSorted-read (children os) [] tt,
              find-read name (children os) [] none (unfold find in refl),
            )
