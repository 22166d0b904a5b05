-- ===== src/Models/Arguments/Sockets.antt =====
-- parse_outputs of python/wye/__init__.py: the sockets that a child opens for its arguments, each
-- with the addresses that it connects to.
use wye.Common.{
  ◌≡◌, refl, sym, ap, ◌∙◌, Bool, true, false, ◌&&◌, if◌then◌else◌, Option, none, some, List, [],
  ◌∷◌, ◌++◌, map, append_assoc, append-nil, All,
}
use wye.OrderedMap.{Map, find, insert}
use wye.OrderedMap.Laws.{IsSorted}
use wye.OrderedMap.Ends.{
  Above, find-Above, insert-Above, find-last, insert-last, AllAbove, AllAbove-append,
  AllAbove-nothing,
}
use wye.Text.{Text, lit}
use wye.Text.Order.{text_order}
use wye.Text.Search.{Lacks}
use wye.Worker.{Address, AddressList}
use wye.Models.Outputs.{output_text, append_all}
use wye.Models.Commands.{list_args, output_args}
use wye.Models.Arguments.{parse_output, split_first-Lacks, split_on, split_pair, parse-output_text}

-- sockets[name], which is an empty list at first
unfoldable sockets_at : Option (List (List Text)) → List (List Text)
sockets_at none = []
sockets_at (some l) = l

-- for v in outs: skt.connect(v). Whether ZeroMQ takes an address is the parameter; what it does not
-- take is a ZMQError.
unfoldable pub connects_all : (Text → Bool) → List Text → Bool
connects_all connects [] = true
connects_all connects (v ∷ outs) = connects v && connects_all connects outs

-- for arg in args; `none` is an IndexError or a ZMQError. A socket is the list of what it connects
-- to.
unfoldable pub parse_outputs :
    (Text → Bool) → List Text → Map Text (List (List Text)) → Option (Map Text (List (List Text)))
unfolding sockets_at connects_all
parse_outputs connects [] d = some d
parse_outputs connects (arg ∷ args) d = elim (parse_output arg) [
  | none ↦ none
  | some (name, outs) ↦
      (let rest =
          parse_outputs connects args (insert name (sockets_at (find name d) ++ outs ∷ []) d) in
        if connects_all connects outs then rest else none)
]

-- One socket for each address list, which is to connect to its addresses, or to the empty one.
unfoldable pub connections : Address → List Text
connections [] = [] ∷ []
connections (k ∷ a) = k ∷ a

unfoldable pub sockets_of : Map Text AddressList → Map Text (List (List Text))
unfolding connections
sockets_of [] = []
sockets_of ((name, []) ∷ m) = sockets_of m
sockets_of ((name, a ∷ al) ∷ m) = (name, map connections (a ∷ al)) ∷ sockets_of m

parse-connections :
    (name : Text) (a : Address)
    → Lacks b':' name
    → All (Lacks b',') a
    → parse_output (output_text name a) ≡ some (name, connections a)
unfolding connections parse_output split_on output_text append_all lit
parse-connections name [] h g = ap split_pair (split_first-Lacks b':' name [] h)
parse-connections name (k ∷ a) h g = parse-output_text name k a h g

-- The names and the addresses can be taken apart.
abbrev pub AreSeparable : Map Text AddressList → Type 0
AreSeparable = All (λ e. Lacks b':' e.0 × All (All (Lacks b',')) e.1)

abbrev all_of {ℓ} : {A : Type ℓ} → (A → Bool) → List A → Bool
all_of taken [] = true
all_of taken (x ∷ l) = taken x && all_of taken l

abbrev takes_lists : (Text → Bool) → AddressList → Bool
takes_lists taken = all_of (λ a. all_of taken (connections a))

-- ZeroMQ takes each address of the lists, and the empty one where a list is empty.
abbrev pub takes_outputs : (Text → Bool) → Map Text AddressList → Bool
takes_outputs taken = all_of (λ e. takes_lists taken e.1)

connects_all-of : (taken : Text → Bool) (l : List Text) → connects_all taken l ≡ all_of taken l
unfolding connects_all
connects_all-of taken [] = refl
connects_all-of taken (v ∷ l) = ap (λ b. taken v && b) (connects_all-of taken l)

module _ (connects : Text → Bool) where
  parse_step :
      (arg name : Text) (outs : List Text) (args : List Text) (o : Option (List (List Text)))
      (d : Map Text (List (List Text)))
      → parse_output arg ≡ some (name, outs)
      → find name d ≡ o
      → parse_outputs connects (arg ∷ args) d ≡ (
          if all_of connects outs
          then parse_outputs connects args (insert name (sockets_at o ++ outs ∷ []) d)
          else none)
  unfolding parse_outputs
  parse_step arg name outs args o d h g =
      rw (h, parse_outputs)
        (ap (λ b. if b then next (find name d) else none) (connects_all-of connects outs)
          ∙ ap (λ o. if all_of connects outs then next o else none) g)
    where
      next : Option (List (List Text)) → Option (Map Text (List (List Text)))
      next o = parse_outputs connects args (insert name (sockets_at o ++ outs ∷ []) d)

  guarded :
      {A : Type 0} (b c : Bool) (x y z : Option A)
      → x ≡ (if b then y else none)
      → y ≡ (if c then z else none)
      → x ≡ (if b && c then z else none)
  guarded true c x y z h g = h ∙ g
  guarded false c x y z h g = h

  -- The address lists of one name, behind sockets that stand at its end.
  parse-list :
      (name : Text) (al : AddressList) (args : List Text) (l : List (List Text))
      (d : Map Text (List (List Text)))
      → Lacks b':' name
      → All (All (Lacks b',')) al
      → Above name d
      → parse_outputs connects (list_args name al ++ args) (d ++ (name, l) ∷ []) ≡ (
          if takes_lists connects al
          then parse_outputs connects args (d ++ (name, l ++ map connections al) ∷ [])
          else none)
  unfolding list_args sockets_at
  parse-list name [] args l d h g a =
      ap (λ x. parse_outputs connects args (d ++ (name, x) ∷ [])) (sym (append-nil l))
  parse-list name (x ∷ al) args l d h g a =
      guarded (all_of connects (connections x)) (takes_lists connects al) _ _ _
        (parse_step (output_text name x) name (connections x) (list_args name al ++ args) (some l)
            (d ++ (name, l) ∷ []) (parse-connections name x h g.0) (find-last name l d a)
          ∙ ap
              (λ e.
                if all_of connects (connections x)
                then parse_outputs connects (list_args name al ++ args) e
                else none)
              (insert-last name l (l ++ connections x ∷ []) d a))
        (parse-list name al args (l ++ connections x ∷ []) d h g.1 a
          ∙ ap
              (λ y.
                if takes_lists connects al
                then parse_outputs connects args (d ++ (name, y) ∷ [])
                else none)
              (append_assoc l (connections x ∷ []) (map connections al)))

  parse-first :
      (name : Text) (x : Address) (al : AddressList) (args : List Text)
      (d : Map Text (List (List Text)))
      → Lacks b':' name
      → All (All (Lacks b',')) (x ∷ al)
      → Above name d
      → parse_outputs connects (list_args name (x ∷ al) ++ args) d ≡ (
          if takes_lists connects (x ∷ al)
          then parse_outputs connects args (d ++ (name, map connections (x ∷ al)) ∷ [])
          else none)
  unfolding list_args sockets_at
  parse-first name x al args d h g a =
      guarded (all_of connects (connections x)) (takes_lists connects al) _ _ _
        (parse_step (output_text name x) name (connections x) (list_args name al ++ args) none d
            (parse-connections name x h g.0) (find-Above name d a)
          ∙ ap
              (λ e.
                if all_of connects (connections x)
                then parse_outputs connects (list_args name al ++ args) e
                else none)
              (insert-Above name (connections x ∷ []) d a))
        (parse-list name al args (connections x ∷ []) d h g.1 a)

  parse-all :
      (m : Map Text AddressList) (d : Map Text (List (List Text)))
      → IsSorted m
      → AreSeparable m
      → AllAbove d m
      → parse_outputs connects (output_args m) d
        ≡ (if takes_outputs connects m then some (d ++ sockets_of m) else none)
  unfolding parse_outputs output_args sockets_of list_args
  parse-all [] d s p a = ap some (sym (append-nil d))
  parse-all ((name, []) ∷ m) d s p a = parse-all m d s.1 p.1 a.1
  parse-all ((name, x ∷ al) ∷ m) d s p a =
      guarded (takes_lists connects (x ∷ al)) (takes_outputs connects m) _ _ _
        (parse-first name x al (output_args m) d p.0.0 p.0.1 a.0)
        (parse-all m (d ++ (name, map connections (x ∷ al)) ∷ []) s.1 p.1
            (AllAbove-append name (map connections (x ∷ al)) d m a.1 s.0)
          ∙ ap (λ y. if takes_outputs connects m then some y else none)
              (append_assoc d ((name, map connections (x ∷ al)) ∷ []) (sockets_of m)))

  -- A child that takes its arguments apart opens, under the name of each output that has address
  -- lists, one socket for each list in their order, connected to the addresses of the list, when
  -- ZeroMQ takes each of them and, if a list has none, the empty address; else it raises an
  -- exception. The table of outputs is sorted, no name holds a colon, and no address holds a comma.
  pub parse_outputs-output_args :
      (m : Map Text AddressList)
      → IsSorted m
      → AreSeparable m
      → parse_outputs connects (output_args m) []
        ≡ (if takes_outputs connects m then some (sockets_of m) else none)
  parse_outputs-output_args m s p = parse-all m [] s p (AllAbove-nothing (List (List Text)) m)
