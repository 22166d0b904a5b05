-- ===== src/Samples/Trees.antt =====
-- Property trees as values with a list of children. A path is one key.
use mathlib.Core.Option
use wye.Common.{◌≡◌, refl, ap, List, [], ◌∷◌, ◌++◌}
use wye.Text.{Text, lit}
use wye.Ptree.{PropertyTree, first_child, put_child}

mutual
  pub data Node : Type 0 where
    node : Text → Kids → Node

  pub data Kids : Type 0 where
    nil : Kids
    kid : Text → Node → Kids → Kids

unfoldable pub value : Node → Text
value (node v cs) = v

unfoldable pub to_list : Kids → List (Text × Node)
to_list nil = []
to_list (kid k c cs) = (k, c) ∷ to_list cs

unfoldable pub of_list : List (Text × Node) → Kids
of_list [] = nil
of_list ((k, c) ∷ l) = kid k c (of_list l)

pub to_list-of_list : (l : List (Text × Node)) → to_list (of_list l) ≡ l
unfolding to_list of_list
to_list-of_list [] = refl
to_list-of_list ((k, c) ∷ l) = ap (λ m. (k, c) ∷ m) (to_list-of_list l)

unfoldable pub node_children : Node → List (Text × Node)
unfolding to_list
node_children (node v cs) = to_list cs

pub node_children-empty : node_children (node [] nil) ≡ []
unfolding node_children
node_children-empty = refl

unfoldable pub with_children : Node → List (Text × Node) → Node
unfolding of_list
with_children (node v cs) l = node v (of_list l)

pub node_children-with_children :
    (n : Node) (l : List (Text × Node)) → node_children (with_children n l) ≡ l
unfolding node_children with_children
node_children-with_children (node v cs) l = to_list-of_list l

unfoldable pub set_value : Text → Node → Node
set_value v (node _ cs) = node v cs

pub node_children-set_value :
    (v : Text) (n : Node) → node_children (set_value v n) ≡ node_children n
unfolding node_children set_value
node_children-set_value v (node _ cs) = refl

pub value-set_value : (v : Text) (n : Node) → value (set_value v n) ≡ v
unfolding value set_value
value-set_value v (node _ cs) = refl

unfoldable pub append_child : Text → Node → Node → Node
unfolding node_children with_children
append_child k c n = with_children n (node_children n ++ (k, c) ∷ [])

pub append_child_lem :
    (k : Text) (c n : Node) → node_children (append_child k c n) ≡ node_children n ++ (k, c) ∷ []
unfolding append_child
append_child_lem k c n = node_children-with_children n (node_children n ++ (k, c) ∷ [])

unfoldable pub put_value_at : Text → Text → Node → Node
unfolding node_children with_children set_value put_child
put_value_at k v n = with_children n (put_child k (set_value v) (node [] nil) (node_children n))

pub put_value_at_lem :
    (k v : Text) (n : Node)
    → node_children (put_value_at k v n) ≡ put_child k (set_value v) (node [] nil) (node_children n)
unfolding put_value_at
put_value_at_lem k v n = node_children-with_children n _

instance abbrev pub sample_trees : PropertyTree
sample_trees = record {
  Tree = Node;
  empty = node [] nil;
  get_string = λ k n. Option.map value (first_child k (node_children n));
  bad_path = λ k. lit "No such node (" ++ (k ++ lit ")");
  get_child = λ k n. first_child k (node_children n);
  get_value = value;
  children = node_children;
  put = put_value_at;
  put_value = set_value;
  push_back = append_child;
  add_child = append_child;
  children-empty = node_children-empty;
  children-push_back = append_child_lem;
  children-add_child = λ k c n _. append_child_lem k c n;
  children-put = λ k v n _. put_value_at_lem k v n;
  children-put_value = node_children-set_value;
  get_value-put_value = value-set_value;
  get_child-first = λ k n _. refl;
  get_string-child = λ k n. refl;
}
