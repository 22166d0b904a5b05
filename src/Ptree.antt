-- ===== src/Ptree.antt =====
-- `boost::property_tree::ptree`, the type of every request and response. Boost is not part of this
-- repository, so the trees are a parameter: a type with the operations that the service calls, and
-- laws that state what the library documents of them.
pub mod Laws
use mathlib.Core.Option
use wye.Common.{
  ◌≡◌, Bool, true, false, Option, none, some, List, [], ◌∷◌, ◌++◌, ◌==◌, ◌&&◌, not, if◌then◌else◌,
}
use wye.Text.{Text, text_eq}

unfoldable pub lacks_dot : Text → Bool
lacks_dot [] = true
lacks_dot (c ∷ cs) = not (c == b'.') && lacks_dot cs

-- A path of one step: it holds no separator `.`, and it is not the empty path, which stands for the
-- tree itself.
unfoldable pub is_plain : Text → Bool
unfolding lacks_dot
is_plain [] = false
is_plain (c ∷ cs) = not (c == b'.') && lacks_dot cs

module _ {T : Type 0} where
  -- The first child under a key.
  unfoldable pub first_child : Text → List (Text × T) → Option T
  first_child k [] = none
  first_child k ((j, c) ∷ cs) = if text_eq j k then some c else first_child k cs

  -- The first child under a key is changed, or a new one is added at the end.
  unfoldable pub put_child : Text → (T → T) → T → List (Text × T) → List (Text × T)
  put_child k f e [] = (k, f e) ∷ []
  put_child k f e ((j, c) ∷ cs) = if text_eq j k then (j, f c) ∷ cs else (j, c) ∷ put_child k f e cs

pub record PropertyTree : Type 1 where
  pub Tree : Type 0
  pub empty : Tree
  -- p.get<std::string>(path); `none` is a throw of `ptree_bad_path`
  pub get_string : Text → Tree → Option Text
  -- what() of that exception
  pub bad_path : Text → Text
  -- p.get_child(path)
  pub get_child : Text → Tree → Option Tree
  -- p.get_value<std::string>()
  pub get_value : Tree → Text
  -- the pairs that iteration meets
  pub children : Tree → List (Text × Tree)
  pub put : Text → Text → Tree → Tree
  pub put_value : Text → Tree → Tree
  pub push_back : Text → Tree → Tree → Tree
  pub add_child : Text → Tree → Tree → Tree
  pub children-empty : children empty ≡ []
  pub children-push_back :
      (k : Text) (c t : Tree) → children (push_back k c t) ≡ children t ++ (k, c) ∷ []
  pub children-add_child :
      (k : Text) (c t : Tree)
      → is_plain k ≡ true
      → children (add_child k c t) ≡ children t ++ (k, c) ∷ []
  pub children-put :
      (k v : Text) (t : Tree)
      → is_plain k ≡ true
      → children (put k v t) ≡ put_child k (put_value v) empty (children t)
  pub children-put_value : (v : Text) (t : Tree) → children (put_value v t) ≡ children t
  pub get_value-put_value : (v : Text) (t : Tree) → get_value (put_value v t) ≡ v
  pub get_child-first :
      (k : Text) (t : Tree) → is_plain k ≡ true → get_child k t ≡ first_child k (children t)
  pub get_string-child :
      (k : Text) (t : Tree) → get_string k t ≡ Option.map get_value (get_child k t)
