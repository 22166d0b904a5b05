-- ===== src/Process/Describe.antt =====
-- The property trees that src/process.C builds of a worker.
use wye.Common.{List, [], ◌∷◌}
use wye.OrderedMap.{Map}
use wye.Text.{Text, lit}
use wye.Ptree.{PropertyTree}

module _ ⦃t : PropertyTree⦄ where
  open t use {Tree, empty, put, put_value, push_back, add_child}

  -- for (auto i : inputs) ins.put(i.first, i.second);
  unfoldable pub put_all : Map Text Text → Tree → Tree
  put_all [] ins = ins
  put_all ((name, input) ∷ m) ins = put_all m (put name input ins)

  unfoldable pub put_inputs : Map Text Text → Tree → Tree
  put_inputs [] r = r
  put_inputs (i ∷ m) r = add_child (lit "inputs") (put_all (i ∷ m) empty) r

  -- for (auto i : args) … as.push_back(std::make_pair("", elt));
  unfoldable pub push_texts : List Text → Tree → Tree
  push_texts [] acc = acc
  push_texts (i ∷ l) acc = push_texts l (push_back [] (put_value i empty) acc)
