-- ===== src/Models/Outputs.antt =====
-- The part of `init_process` that all five classes of src/*_process.C repeat: the request's fields,
-- the address lists under `outputs`, and the text of each list for the child's command line.
use wye.Common.{List, [], ◌∷◌, ◌++◌, none, some}
use wye.OrderedMap.{Map, insert}
use wye.Text.{Text, lit}
use wye.Text.Order.{text_order}
use wye.Outcome.{Outcome, other, or_throw}
use wye.Ptree.{PropertyTree}
use wye.Worker.{Address, AddressList}
use wye.Process.{Process}

-- for (auto k : j) { outs.append(sep); outs.append(k); sep = ","; }
unfoldable pub append_all : Text → Text → Address → Text
append_all outs sep [] = outs
append_all outs sep (k ∷ a) = append_all ((outs ++ sep) ++ k) (lit ",") a

-- name + ":" and the addresses, with commas between them
unfoldable pub output_text : Text → Address → Text
unfolding append_all
output_text name a = append_all (name ++ lit ":") [] a

unfoldable pub push_output_texts : Text → AddressList → List Text → List Text
push_output_texts name [] args = args
push_output_texts name (j ∷ al) args = push_output_texts name al (args ++ output_text name j ∷ [])

-- for (auto i : outputs) … args.push_back(outs);
unfoldable pub push_outputs : Map Text AddressList → List Text → List Text
push_outputs [] args = args
push_outputs ((name, al) ∷ m) args = push_outputs m (push_output_texts name al args)

module _ ⦃t : PropertyTree⦄ where
  open t use {Tree, get_string, bad_path, get_child, get_value, children}

  -- p.get<std::string>(key), whose exception is thrown again
  unfoldable pub get_field : Text → Tree → Outcome Text
  get_field key p = or_throw (get_string key p) (other (bad_path key))

  -- The same where the exception is caught and the variable keeps its value.
  unfoldable pub get_field_or : Text → Text → Tree → Text
  get_field_or old key p = elim (get_string key p) [ none ↦ old | some v ↦ v ]

  unfoldable pub read_address : List (Text × Tree) → Address → Address
  read_address [] a = a
  read_address ((key, k) ∷ l) a = read_address l (a ++ get_value k ∷ [])

  unfoldable pub read_address_list : List (Text × Tree) → AddressList → AddressList
  unfolding read_address
  read_address_list [] al = al
  read_address_list ((key, j) ∷ l) al =
      read_address_list l (al ++ read_address (children j) [] ∷ [])

  unfoldable pub read_outputs_from :
      List (Text × Tree) → Map Text AddressList → Map Text AddressList
  unfolding read_address_list
  read_outputs_from [] outputs = outputs
  read_outputs_from ((name, wal) ∷ l) outputs =
      read_outputs_from l (insert name (read_address_list (children wal) []) outputs)

  -- for (auto i : p.get_child("outputs", ptree())): with no such child the loop has no round. The
  -- source then iterates over the default, a temporary that C++ has destroyed by that time; what is
  -- written here is what it means.
  unfoldable pub read_outputs : Tree → Map Text AddressList → Map Text AddressList
  unfolding read_outputs_from
  read_outputs p outputs = elim (get_child (lit "outputs") p) [
    | none ↦ outputs
    | some os ↦ read_outputs_from (children os) outputs
  ]

  -- The fields that every class reads last: `name` may be missing, `outputs` too.
  unfoldable pub set_name : Tree → Process → Process
  set_name p w = record w { worker = record w.worker { name = get_field_or w.name (lit "name") p } }

  unfoldable pub set_outputs : Tree → Process → Process
  set_outputs p w = record w { worker = record w.worker { outputs = read_outputs p w.outputs } }

  unfoldable pub set_job_id : Text → Process → Process
  set_job_id j w = record w { worker = record w.worker { job_id = j } }

  unfoldable pub push_args : Process → Process
  push_args w = record w { args = push_outputs w.outputs w.args }
