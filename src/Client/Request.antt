-- ===== src/Client/Request.antt =====
-- python/wye/__init__.py: the requests that the package's `Worker`, `Job` and `Context` put. A
-- request is the tree that Boost reads from the JSON text of a Python dictionary. Python leaves the
-- order of a dictionary's keys open; here it is that of the keys, with `outputs` last.
use wye.Common.{
  ℕ, zero, suc, ◌-◌, Option, none, some, List, [], ◌∷◌, ◌++◌, is_empty, if◌then◌else◌, length,
}
use wye.OrderedMap.{Map, find, insert}
use wye.Text.{Text, lit}
use wye.Text.Order.{text_order}
use wye.Ptree.{PropertyTree}
use wye.Worker.{AddressList}
use wye.Process.Report.{push_addresses}
use wye.Client.Decimal.{decimal}

-- The calls `define_…_worker` of `Job`, by the program that each one names.
pub data Kind : Type 0 where
  application_exe executable_exe python_file lambda_func lua_file generator_func : Text → Kind

-- The `model` that each call passes on, and its `params`.
unfoldable pub model_name : Kind → Text
model_name (application_exe x) = lit "application"
model_name (executable_exe x) = lit "executable"
model_name (python_file x) = lit "python"
model_name (lambda_func x) = lit "lambda"
model_name (lua_file x) = lit "lua"
model_name (generator_func x) = lit "lambda"

unfoldable pub params : Kind → Map Text Text
params (application_exe x) = (lit "exe", x) ∷ []
params (executable_exe x) = (lit "exe", x) ∷ []
params (python_file x) = (lit "file", x) ∷ []
params (lambda_func x) = (lit "call", lit "run_lambda") ∷ (lit "lambda", x) ∷ []
params (lua_file x) = (lit "file", x) ∷ []
params (generator_func x) = (lit "call", lit "run_generator") ∷ (lit "lambda", x) ∷ []

unfoldable pub zeros : ℕ → Text
zeros zero = []
zeros (suc n) = b'0' ∷ zeros n

-- "%s-%04d" % (name, instance)
unfoldable pub numbered : Text → ℕ → Text
unfolding zeros
numbered name i = name ++ (lit "-" ++ (zeros (4 - length (decimal i)) ++ decimal i))

-- for v in self.params: req[v] = self.params[v]
unfoldable pub update : Map Text Text → Map Text Text → Map Text Text
update [] req = req
update ((v, x) ∷ m) req = update m (insert v x req)

-- The text fields of the request that `Worker.implement` puts for one instance.
unfoldable pub create_fields : Kind → Text → Text → ℕ → Map Text Text
unfolding update params model_name
create_fields kind name job i = update (params kind) (
    insert (lit "job_id") job (
      insert (lit "model") (model_name kind) (
        insert (lit "name") (numbered name i) (insert (lit "operation") (lit "create-worker") []))))

-- What a worker's `implement` leaves in `inputs`: for each instance, the addresses by name.
abbrev pub Inputs : Type 0
Inputs = Map Text (Map Text Text)

-- for x in ins: was.append(ins[x][name])
unfoldable pub addresses_of : Inputs → Text → Option (List Text)
addresses_of [] name = some []
addresses_of ((x, ins) ∷ m) name = elim (find name ins) [
  | none ↦ none
  | some a ↦ elim (addresses_of m name) [ none ↦ none | some was ↦ some (a ∷ was) ]
]

-- elt.get_inputs() of the worker at place n among those of the job
unfoldable pub nth : List Inputs → ℕ → Option Inputs
nth [] n = none
nth (x ∷ l) zero = some x
nth (x ∷ l) (suc n) = nth l n

-- for w in self.outputs[v]; `none` is an AttributeError, for a worker that has no inputs yet, or a
-- KeyError
unfoldable pub lists_of : List Inputs → List (ℕ × Text) → Option AddressList
unfolding nth addresses_of
lists_of made [] = some []
lists_of made ((n, name) ∷ l) = elim (nth made n) [
  | none ↦ none
  | some ins ↦ elim (addresses_of ins name) [
    | none ↦ none
    | some was ↦ elim (lists_of made l) [ none ↦ none | some wals ↦ some (was ∷ wals) ]
  ]
]

-- for v in self.outputs
unfoldable pub outputs_of : List Inputs → Map Text (List (ℕ × Text)) → Option (Map Text AddressList)
unfolding lists_of
outputs_of made [] = some []
outputs_of made ((v, l) ∷ m) = elim (lists_of made l) [
  | none ↦ none
  | some wals ↦ elim (outputs_of made m) [ none ↦ none | some outs ↦ some ((v, wals) ∷ outs) ]
]

module _ ⦃t : PropertyTree⦄ where
  open t use {Tree, empty, put_value, push_back}

  -- An object of strings.
  unfoldable pub push_fields : Map Text Text → Tree → Tree
  push_fields [] r = r
  push_fields ((k, v) ∷ m) r = push_fields m (push_back k (put_value v empty) r)

  -- An object of arrays of arrays of strings.
  unfoldable pub push_lists : Map Text AddressList → Tree → Tree
  push_lists [] r = r
  push_lists ((name, al) ∷ m) r = push_lists m (push_back name (push_addresses al empty) r)

  -- if len(self.outputs) > 0: req["outputs"] = …
  unfoldable pub request_tree : Map Text Text → Map Text AddressList → Tree
  unfolding push_fields push_lists
  request_tree fields outs =
      let r = push_fields fields empty in
      if is_empty outs then r else push_back (lit "outputs") (push_lists outs empty) r

  -- Worker.implement, one round
  unfoldable pub create_request : Kind → Text → Text → ℕ → Map Text AddressList → Tree
  unfolding create_fields request_tree
  create_request kind name job i outs = request_tree (create_fields kind name job i) outs

  -- Job.implement
  unfoldable pub job_request : Text → Text → Tree
  unfolding request_tree
  job_request name description =
      request_tree
        (insert (lit "description") description
          (insert (lit "name") name (insert (lit "operation") (lit "create-job") [])))
        []
