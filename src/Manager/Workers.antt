-- ===== src/Manager/Workers.antt =====
-- The operations of src/manager.C on workers.
use wye.Common.{Option, none, some, [], ◌∷◌, ◌++◌, if◌then◌else◌}
use wye.OrderedMap.{Map, find, insert, erase}
use wye.Text.{Text, lit, text_eq}
use wye.Text.Order.{text_order}
use wye.Outcome.{
  Exec, Outcome, ok, throws, blocks, aborts, invalid_request, runtime_error, what, lift, pure, gets,
  or_throw, ◌>>=◌, ◌>>◌,
}
use wye.Ptree.{PropertyTree}
use wye.Kernel.{Kernel}
use wye.Process.{
  Process, Model, application, executable, python, lambda, lua, This, new_process, destroy,
  run_model,
}
use wye.Process.Report.{describe}
use wye.Models.{init_model}
use wye.Manager.State.{World, on_os}

-- The chain of tests on `model`.
unfoldable pub model_of : Text → Outcome Model
model_of model =
    if text_eq model (lit "application")
    then ok application
    else if text_eq model (lit "executable")
    then ok executable
    else if text_eq model (lit "python")
    then ok python
    else if text_eq model (lit "lambda")
    then ok lambda
    else if text_eq model (lit "lua")
    then ok lua
    else throws (invalid_request (lit "Worker model '" ++ (model ++ lit "' not known")))

-- catch (std::exception& e) { throw std::runtime_error(e.what()); }
unfoldable pub as_runtime_error : {A : Type 0} → Outcome A → Outcome A
as_runtime_error (throws e) = throws (runtime_error (what e))
as_runtime_error r = r

module _ ⦃k : Kernel⦄ where
  open k use {Os}

  -- An entry that leaves the table drops the last reference to its object.
  unfoldable pub drop_worker : Option Process → Exec World (Unit {0})
  drop_worker none = pure tt
  drop_worker (some q) = on_os (destroy q)

  -- workers[proc->id] = proc
  unfoldable pub store_worker : Process → Exec World (Unit {0})
  unfolding drop_worker
  store_worker q w =
      drop_worker (find q.id w.workers) (record w { workers = insert q.id q w.workers })

  -- workers.erase(id)
  unfoldable pub erase_worker : Text → Exec World (Unit {0})
  unfolding drop_worker
  erase_worker id w = drop_worker (find id w.workers) (record w { workers = erase id w.workers })

  -- A method call on the object of an entry: what it writes is seen in the table, also when it
  -- throws.
  unfoldable pub on_worker : {A : Type 0} → Process → Exec This A → Exec World A
  on_worker q m w =
      let (r, (q', s)) = m (q, w.os) in (r, record w { workers = insert q.id q' w.workers; os = s })

  unfoldable pub catch_all : {A : Type 0} → Exec World A → Exec World A
  unfolding as_runtime_error
  catch_all m w = let (r, w') = m w in (as_runtime_error r, w')

  unfoldable pub known_worker : Text → Exec World (Unit {0})
  known_worker id w = elim (find id w.workers) [
    | none ↦ (throws (invalid_request (lit "Worker '" ++ (id ++ lit "' not known."))), w)
    | some q ↦ (ok tt, w)
  ]

  module _ ⦃t : PropertyTree⦄ where
    open t use {Tree, empty, get_string, add_child}

    -- The part of create_worker before the table is touched.
    unfoldable pub prepare_worker : Text → Tree → Outcome Process
    prepare_worker uuid p = elim (get_string (lit "model") p) [
      | none ↦ throws (invalid_request (lit "Must supply a 'model' value"))
      | some name ↦ elim (model_of name) [
        | ok m ↦ init_model m p (new_process m uuid)
        | throws e ↦ throws e
        | blocks ↦ blocks
        | aborts ↦ aborts
      ]
    ]

    -- The part under the mutex: the worker is in the table before it is started.
    unfoldable pub start_worker : Process → Exec World Tree
    start_worker q = catch_all (store_worker q >> on_worker q (run_model q.model))

    unfoldable pub create_worker : Text → Tree → Exec World Tree
    create_worker uuid p = lift (prepare_worker uuid p) >>= start_worker

    -- for (auto v : workers)
    unfoldable pub describe_workers : Map Text Process → Tree → Tree
    describe_workers [] r = r
    describe_workers ((key, q) ∷ m) r = describe_workers m (add_child key (describe q empty) r)

    unfoldable pub get_workers : Tree → Exec World Tree
    get_workers p = gets (λ w. describe_workers w.workers empty)

    -- The field `id` that several operations ask for.
    unfoldable pub get_id : Tree → Outcome Text
    get_id p =
        or_throw (get_string (lit "id") p) (invalid_request (lit "Must supply an 'id' value"))

    unfoldable pub delete_worker : Tree → Exec World Tree
    unfolding get_id known_worker erase_worker
    delete_worker p = do id ← lift (get_id p); known_worker id; erase_worker id; pure empty
