-- ===== src/Client/Accepted.antt =====
-- What manager::create_worker of src/manager.C makes of the requests of python/wye.
use wye.Common.{ℕ, ◌≡◌, refl, ap, ◌∙◌, true, false, none, some, All}
use wye.OrderedMap.{Map, find, insert, same}
use wye.OrderedMap.Laws.{IsSorted}
use wye.Text.{Text, lit, text_eq}
use wye.Text.Order.{text_order, compare_text}
use wye.Ptree.{PropertyTree, is_plain}
use wye.Outcome.{ok}
use wye.Kernel.{Kernel}
use wye.Worker.{AddressList}
use wye.Process.{new_process}
use wye.Models.{init_model}
use wye.Manager.Workers.{prepare_worker, model_of}
use wye.Manager.Registry.{command_of, named, hire_of, hire, look}
use wye.Client.Request.{
  Kind, application_exe, executable_exe, python_file, lambda_func, lua_file, generator_func,
  model_name, params, update, numbered, create_fields, create_request,
}
use wye.Client.Fields.{field-request, read_outputs-request}
use wye.Client.Classes.{
  class_of, worker_for, IsAbsolute, Common, by_class, init_python, init_lua, init_executable,
  init_application, init_lambda,
}

module _ ⦃k : Kernel⦄ ⦃t : PropertyTree⦄ where
  open t use {Tree, get_string}

  module _ (name job : Text) (i : ℕ) (outs : Map Text AddressList) (srt : IsSorted outs) where
    abbrev fields : Kind → Map Text Text
    fields kind = create_fields kind name job i

    abbrev req : Kind → Tree
    req kind = create_request kind name job i outs

    -- The entries of the dictionary that every call fills, and that `outputs` is not among them.
    filled :
        (kind : Kind)
        → (find (lit "model") (fields kind) ≡ some (model_name kind))
          × (find (lit "name") (fields kind) ≡ some (numbered name i))
          × (find (lit "job_id") (fields kind) ≡ some job)
          × (find (lit "outputs") (fields kind) ≡ none)
    unfolding create_fields update params model_name find insert same compare_text lit
    filled (application_exe x) = (refl, refl, refl, refl)
    filled (executable_exe x) = (refl, refl, refl, refl)
    filled (python_file x) = (refl, refl, refl, refl)
    filled (lambda_func x) = (refl, refl, refl, refl)
    filled (lua_file x) = (refl, refl, refl, refl)
    filled (generator_func x) = (refl, refl, refl, refl)

    -- The entries that a call adds.
    Own : Kind → Type 0
    Own kind = All (λ e. find e.0 (fields kind) ≡ some e.1) (params kind)

    owned : (kind : Kind) → Own kind
    unfolding Own create_fields update params model_name find insert same compare_text lit
    owned (application_exe x) = (refl, tt)
    owned (executable_exe x) = (refl, tt)
    owned (python_file x) = (refl, tt)
    owned (lambda_func x) = (refl, (refl, tt))
    owned (lua_file x) = (refl, tt)
    owned (generator_func x) = (refl, (refl, tt))

    asks :
        (kind : Kind) (key v : Text)
        → is_plain key ≡ true
        → text_eq (lit "outputs") key ≡ false
        → find key (fields kind) ≡ some v
        → get_string key (req kind) ≡ some v
    unfolding create_request
    asks kind key v plain ne h = field-request key (fields kind) outs plain ne ∙ h

    common : (kind : Kind) → Common (req kind) (numbered name i) job outs
    unfolding is_plain lit text_eq create_request
    common kind = record {
      has_name = asks kind (lit "name") (numbered name i) refl refl (filled kind).1;
      has_job = asks kind (lit "job_id") job refl refl (filled kind).2;
      has_outputs = read_outputs-request (fields kind) outs srt (filled kind).3;
    }

    operation : (kind : Kind) → find (lit "operation") (fields kind) ≡ some (lit "create-worker")
    unfolding create_fields update params find insert same compare_text lit
    operation (application_exe x) = refl
    operation (executable_exe x) = refl
    operation (python_file x) = refl
    operation (lambda_func x) = refl
    operation (lua_file x) = refl
    operation (generator_func x) = refl

    named_class : (kind : Kind) → model_of (model_name kind) ≡ ok (class_of kind)
    unfolding model_of model_name lit text_eq
    named_class (application_exe x) = refl
    named_class (executable_exe x) = refl
    named_class (python_file x) = refl
    named_class (lambda_func x) = refl
    named_class (lua_file x) = refl
    named_class (generator_func x) = refl

    chosen :
        (uuid : Text) (kind : Kind)
        → prepare_worker uuid (req kind)
          ≡ init_model (class_of kind) (req kind) (new_process (class_of kind) uuid)
    unfolding is_plain lit text_eq
    chosen uuid kind =
        by_class uuid (req kind) (numbered name i) job outs (common kind) (class_of kind)
          (model_name kind) (asks kind (lit "model") (model_name kind) refl refl (filled kind).0)
          (named_class kind)

    -- The service accepts the request that each call of the Python package makes for an instance of
    -- a worker, and prepares the worker that was asked for: of the call's class, under the name with
    -- the instance's number, for the job, with the outputs, and with the command line that runs the
    -- program and hands it the outputs. The outputs are in the order of their names, and an
    -- application is named by an absolute path.
    pub client_request_accepted :
        (uuid : Text) (kind : Kind)
        → IsAbsolute kind
        → prepare_worker uuid (create_request kind name job i outs)
          ≡ ok (worker_for kind uuid (numbered name i) job outs)
    unfolding params Own is_plain lit text_eq
    client_request_accepted uuid kind a = chosen uuid kind ∙ go kind a
      where
        go :
            (kind : Kind)
            → IsAbsolute kind
            → init_model (class_of kind) (req kind) (new_process (class_of kind) uuid)
              ≡ ok (worker_for kind uuid (numbered name i) job outs)
        go (application_exe x) a =
            let kind = application_exe x in
            init_application uuid (req kind) (numbered name i) job outs (common kind) x
              (asks kind (lit "exe") x refl refl (owned kind).0) a
        go (executable_exe x) a =
            let kind = executable_exe x in
            init_executable uuid (req kind) (numbered name i) job outs (common kind) x
              (asks kind (lit "exe") x refl refl (owned kind).0)
        go (python_file x) a =
            let kind = python_file x in
            init_python uuid (req kind) (numbered name i) job outs (common kind) x
              (asks kind (lit "file") x refl refl (owned kind).0)
        go (lua_file x) a =
            let kind = lua_file x in
            init_lua uuid (req kind) (numbered name i) job outs (common kind) x
              (asks kind (lit "file") x refl refl (owned kind).0)
        go (lambda_func x) a =
            let kind = lambda_func x in
            init_lambda uuid (req kind) (numbered name i) job outs (common kind) (lit "run_lambda")
              x (asks kind (lit "lambda") x refl refl (owned kind).1.0)
              (asks kind (lit "call") (lit "run_lambda") refl refl (owned kind).0)
        go (generator_func x) a =
            let kind = generator_func x in
            init_lambda uuid (req kind) (numbered name i) job outs (common kind)
              (lit "run_generator") x (asks kind (lit "lambda") x refl refl (owned kind).1.0)
              (asks kind (lit "call") (lit "run_generator") refl refl (owned kind).0)

    -- The request is one for a worker of the job.
    pub create_request-hire :
        (uuid : Text) (kind : Kind)
        → IsAbsolute kind
        → command_of uuid (create_request kind name job i outs) ≡ hire uuid job
    unfolding command_of named hire_of is_plain lit text_eq
    create_request-hire uuid kind a =
        let op = asks kind (lit "operation") (lit "create-worker") refl refl (operation kind) in
        ap (λ o. elim o [ none ↦ look | some op ↦ named op uuid (req kind) ]) op
        ∙ ap (hire_of uuid) (client_request_accepted uuid kind a)
