-- ===== src/Client/Classes.antt =====
-- What init_process of each class in src/*_process.C makes of a request of python/wye.
use wye.Common.{◌≡◌, true, none, some, List, [], ◌∷◌, arith, take}
use wye.OrderedMap.{Map}
use wye.Text.{Text, lit, text_eq}
use wye.Text.Order.{text_order}
use wye.Ptree.{PropertyTree}
use wye.Outcome.{ok}
use wye.Kernel.{Kernel}
use wye.Worker.{AddressList, running, new_worker}
use wye.Process.{Process, Model, application, executable, python, lambda, lua, new_process}
use wye.Models.{init_model}
use wye.Models.Application
use wye.Models.Executable
use wye.Models.Python
use wye.Models.Lua
use wye.Models.Lambda
use wye.Models.Lambda.{program}
use wye.Models.Outputs.{
  get_field, get_field_or, set_name, set_outputs, set_job_id, push_args, read_outputs,
}
use wye.Models.Commands.{output_args, push_output_args}
use wye.Manager.Workers.{prepare_worker, model_of}
use wye.Client.Request.{
  Kind, application_exe, executable_exe, python_file, lambda_func, lua_file, generator_func,
}

-- The class, the program and its arguments that the service chooses for each call.
abbrev pub class_of : Kind → Model
class_of (application_exe x) = application
class_of (executable_exe x) = executable
class_of (python_file x) = python
class_of (lambda_func x) = lambda
class_of (lua_file x) = lua
class_of (generator_func x) = lambda

abbrev pub exec_of : Kind → Text
exec_of (application_exe x) = x
exec_of (executable_exe x) = x
exec_of (python_file x) = lit "/usr/bin/python"
exec_of (lambda_func x) = lit "/usr/bin/python"
exec_of (lua_file x) = lit "/usr/bin/lua"
exec_of (generator_func x) = lit "/usr/bin/python"

abbrev pub args_of : Kind → Map Text AddressList → List Text
args_of (application_exe x) outs = x ∷ [] ∷ output_args outs
args_of (executable_exe x) outs = x ∷ [] ∷ output_args outs
args_of (python_file x) outs = lit "python" ∷ x ∷ output_args outs
args_of (lambda_func x) outs = lit "python" ∷ lit "-c" ∷ program (lit "run_lambda") x outs ∷ []
args_of (lua_file x) outs = lit "lua" ∷ x ∷ output_args outs
args_of (generator_func x) outs =
    lit "python" ∷ lit "-c" ∷ program (lit "run_generator") x outs ∷ []

abbrev pub worker_for : Kind → Text → Text → Text → Map Text AddressList → Process
worker_for kind uuid name job outs = record {
  worker = record {
    id = uuid;
    name = name;
    job_id = job;
    state = running;
    outputs = outs;
    inputs = [];
  };
  model = class_of kind;
  exec = exec_of kind;
  args = args_of kind outs;
  proc = none;
}

-- An application must be named by an absolute path.
abbrev pub IsAbsolute : Kind → Type 0
IsAbsolute (application_exe x) = text_eq (take 1 x) (lit "/") ≡ true
IsAbsolute kind = Unit

module _ ⦃k : Kernel⦄ ⦃t : PropertyTree⦄ where
  open t use {Tree, get_string}

  -- What every class asks for.
  pub record Common (p : Tree) (name job : Text) (outs : Map Text AddressList) : Type 0 where
    pub has_name : get_string (lit "name") p ≡ some name
    pub has_job : get_string (lit "job_id") p ≡ some job
    pub has_outputs : read_outputs p [] ≡ outs

  module _ (uuid : Text) (p : Tree) (name job : Text) (outs : Map Text AddressList)
      (c : Common p name job outs) where
    pub by_class :
        (m : Model) (model : Text)
        → get_string (lit "model") p ≡ some model
        → model_of model ≡ ok m
        → prepare_worker uuid p ≡ init_model m p (new_process m uuid)
    unfolding prepare_worker
    by_class m model h g = ground arith

    pub init_python :
        (x : Text)
        → get_string (lit "file") p ≡ some x
        → init_model python p (new_process python uuid)
          ≡ ok (worker_for (python_file x) uuid name job outs)
    unfolding init_model Python.init_process new_process new_worker get_field get_field_or set_name
        set_outputs set_job_id push_args
    init_python x f =
        ground (
          arith,
          c.has_name,
          c.has_job,
          c.has_outputs,
          push_output_args outs (lit "python" ∷ x ∷ []),
        )

    pub init_lua :
        (x : Text)
        → get_string (lit "file") p ≡ some x
        → init_model lua p (new_process lua uuid) ≡ ok (worker_for (lua_file x) uuid name job outs)
    unfolding init_model Lua.init_process new_process new_worker get_field get_field_or set_name
        set_outputs set_job_id push_args
    init_lua x f =
        ground
          (arith, c.has_name, c.has_job, c.has_outputs, push_output_args outs (lit "lua" ∷ x ∷ []))

    pub init_executable :
        (x : Text)
        → get_string (lit "exe") p ≡ some x
        → init_model executable p (new_process executable uuid)
          ≡ ok (worker_for (executable_exe x) uuid name job outs)
    unfolding init_model Executable.init_process new_process new_worker get_field get_field_or
        set_name set_outputs set_job_id push_args
    init_executable x f =
        ground (arith, c.has_name, c.has_job, c.has_outputs, push_output_args outs (x ∷ [] ∷ []))

    pub init_application :
        (x : Text)
        → get_string (lit "exe") p ≡ some x
        → text_eq (take 1 x) (lit "/") ≡ true
        → init_model application p (new_process application uuid)
          ≡ ok (worker_for (application_exe x) uuid name job outs)
    unfolding init_model Application.init_process Application.check_absolute new_process new_worker
        get_field get_field_or set_name set_outputs set_job_id push_args
    init_application x f a =
        ground (arith, c.has_name, c.has_job, c.has_outputs, push_output_args outs (x ∷ [] ∷ []))

    -- The program text of a lambda worker is the only argument that a `call` chooses.
    abbrev pub calling : Text → Text → Process
    calling call x = record (worker_for (lambda_func x) uuid name job outs) {
      args = lit "python" ∷ lit "-c" ∷ program call x outs ∷ [];
    }

    pub init_lambda :
        (call x : Text)
        → get_string (lit "lambda") p ≡ some x
        → get_string (lit "call") p ≡ some call
        → init_model lambda p (new_process lambda uuid) ≡ ok (calling call x)
    unfolding init_model Lambda.init_process Lambda.set_program new_process new_worker get_field
        get_field_or set_name set_outputs set_job_id
    init_lambda call x f g = ground (arith, c.has_name, c.has_job, c.has_outputs)
