-- ===== src/Models/Classes.antt =====
-- The class declarations of src/application_process.h, executable_process.h, python_process.h,
-- lambda_process.h and lua_process.h: what each class makes of the virtual methods of src/process.h
-- and of its constructor.
use wye.Common.{◌≡◌, refl}
use wye.Text.{Text}
use wye.Outcome.{Outcome, Exec}
use wye.Ptree.{PropertyTree}
use wye.Kernel.{Kernel}
use wye.Process.{
  Process, This, Model, application, executable, python, lambda, lua, new_process, run_process,
  run_application, run_model,
}
use wye.Models.{init_model}
use wye.Models.Application
use wye.Models.Executable
use wye.Models.Python
use wye.Models.Lambda
use wye.Models.Lua

module _ ⦃k : Kernel⦄ ⦃t : PropertyTree⦄ where
  open t use {Tree}

  pub record ProcessClass : Type 0 where
    pub construct : Text → Process
    pub init_process : Tree → Process → Outcome Process
    pub run_process : Exec This Tree

  -- The one class that overrides both virtual methods.
  abbrev pub application_process : ProcessClass
  application_process = record {
    construct = new_process application;
    init_process = Application.init_process;
    run_process = run_application;
  }

  -- The others keep `process::run_process`.
  abbrev pub executable_process : ProcessClass
  executable_process = record {
    construct = new_process executable;
    init_process = Executable.init_process;
    run_process = run_process;
  }

  abbrev pub python_process : ProcessClass
  python_process = record {
    construct = new_process python;
    init_process = Python.init_process;
    run_process = run_process;
  }

  -- A subclass of python_process.
  abbrev pub lambda_process : ProcessClass
  lambda_process = record python_process {
    construct = new_process lambda;
    init_process = Lambda.init_process;
  }

  abbrev pub lua_process : ProcessClass
  lua_process = record {
    construct = new_process lua;
    init_process = Lua.init_process;
    run_process = run_process;
  }

  abbrev pub declared : Model → ProcessClass
  declared application = application_process
  declared executable = executable_process
  declared python = python_process
  declared lambda = lambda_process
  declared lua = lua_process

  -- The virtual calls of the manager are those that the classes declare.
  pub init_model-declared :
      (m : Model) (p : Tree) (q : Process) → init_model m p q ≡ (declared m).init_process p q
  unfolding init_model
  init_model-declared application p q = refl
  init_model-declared executable p q = refl
  init_model-declared python p q = refl
  init_model-declared lambda p q = refl
  init_model-declared lua p q = refl

  pub run_model-declared : (m : Model) → run_model m ≡ (declared m).run_process
  unfolding run_model
  run_model-declared application = refl
  run_model-declared executable = refl
  run_model-declared python = refl
  run_model-declared lambda = refl
  run_model-declared lua = refl

  pub new_process-declared :
      (m : Model) (uuid : Text) → new_process m uuid ≡ (declared m).construct uuid
  new_process-declared application uuid = refl
  new_process-declared executable uuid = refl
  new_process-declared python uuid = refl
  new_process-declared lambda uuid = refl
  new_process-declared lua uuid = refl
