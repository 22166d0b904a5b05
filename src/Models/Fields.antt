-- ===== src/Models/Fields.antt =====
-- What every `init_process` of src/*_process.C keeps and sets, whatever the class.
use wye.Common.{◌≡◌, arith}
use wye.Outcome.{ok}
use wye.Ptree.{PropertyTree}
use wye.Process.{Process, Model, application, executable, python, lambda, lua}
use wye.Models.Outputs.{get_field, set_name, set_outputs, set_job_id, push_args}
use wye.Models.Application
use wye.Models.Executable
use wye.Models.Python
use wye.Models.Lua
use wye.Models.Lambda
use wye.Models.{init_model}

module _ ⦃t : PropertyTree⦄ where
  open t use {Tree, get_string}

  -- Identity, state, class and child are the constructor's.
  pub record SameObject (q q' : Process) : Type 0 where
    pub same_id : q'.id ≡ q.id
    pub same_state : q'.state ≡ q.state
    pub same_model : q'.model ≡ q.model
    pub same_proc : q'.proc ≡ q.proc
    pub same_inputs : q'.inputs ≡ q.inputs

  pub init_model-SameObject :
      (m : Model) (p : Tree) (q q' : Process) → init_model m p q ≡ ok q' → SameObject q q'
  unfolding init_model Application.init_process Executable.init_process Python.init_process
      Lua.init_process Lambda.init_process get_field set_name set_outputs set_job_id push_args
  init_model-SameObject application p q q' h = ground arith
  init_model-SameObject executable p q q' h = ground arith
  init_model-SameObject python p q q' h = ground arith
  init_model-SameObject lambda p q q' h = ground arith
  init_model-SameObject lua p q q' h = ground arith
