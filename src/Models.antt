-- ===== src/Models.antt =====
-- The five kinds of worker, src/*_process.C: each class fills in its command line by its own
-- `init_process`. An object whose `init_process` throws is dropped by the caller, so a throw
-- carries no object.
pub mod Outputs
pub mod Application
pub mod Executable
pub mod Python
pub mod Lua
pub mod Lambda
pub mod Fields
pub mod Answers
pub mod Commands
pub mod Arguments
pub mod Programs
pub mod Requested
pub mod Described
pub mod Classes
use wye.Outcome.{Outcome}
use wye.Ptree.{PropertyTree}
use wye.Process.{Process, Model, application, executable, python, lambda, lua}
use wye.Models.Application
use wye.Models.Executable
use wye.Models.Python
use wye.Models.Lua
use wye.Models.Lambda

module _ ⦃t : PropertyTree⦄ where
  open t use {Tree}

  -- The virtual call proc->init_process(p).
  unfoldable pub init_model : Model → Tree → Process → Outcome Process
  init_model application p w = Application.init_process p w
  init_model executable p w = Executable.init_process p w
  init_model python p w = Python.init_process p w
  init_model lambda p w = Lambda.init_process p w
  init_model lua p w = Lua.init_process p w
