-- ===== src/Models/Answers.antt =====
-- How `init_process` of src/*_process.C can end.
use wye.Common.{◌≢◌, arith}
use wye.Outcome.{Outcome, blocks, aborts}
use wye.Ptree.{PropertyTree}
use wye.Process.{Process, Model, application, executable, python, lambda, lua}
use wye.Models.Outputs.{get_field}
use wye.Models.Application
use wye.Models.Executable
use wye.Models.Python
use wye.Models.Lua
use wye.Models.Lambda
use wye.Models.{init_model}

abbrev pub Answers : {A : Type 0} → Outcome A → Type 0
Answers r = (r ≢ blocks) × (r ≢ aborts)

module _ ⦃t : PropertyTree⦄ where
  open t use {Tree}

  pub init_model-Answers : (m : Model) (p : Tree) (q : Process) → Answers (init_model m p q)
  unfolding init_model Application.init_process Application.check_absolute Executable.init_process
      Python.init_process Lua.init_process Lambda.init_process get_field
  init_model-Answers application p q = ((λ h. ground arith), λ h. ground arith)
  init_model-Answers executable p q = ((λ h. ground arith), λ h. ground arith)
  init_model-Answers python p q = ((λ h. ground arith), λ h. ground arith)
  init_model-Answers lambda p q = ((λ h. ground arith), λ h. ground arith)
  init_model-Answers lua p q = ((λ h. ground arith), λ h. ground arith)
