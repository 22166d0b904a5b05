-- ===== src/Models/Executable.antt =====
-- src/executable_process.h and src/executable_process.C: a worker that is a Linux executable.
use wye.Common.{[], ◌∷◌}
use wye.Text.{lit}
use wye.Outcome.{Outcome, ok}
use wye.Outcome.Pure.{◌>>=◌}
use wye.Ptree.{PropertyTree}
use wye.Process.{Process}
use wye.Models.Outputs.{get_field, set_name, set_outputs, set_job_id, push_args}

module _ ⦃t : PropertyTree⦄ where
  open t use {Tree}

  -- executable_process::init_process; `file` is declared there and stays empty
  unfoldable pub init_process : Tree → Process → Outcome Process
  init_process p w = do
    exe ← get_field (lit "exe") p
    let w = record w { exec = exe; args = exe ∷ [] ∷ [] }
    job ← get_field (lit "job_id") p
    ok (push_args (set_outputs p (set_name p (set_job_id job w))))
