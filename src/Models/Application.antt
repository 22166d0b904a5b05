-- ===== src/Models/Application.antt =====
-- src/application_process.h and src/application_process.C: a worker that is a commercial
-- stand-alone application, named by an absolute path.
use wye.Common.{[], ◌∷◌, ◌++◌, take, if◌then◌else◌}
use wye.Text.{Text, lit, text_eq}
use wye.Outcome.{Outcome, ok, throws, runtime_error}
use wye.Outcome.Pure.{◌>>=◌, ◌>>◌}
use wye.Ptree.{PropertyTree}
use wye.Process.{Process}
use wye.Models.Outputs.{get_field, set_name, set_outputs, set_job_id, push_args}

-- if (exec.substr(0, 1) != "/") throw …
unfoldable pub check_absolute : Text → Outcome (Unit {0})
check_absolute exec =
    if text_eq (take 1 exec) (lit "/")
    then ok tt
    else throws (runtime_error (lit "Absolute path not specifed for application: " ++ exec))

module _ ⦃t : PropertyTree⦄ where
  open t use {Tree}

  -- application_process::init_process; `file` is declared there and stays empty
  unfoldable pub init_process : Tree → Process → Outcome Process
  unfolding check_absolute
  init_process p w = do
    exe ← get_field (lit "exe") p
    check_absolute exe
    let w = record w { exec = exe; args = exe ∷ [] ∷ [] }
    job ← get_field (lit "job_id") p
    ok (push_args (set_outputs p (set_name p (set_job_id job w))))
