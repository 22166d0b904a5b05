-- ===== src/Models/Lua.antt =====
-- src/lua_process.h and src/lua_process.C: a worker that is a Lua script.
use wye.Common.{[], ◌∷◌}
use wye.Text.{lit}
use wye.Outcome.{Outcome, ok}
use wye.Outcome.Pure.{◌>>=◌}
use wye.Ptree.{PropertyTree}
use wye.Process.{Process}
use wye.Models.Outputs.{get_field, set_name, set_outputs, set_job_id, push_args}

module _ ⦃t : PropertyTree⦄ where
  open t use {Tree}

  -- lua_process::init_process
  unfoldable pub init_process : Tree → Process → Outcome Process
  init_process p w = do
    file ← get_field (lit "file") p
    let w = record w { exec = lit "/usr/bin/lua"; args = lit "lua" ∷ file ∷ [] }
    job ← get_field (lit "job_id") p
    ok (push_args (set_outputs p (set_name p (set_job_id job w))))
