-- ===== src/Models/Lambda.antt =====
-- src/lambda_process.h and src/lambda_process.C: a worker that is a serialised Python function,
-- handed over in a program text.
use wye.Common.{[], ◌∷◌, ◌++◌}
use wye.OrderedMap.{Map}
use wye.Text.{Text, lit}
use wye.Outcome.{Outcome, ok}
use wye.Outcome.Pure.{◌>>=◌}
use wye.Ptree.{PropertyTree}
use wye.Worker.{AddressList}
use wye.Process.{Process}
use wye.Models.Outputs.{get_field, set_name, set_outputs, set_job_id, output_text}

-- The inner loop: `buf << psep; buf << "'" << outs << "'"; psep = ",";` for one name. The
-- separator comes back beside the text, for the next name.
unfoldable pub quote_list : Text → AddressList → Text → Text → Text × Text
quote_list name [] psep buf = (psep, buf)
quote_list name (j ∷ al) psep buf =
    quote_list name al (lit ",") (buf ++ (psep ++ (lit "'" ++ (output_text name j ++ lit "'"))))

unfoldable pub quote_outputs : Map Text AddressList → Text → Text → Text
quote_outputs [] psep buf = buf
quote_outputs ((name, al) ∷ m) psep buf =
    let (psep', buf') = quote_list name al psep buf in quote_outputs m psep' buf'

-- The text that Python runs.
unfoldable pub program : Text → Text → Map Text AddressList → Text
unfolding quote_list quote_outputs
program call fn outputs =
    quote_outputs outputs []
      (lit "import wye.func; wye.func." ++ (call ++ (lit "('" ++ (fn ++ lit "', ["))))
    ++ lit "])"

module _ ⦃t : PropertyTree⦄ where
  open t use {Tree}

  unfoldable pub set_program : Text → Text → Process → Process
  unfolding program
  set_program call fn w = record w {
    exec = lit "/usr/bin/python";
    args = lit "python" ∷ lit "-c" ∷ program call fn w.outputs ∷ [];
  }

  -- lambda_process::init_process
  unfoldable pub init_process : Tree → Process → Outcome Process
  unfolding set_program
  init_process p w = do
    fn ← get_field (lit "lambda") p
    job ← get_field (lit "job_id") p
    call ← get_field (lit "call") p
    ok (set_program call fn (set_outputs p (set_name p (set_job_id job w))))
