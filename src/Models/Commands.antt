-- ===== src/Models/Commands.antt =====
-- The command line that each class of src/*_process.C makes of a request.
use wye.Common.{
  ◌≡◌, sym, ap, ◌∙◌, some, arith, ◌∷◌, [], ◌++◌, List, take, append-nil, append_assoc, Option-cases,
  inl, inr,
}
use wye.OrderedMap.{Map}
use wye.Text.{Text, lit, text_eq_iff}
use wye.Outcome.{ok}
use wye.Ptree.{PropertyTree}
use wye.Worker.{AddressList}
use wye.Process.{Process, Model, application, executable, python, lambda, lua}
use wye.Models.Outputs.{
  get_field, set_name, set_outputs, set_job_id, push_args, push_outputs, push_output_texts,
  output_text,
}
use wye.Models.Application
use wye.Models.Executable
use wye.Models.Python
use wye.Models.Lua
use wye.Models.Lambda
use wye.Models.Lambda.{program}
use wye.Models.{init_model}

-- One argument for each address list, name by name.
unfoldable pub list_args : Text → AddressList → List Text
list_args name [] = []
list_args name (a ∷ al) = output_text name a ∷ list_args name al

unfoldable pub output_args : Map Text AddressList → List Text
output_args [] = []
output_args ((name, al) ∷ m) = list_args name al ++ output_args m

push_list_args :
    (name : Text) (al : AddressList) (args : List Text)
    → push_output_texts name al args ≡ args ++ list_args name al
unfolding push_output_texts list_args
push_list_args name [] args = sym (append-nil args)
push_list_args name (a ∷ al) args =
    push_list_args name al (args ++ output_text name a ∷ [])
    ∙ append_assoc args (output_text name a ∷ []) (list_args name al)

pub push_output_args :
    (m : Map Text AddressList) (args : List Text) → push_outputs m args ≡ args ++ output_args m
unfolding push_outputs output_args
push_output_args [] args = sym (append-nil args)
push_output_args ((name, al) ∷ m) args =
    push_output_args m (push_output_texts name al args)
    ∙ ap (λ l. l ++ output_args m) (push_list_args name al args)
    ∙ append_assoc args (list_args name al) (output_args m)

module _ ⦃t : PropertyTree⦄ where
  open t use {Tree, get_string}

  -- The program that is run, and its arguments.
  abbrev pub Runs : Text → List Text → Process → Type 0
  Runs exec args q = (q.exec ≡ exec) × (q.args ≡ args)

  abbrev pub RunsScript : Text → Text → Tree → Process → Type 0
  RunsScript exec name p q =
      (file : Text) × (get_string (lit "file") p ≡ some file)
      × Runs exec (name ∷ file ∷ output_args q.outputs) q

  abbrev pub RunsBinary : Tree → Process → Type 0
  RunsBinary p q =
      (get_string (lit "exe") p ≡ some q.exec) × (q.args ≡ q.exec ∷ [] ∷ output_args q.outputs)

  -- What the command line of each class is, by the fields of the request.
  abbrev pub CommandOf : Model → Tree → Process → Type 0
  CommandOf application p q = RunsBinary p q × (take 1 q.exec ≡ lit "/")
  CommandOf executable p q = RunsBinary p q
  CommandOf python p q = RunsScript (lit "/usr/bin/python") (lit "python") p q
  CommandOf lua p q = RunsScript (lit "/usr/bin/lua") (lit "lua") p q
  CommandOf lambda p q =
      (fn : Text) × (call : Text) × (get_string (lit "lambda") p ≡ some fn)
      × (get_string (lit "call") p ≡ some call)
      × Runs (lit "/usr/bin/python") (lit "python" ∷ lit "-c" ∷ program call fn q.outputs ∷ []) q

  script_args :
      (name file : Text) (q : Process)
      → push_outputs q.outputs (name ∷ file ∷ []) ≡ name ∷ file ∷ output_args q.outputs
  script_args name file q = push_output_args q.outputs (name ∷ file ∷ [])

  -- A request that a class accepts names a job, which the worker takes over, and its command line
  -- is that of the class: an application's program is an absolute path, and every class but
  -- `lambda` gets one argument for each address list, name by name.
  pub init_model_command :
      (m : Model) (p : Tree) (q q' : Process)
      → init_model m p q ≡ ok q'
      → (get_string (lit "job_id") p ≡ some q'.job_id) × CommandOf m p q'
  unfolding init_model Application.init_process Executable.init_process Python.init_process
      Lua.init_process Lambda.init_process get_field set_name set_outputs set_job_id push_args
  init_model_command application p q q' h = ground (
    arith,
    push_output_args q'.outputs (q'.exec ∷ [] ∷ []),
    text_eq_iff (take 1 q'.exec) (lit "/"),
  )
  init_model_command executable p q q' h =
      ground (arith, push_output_args q'.outputs (q'.exec ∷ [] ∷ []))
  init_model_command python p q q' h = elim (Option-cases (get_string (lit "file") p)) [
    | inl e ↦ absurd (ground arith)
    | inr (file, e) ↦ (
      ground arith,
      (file, e, (ground arith, ground (arith, script_args (lit "python") file q'))),
    )
  ]
  init_model_command lua p q q' h = elim (Option-cases (get_string (lit "file") p)) [
    | inl e ↦ absurd (ground arith)
    | inr (file, e) ↦
        (ground arith, (file, e, (ground arith, ground (arith, script_args (lit "lua") file q'))))
  ]
  init_model_command lambda p q q' h = elim (Option-cases (get_string (lit "lambda") p)) [
    | inl e ↦ absurd (ground arith)
    | inr (fn, e) ↦ elim (Option-cases (get_string (lit "call") p)) [
      | inl f ↦ absurd (ground arith)
      | inr (call, f) ↦ (ground arith, (fn, call, e, f, (ground arith, ground arith)))
    ]
  ]
