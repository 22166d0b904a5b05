-- ===== src/Process/Running.antt =====
-- The two versions of `run_process` in src/process.C and src/application_process.C, by what the
-- launch and the start-up loop return.
use wye.Common.{◌≡◌, ◌≢◌, refl, sym, subst, arith, ◌⊎◌, inl, inr}
use wye.Text.{Text}
use wye.Outcome.{Outcome, throws, blocks, aborts, other}
use wye.Ptree.{PropertyTree}
use wye.Kernel.{Kernel, Child, started, refused}
use wye.Process.{
  Process, Model, application, executable, python, lambda, lua, run_model, run_process,
  run_application,
}
use wye.Process.Startup.{read_lines}

module _ ⦃k : Kernel⦄ ⦃t : PropertyTree⦄ where
  open k use {Os, launch}
  open t use {Tree}

  pub run_model-cases : (m : Model) → (run_model m ≡ run_application) ⊎ (run_model m ≡ run_process)
  unfolding run_model
  run_model-cases application = inl refl
  run_model-cases executable = inr refl
  run_model-cases python = inr refl
  run_model-cases lambda = inr refl
  run_model-cases lua = inr refl

  -- What the two versions share carries over to every class.
  pub by_run_model :
      (P : (Process × Os → Outcome Tree × (Process × Os)) → Type 0) (m : Model)
      → P run_application
      → P run_process
      → P (run_model m)
  by_run_model P m a b = elim (run_model-cases m) [
    | inl e ↦ subst P (sym e) a
    | inr e ↦ subst P (sym e) b
  ]

  module _ (q : Process) (s s' : Os) where
    pub run_model-refused :
        (x : Text)
        → launch q.exec q.args s ≡ (refused x, s')
        → (m : Model) → run_model m (q, s) ≡ (throws (other x), (q, s'))
    run_model-refused x h m =
        by_run_model (λ f. f (q, s) ≡ (throws (other x), (q, s'))) m
          (unfold run_application in ground arith) (unfold run_process in ground arith)

    pub run_model-ne-blocks :
        (c : Child)
        → launch q.exec q.args s ≡ (started c, s')
        → (read_lines c.output q.inputs).0 ≢ blocks
        → (m : Model) → (run_model m (q, s)).0 ≢ blocks
    run_model-ne-blocks c h n m =
        by_run_model (λ f. (f (q, s)).0 ≢ blocks) m (unfold run_application in ground arith)
          (unfold run_process in ground arith)

    pub run_model-ne-aborts :
        (c : Child)
        → launch q.exec q.args s ≡ (started c, s')
        → (read_lines c.output q.inputs).0 ≢ aborts
        → (m : Model) → (run_model m (q, s)).0 ≢ aborts
    run_model-ne-aborts c h n m =
        by_run_model (λ f. (f (q, s)).0 ≢ aborts) m (unfold run_application in ground arith)
          (unfold run_process in ground arith)

    -- Neither changes what a worker is.
    pub run_model-same :
        (m : Model)
        → ((run_model m (q, s)).1.0.id ≡ q.id)
          × ((run_model m (q, s)).1.0.job_id ≡ q.job_id)
          × ((run_model m (q, s)).1.0.state ≡ q.state)
    run_model-same m =
        by_run_model
          (λ f.
            ((f (q, s)).1.0.id ≡ q.id)
            × ((f (q, s)).1.0.job_id ≡ q.job_id)
            × ((f (q, s)).1.0.state ≡ q.state))
          m (unfold run_application in (ground arith, ground arith, ground arith))
          (unfold run_process in (ground arith, ground arith, ground arith))
