-- ===== src/Manager/Prepared.antt =====
-- The part of manager::create_worker in src/manager.C before the table is touched.
use wye.Common.{arith}
use wye.Text.{Text}
use wye.Ptree.{PropertyTree}
use wye.Kernel.{Kernel}
use wye.Models.Answers.{Answers, init_model-Answers}
use wye.Manager.Workers.{model_of, prepare_worker}

model_of-Answers : (name : Text) → Answers (model_of name)
unfolding model_of
model_of-Answers name = ((λ h. ground arith), λ h. ground arith)

module _ ⦃k : Kernel⦄ ⦃t : PropertyTree⦄ where
  open t use {Tree}

  pub prepare_worker-Answers : (uuid : Text) (p : Tree) → Answers (prepare_worker uuid p)
  unfolding prepare_worker
  prepare_worker-Answers uuid p = (
    (λ h. grind (arith, model_of-Answers, init_model-Answers)),
    λ h. grind (arith, model_of-Answers, init_model-Answers),
  )
