-- ===== src/Client/Deploy/Failed.antt =====
-- What a job of python/wye leaves in the registry of src/manager.C when its deployment fails.
use wye.Common.{ℕ, suc, ◌≡◌, sym, ap, subst, ◌∙◌, List, [], ◌∷◌, ◌++◌, map, All, arith, inl, inr}
use wye.OrderedMap.Keys.{keys-IsSorted}
use wye.OrderedMap.Laws.{IsSorted}
use wye.Text.{Text, lit}
use wye.Text.Order.{text_order}
use wye.Ptree.{PropertyTree}
use wye.Kernel.{Kernel}
use wye.Outcome.{Fault, throws, other, lift, pure, or_throw, ◌>>◌}
use wye.Outcome.Laws.{bind-eq-throws}
use wye.Manager.State.{World}
use wye.Manager.{handle}
use wye.Manager.Invariant.{WellFormed}
use wye.Manager.Registry.{Command, hire, view, command_of}
use wye.Manager.Registry.Sequences.{
  obey_all, Serves, Partly, nothing-Partly, Serves-Partly, Partly-append, then-Partly, call-Serves,
  thrown-Serves,
}
use wye.Client.Request.{Inputs, outputs_of, create_request, job_request}
use wye.Client.Accepted.{create_request-hire}
use wye.Client.Deploy.{
  Plan, add_inputs, response_id, implement_from, implement_workers, implement_job,
}
use wye.Client.Deploy.Rounds.{hires, IsSound, outputs_keys, implement_from-Serves}
use wye.Client.Deploy.Registered.{deployment, job_request-open, create_job_id, after_id}

module _ ⦃k : Kernel⦄ ⦃t : PropertyTree⦄ where
  open t use {Tree}

  implement_from-Partly :
      (p : Plan) (job : Text) (made : List Inputs)
      → IsSound p
      → (us : List Text) (i : ℕ) (ins : Inputs) (w : World) (e : Fault) → WellFormed w
      → (implement_from p job made us i ins w).0 ≡ throws e
      → Partly (map (λ u. hire u job) us) w (implement_from p job made us i ins w).1
  unfolding implement_from response_id
  implement_from-Partly p job made a [] i ins w e v h = nothing-Partly [] w v
  implement_from-Partly p job made a (u ∷ us) i ins w e v h =
      let all : List Command = map (λ u. hire u job) (u ∷ us) in
      let later : List Command = map (λ u. hire u job) us in
      elim (bind-eq-throws _
        (lift (or_throw (outputs_of (made ++ ins ∷ []) p.outputs) (other (lit "no inputs")))) w e
        h) [
          | inl (t0, s0) ↦ subst (Partly all w) (sym s0) (nothing-Partly all w v)
          | inr (outs, e0, h0, s0) ↦
              let req = create_request p.kind p.name job i outs in
              let w1 : World = (handle u req w).1 in
              let sorted : IsSorted outs =
                keys-IsSorted p.outputs outs
                  (outputs_keys (made ++ ins ∷ []) p.outputs outs (ground arith)) a.1 in
              let hired : command_of u req ≡ hire u job =
                create_request-hire p.name job i outs sorted u p.kind a.0 in
              elim (bind-eq-throws _ (handle u req) w e h0) [
                | inl (t1, s1) ↦ subst (Partly all w) (sym (s0 ∙ s1)) (
                    Serves-Partly later
                      (subst (λ c. Serves (c ∷ []) w w1) hired (thrown-Serves u req w e v t1)))
                | inr (res, e1, h1, s1) ↦
                    let first : Serves (hire u job ∷ []) w w1 =
                      subst (λ c. Serves (c ∷ []) w w1) hired (call-Serves u req w res v e1) in
                    elim (bind-eq-throws _ (response_id res) w1 e h1) [
                      | inl (t2, s2) ↦
                          subst (Partly all w) (sym (s0 ∙ s1 ∙ s2)) (Serves-Partly later first)
                      | inr (id, e2, h2, s2) ↦ subst (Partly all w) (sym (s0 ∙ s1 ∙ s2)) (
                          then-Partly first (
                            implement_from-Partly p job made a us (suc i) (add_inputs id res ins) w1
                              e first.good h2))
                    ]
              ]
        ]

  implement_workers-Partly :
      (job : Text) (ps : List Plan) (made : List Inputs) (w : World) (e : Fault)
      → All IsSound ps
      → WellFormed w
      → (implement_workers job ps made w).0 ≡ throws e
      → Partly (hires job ps) w (implement_workers job ps made w).1
  unfolding implement_workers hires
  implement_workers-Partly job [] made w e a v h = nothing-Partly [] w v
  implement_workers-Partly job (p ∷ ps) made w e (sound, a) v h =
      let hired : List Command = map (λ u. hire u job) p.uuids in
      let w1 : World = (implement_from p job made p.uuids 0 [] w).1 in
      elim (bind-eq-throws _ (implement_from p job made p.uuids 0 []) w e h) [
        | inl (t, s) ↦ subst (Partly (hires job (p ∷ ps)) w) (sym s) (
            Partly-append (hires job ps)
              (implement_from-Partly p job made sound p.uuids 0 [] w e v t))
        | inr (ins, e1, h1, s) ↦
            let first : Serves hired w w1 =
              implement_from-Serves p job made sound p.uuids 0 [] w ins v e1 in
            subst (Partly (hires job (p ∷ ps)) w) (sym s) (
              then-Partly first
                (implement_workers-Partly job ps (made ++ ins ∷ []) w1 e a first.good h1))
      ]

  implement_job-Partly :
      (uuid name description : Text) (plans : List Plan) (w : World) (e : Fault)
      → All IsSound plans
      → WellFormed w
      → (implement_job uuid name description plans w).0 ≡ throws e
      → Partly
          (deployment uuid name description plans)
          w
          (implement_job uuid name description plans w).1
  unfolding implement_job
  implement_job-Partly uuid name description plans w e a v h =
      let req = job_request name description in
      let w1 : World = (handle uuid req w).1 in
      let cs : List Command = deployment uuid name description plans in
      let opened = job_request-open uuid name description in
      elim (bind-eq-throws _ (handle uuid req) w e h) [
        | inl (t, s) ↦ subst (Partly cs w) (sym s) (
            Serves-Partly (hires uuid plans)
              (subst (λ c. Serves (c ∷ []) w w1) opened (thrown-Serves uuid req w e v t)))
        | inr (res, e1, h1, s) ↦
            let first =
              subst (λ c. Serves (c ∷ []) w w1) opened (call-Serves uuid req w res v e1) in
            let next =
              after_id res uuid (λ id. implement_workers id plans [] >> pure id) w1
                (create_job_id uuid name description w res e1) in
            elim (bind-eq-throws (λ u. pure uuid) (implement_workers uuid plans []) w1 e
              (sym (ap (λ r. r.0) next) ∙ h1)) [
                | inl (t, s2) ↦
                    subst (Partly cs w) (sym (s ∙ ap (λ r. r.1) next ∙ s2)) (
                      then-Partly first
                        (implement_workers-Partly uuid plans [] w1 e a first.good t))
                | inr (u, e2, h2, s2) ↦ absurd (cc h2)
              ]
      ]

  -- When the `implement` of a job of the Python package raises, the jobs and workers that were made
  -- before stay: the registry has been changed by the commands of the deployment up to one of them
  -- and by no others, and the tables are well formed. They were so before, each application is named
  -- by an absolute path, and the outputs of each worker are in the order of their names.
  pub failed_deployment :
      (uuid name description : Text) (plans : List Plan) (w : World) (e : Fault)
      → All IsSound plans
      → WellFormed w
      → (implement_job uuid name description plans w).0 ≡ throws e
      → (obeyed : List Command) × (left : List Command) × (obeyed ++ left
          ≡ deployment uuid name description plans)
        × WellFormed (implement_job uuid name description plans w).1
        × (view (implement_job uuid name description plans w).1 ≡ obey_all obeyed (view w))
  failed_deployment uuid name description plans w e a v h =
      let p = implement_job-Partly uuid name description plans w e a v h in
      (p.obeyed, p.left, p.split, p.serves.good, p.serves.shows)
