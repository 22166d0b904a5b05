-- ===== src/Client/Deploy/Registered.antt =====
-- What a deployed job of python/wye leaves in the registry of src/manager.C.
use wye.Common.{◌≡◌, refl, sym, ap, ap₂, subst, ◌∙◌, none, some, List, [], ◌∷◌, All, arith}
use wye.OrderedMap.{insert, find, same}
use wye.Text.{Text, lit, text_eq}
use wye.Text.Order.{text_order, compare_text}
use wye.Ptree.{PropertyTree, is_plain}
use wye.Kernel.{Kernel}
use wye.Outcome.{Exec, ok, other, invalid_request, lift, pure, or_throw, ◌>>=◌, ◌>>◌}
use wye.Manager.State.{World}
use wye.Manager.{handle, dispatch}
use wye.Manager.Jobs.{create_job}
use wye.Manager.JobView.{create_job_named}
use wye.Ptree.Laws.{get_string-put_self}
use wye.Manager.Invariant.{WellFormed}
use wye.Manager.Registry.{Command, open_job, look, view, command_of, named, open_of}
use wye.Client.Request.{job_request}
use wye.Client.Fields.{field-request}
use wye.Client.Deploy.{Plan, response_id, implement_workers, implement_job}
use wye.Client.Deploy.Rounds.{hires, IsSound, implement_workers-Serves}
use wye.Manager.Registry.Sequences.{obey_all, Serves, bind_done, Serves-then, call-Serves}

-- The commands of a whole deployment.
abbrev pub deployment : Text → Text → Text → List Plan → List Command
deployment uuid name description plans =
    open_job (record { id = uuid; name = name; description = description }) ∷ hires uuid plans

module _ ⦃k : Kernel⦄ ⦃t : PropertyTree⦄ where
  open t use {Tree, get_string, put, empty}

  job_fields :
      (name description : Text)
      → (get_string (lit "operation") (job_request name description) ≡ some (lit "create-job"))
        × (get_string (lit "name") (job_request name description) ≡ some name)
        × (get_string (lit "description") (job_request name description) ≡ some description)
  unfolding job_request insert find same compare_text is_plain lit text_eq
  job_fields name description =
      let fields =
        insert (lit "description") description
          (insert (lit "name") name (insert (lit "operation") (lit "create-job") [])) in
      (
        field-request (lit "operation") fields [] refl refl,
        field-request (lit "name") fields [] refl refl,
        field-request (lit "description") fields [] refl refl,
      )

  pub job_request-open :
      (uuid name description : Text)
      → command_of uuid (job_request name description)
        ≡ open_job (record { id = uuid; name = name; description = description })
  unfolding command_of named open_of lit text_eq
  job_request-open uuid name description =
      let (o, n, d) = job_fields name description in
      ap (λ o. elim o [ none ↦ look | some op ↦ named op uuid (job_request name description) ]) o
      ∙ ap₂ (open_of uuid) n d

  pub create_job_id :
      (uuid name description : Text) (w : World) (res : Tree)
      → (handle uuid (job_request name description) w).0 ≡ ok res
      → get_string (lit "id") res ≡ some uuid
  unfolding handle dispatch lit text_eq
  create_job_id uuid name description w res h =
      let (o, n, d) = job_fields name description in
      let p = job_request name description in
      let run : handle uuid p w ≡ create_job uuid p w =
        ap
          (λ op.
            (lift (or_throw op (invalid_request (lit "Must supply an 'operation' value"))) >>= λ op.
            dispatch op uuid p)
              w)
          o in
      let made : (handle uuid p w).0 ≡ ok (put (lit "id") uuid empty) =
        ap (λ r. r.0) (run ∙ create_job_named uuid name description p w n d) in
      let same : res ≡ put (lit "id") uuid empty = ground (arith, h, made) in
      ap (get_string (lit "id")) same
      ∙ get_string-put_self (lit "id") uuid empty (unfold is_plain in refl)

  pub after_id :
      {A : Type 0} (res : Tree) (id : Text) (f : Text → Exec World A) (w : World)
      → get_string (lit "id") res ≡ some id
      → (response_id res >>= f) w ≡ f id w
  unfolding response_id
  after_id res id f w h = ap (λ o. (lift (or_throw o (other (lit "KeyError"))) >>= f) w) h

  pub implement_job-Serves :
      (uuid name description : Text) (plans : List Plan) (w : World) (id : Text)
      → All IsSound plans
      → WellFormed w
      → (implement_job uuid name description plans w).0 ≡ ok id
      → (id ≡ uuid)
        × Serves
            (deployment uuid name description plans)
            w
            (implement_job uuid name description plans w).1
  unfolding implement_job
  implement_job-Serves uuid name description plans w id a v h =
      let req = job_request name description in
      let (res, e, s, h1) = bind_done (handle uuid req) _ w id h in
      let w1 : World = (handle uuid req w).1 in
      let first =
        subst (λ c. Serves (c ∷ []) w w1) (job_request-open uuid name description)
          (call-Serves uuid req w res v e) in
      let next =
        after_id res uuid (λ id. implement_workers id plans [] >> pure id) w1
          (create_job_id uuid name description w res e) in
      let (u, e2, s2, h2) =
        bind_done (implement_workers uuid plans []) (λ u. pure uuid) w1 id
          (sym (ap (λ r. r.0) next) ∙ h1) in
      let rest = implement_workers-Serves uuid plans [] w1 a first.good e2 in
      (
        ground (arith, h2),
        subst (λ r. Serves (deployment uuid name description plans) w r.1) (sym (s ∙ next ∙ s2))
            (Serves-then first rest),
      )

  -- A job of the Python package whose `implement` returned has the identifier that the service
  -- generated for it, and has changed the registry of jobs and workers by opening that job and
  -- hiring each instance of each of its workers for it, in their order, and in no other way. The
  -- tables were well formed, each application is named by an absolute path, and the outputs of each
  -- worker are in the order of their names.
  pub deployed_job_registered :
      (uuid name description : Text) (plans : List Plan) (w : World) (id : Text)
      → All IsSound plans
      → WellFormed w
      → (implement_job uuid name description plans w).0 ≡ ok id
      → (id ≡ uuid)
        × (view (implement_job uuid name description plans w).1
            ≡ obey_all (deployment uuid name description plans) (view w))
  deployed_job_registered uuid name description plans w id a v h =
      let (same, served) = implement_job-Serves uuid name description plans w id a v h in
      (same, served.shows)
