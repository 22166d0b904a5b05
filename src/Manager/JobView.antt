-- ===== src/Manager/JobView.antt =====
-- What get_job of src/manager.C shows of a job that create_job made.
use wye.Common.{
  ◌≡◌, refl, ap, ◌∙◌, true, false, none, some, ◌++◌, arith, if◌then◌else◌, is_empty, Bool-cases,
  inl, inr,
}
use wye.OrderedMap.{Map, find, insert}
use wye.OrderedMap.Laws.{find-insert, same_self}
use wye.Text.{Text, lit, text_eq}
use wye.Text.Order.{text_order}
use wye.Outcome.{ok}
use wye.Ptree.{PropertyTree, is_plain}
use wye.Ptree.Laws.{
  get_string-empty, get_string-put_self, get_string-put_ne, get_string-add_child,
  get_child-add_child_self, get_child-put_ne, get_child-empty,
}
use wye.Kernel.{Kernel}
use wye.Job.{Job}
use wye.Process.{Process}
use wye.Manager.State.{World}
use wye.Manager.Jobs.{create_job, get_job, describe_job, describe_workers_of, put_if}
use wye.Manager.Listings.{PlainKeys, shown_of, children-describe_workers_of}

module _ ⦃k : Kernel⦄ ⦃t : PropertyTree⦄ where
  open t use {
    Tree, empty, get_string, get_child, children, put, add_child, children-empty,
    children-add_child,
  }

  name_put_if :
      (key v : Text) (e : Tree)
      → is_plain key ≡ true
      → get_string key e ≡ none
      → get_string key (put_if key v e) ≡ (if is_empty v then none else some v)
  unfolding put_if
  name_put_if key v e h n = elim (Bool-cases (is_empty v)) [
    | inl c ↦ rw c n
    | inr c ↦ rw c (get_string-put_self key v e h)
  ]

  past_put_if :
      (key other v : Text) (e : Tree)
      → is_plain key ≡ true
      → is_plain other ≡ true
      → text_eq other key ≡ false
      → (get_string key (put_if other v e) ≡ get_string key e)
        × (get_child key (put_if other v e) ≡ get_child key e)
  unfolding put_if
  past_put_if key other v e h g ne = elim (Bool-cases (is_empty v)) [
    | inl c ↦ (rw c, rw c)
    | inr c ↦ (
      rw c (get_string-put_ne key other v e h g ne),
      rw c (get_child-put_ne key other v e h g ne),
    )
  ]

  -- What the answer to get-job shows: the job's name and description unless empty, and as its
  -- workers those of the table whose job it is, in order.
  pub record ShowsJob (j : Job) (m : Map Text Process) (r : Tree) : Type 0 where
    pub shows_name : get_string (lit "name") r ≡ (if is_empty j.name then none else some j.name)
    pub shows_description :
        get_string (lit "description") r
        ≡ (if is_empty j.description then none else some j.description)
    pub workers_child : Tree
    pub has_workers : get_child (lit "workers") r ≡ some workers_child
    pub shows_workers : children workers_child ≡ shown_of j.id m

  pub describe_job-name :
      (j : Job)
      → get_string (lit "name") (describe_job j empty)
        ≡ (if is_empty j.name then none else some j.name)
  unfolding describe_job
  describe_job-name j =
      (past_put_if (lit "name") (lit "description") j.description _ (unfold is_plain lit in refl)
        (unfold is_plain lit in refl) (unfold lit text_eq in refl)).0
      ∙ name_put_if (lit "name") j.name empty (unfold is_plain lit in refl)
          (get_string-empty (lit "name") (unfold is_plain lit in refl))

  pub describe_job-description :
      (j : Job)
      → get_string (lit "description") (describe_job j empty)
        ≡ (if is_empty j.description then none else some j.description)
  unfolding describe_job
  describe_job-description j =
      name_put_if (lit "description") j.description _ (unfold is_plain lit in refl) (
        (past_put_if (lit "description") (lit "name") j.name empty (unfold is_plain lit in refl)
          (unfold is_plain lit in refl) (unfold lit text_eq in refl)).0
        ∙ get_string-empty (lit "description") (unfold is_plain lit in refl))

  describe_job-workers : (j : Job) → get_child (lit "workers") (describe_job j empty) ≡ none
  unfolding describe_job
  describe_job-workers j =
      (past_put_if (lit "workers") (lit "description") j.description _ (unfold is_plain lit in refl)
        (unfold is_plain lit in refl) (unfold lit text_eq in refl)).1
      ∙ (past_put_if (lit "workers") (lit "name") j.name empty (unfold is_plain lit in refl)
          (unfold is_plain lit in refl) (unfold lit text_eq in refl)).1
      ∙ get_child-empty (lit "workers") (unfold is_plain lit in refl)

  abbrev get_job_answer : Job → Map Text Process → Text → Tree
  get_job_answer j m id =
      add_child (lit "workers") (describe_workers_of id m empty) (describe_job j empty)

  get_job_answer-ShowsJob :
      (j : Job) (m : Map Text Process) → PlainKeys m → ShowsJob j m (get_job_answer j m j.id)
  get_job_answer-ShowsJob j m h = record {
    shows_name =
        get_string-add_child (lit "name") (lit "workers") _ _ (unfold is_plain lit in refl)
          (unfold is_plain lit in refl) (unfold lit text_eq in refl)
        ∙ describe_job-name j;
    shows_description =
        get_string-add_child (lit "description") (lit "workers") _ _ (unfold is_plain lit in refl)
          (unfold is_plain lit in refl) (unfold lit text_eq in refl)
        ∙ describe_job-description j;
    workers_child = describe_workers_of j.id m empty;
    has_workers =
        get_child-add_child_self (lit "workers") _ _ (unfold is_plain lit in refl)
          (describe_job-workers j);
    shows_workers =
        children-describe_workers_of j.id m empty h ∙ ap (λ l. l ++ shown_of j.id m) children-empty;
  }

  get_job_known :
      (p : Tree) (w : World) (id : Text) (j : Job)
      → get_string (lit "id") p ≡ some id
      → find id w.jobs ≡ some j
      → get_job p w ≡ (ok (get_job_answer j w.workers id), w)
  unfolding get_job
  get_job_known p w id j h f = ground arith

  pub create_job_named :
      (uuid name description : Text) (p : Tree) (w : World)
      → get_string (lit "name") p ≡ some name
      → get_string (lit "description") p ≡ some description
      → create_job uuid p w ≡ (
        ok (put (lit "id") uuid empty),
        record w {
          jobs = insert uuid (record { id = uuid; name = name; description = description }) w.jobs;
        },
      )
  unfolding create_job
  create_job_named uuid name description p w h g = ground arith

  -- A job that is created with a name and a description is answered by its new identifier, and a
  -- get-job with that identifier then answers with that name and that description, unless they
  -- are empty, and with the workers of the table whose job it is. It changes nothing. No
  -- identifier of a worker is empty or holds a dot.
  pub create_then_get :
      (uuid name description : Text) (p p' : Tree) (w : World)
      → PlainKeys w.workers
      → get_string (lit "name") p ≡ some name
      → get_string (lit "description") p ≡ some description
      → get_string (lit "id") p' ≡ some uuid
      → let (r, w') = create_job uuid p w in
        let (e, w'') = get_job p' w' in
        (r ≡ ok (put (lit "id") uuid empty))
        × (get_string (lit "id") (put (lit "id") uuid empty) ≡ some uuid)
        × ((answer : Tree) × (e ≡ ok answer)
            × ShowsJob
                (record { id = uuid; name = name; description = description })
                w.workers
                answer)
        × (w'' ≡ w')
  create_then_get uuid name description p p' w plain h g f =
      let j : Job = record { id = uuid; name = name; description = description } in
      let w' : World = record w { jobs = insert uuid j w.jobs } in
      let known : find uuid w'.jobs ≡ some j =
        find-insert uuid uuid j w.jobs ∙ (rw (same_self uuid)) in
      rw (create_job_named uuid name description p w h g, get_job_known p' w' uuid j f known)
        (
          refl,
          get_string-put_self (lit "id") uuid empty (unfold is_plain lit in refl),
          (get_job_answer j w.workers uuid, refl, get_job_answer-ShowsJob j w.workers plain),
          refl,
        )
