-- ===== src/Process/Report/Fields.antt =====
-- What process::describe of src/process.C shows of a worker.
use wye.Common.{
  ◌≡◌, refl, ap, ◌∙◌, true, false, none, some, List, [], ◌∷◌, if◌then◌else◌, is_empty, Bool-cases,
  inl, inr,
}
use wye.OrderedMap.{Map}
use wye.Text.{Text, lit, text_eq}
use wye.Ptree.{PropertyTree, is_plain}
use wye.Ptree.Laws.{get_string-empty, get_string-put_self, get_string-put_ne, get_string-add_child}
use wye.Worker.{WorkerState, running, stopped}
use wye.Process.{Process}
use wye.Process.Describe.{put_inputs}
use wye.Process.Report.{describe, put_state, put_name, put_args, put_outputs}

abbrev pub state_text : WorkerState → Text
state_text running = lit "RUNNING"
state_text stopped = lit "STOPPED"

module _ ⦃t : PropertyTree⦄ where
  open t use {Tree, empty, get_string, put, add_child}

  -- A key that the lists of a description do not use.
  record Scalar (key : Text) : Type 0 where
    plain : is_plain key ≡ true
    not_args : text_eq (lit "args") key ≡ false
    not_inputs : text_eq (lit "inputs") key ≡ false
    not_outputs : text_eq (lit "outputs") key ≡ false

  module _ (key : Text) (sc : Scalar key) where
    past_args : (args : List Text) (p : Tree) → get_string key (put_args args p) ≡ get_string key p
    unfolding put_args
    past_args [] p = refl
    past_args (a ∷ l) p =
        get_string-add_child key (lit "args") _ p sc.plain (unfold is_plain lit in refl) sc.not_args

    past_inputs :
        (m : Map Text Text) (p : Tree) → get_string key (put_inputs m p) ≡ get_string key p
    unfolding put_inputs
    past_inputs [] p = refl
    past_inputs (a ∷ l) p =
        get_string-add_child key (lit "inputs") _ p sc.plain (unfold is_plain lit in refl)
          sc.not_inputs

    past_outputs :
        (q : Process) (p : Tree) → get_string key (put_outputs q.outputs p) ≡ get_string key p
    unfolding put_outputs
    past_outputs q p = elim (Bool-cases (is_empty q.outputs)) [
      | inl e ↦ rw e
      | inr e ↦ rw e (
          get_string-add_child key (lit "outputs") _ p sc.plain (unfold is_plain lit in refl)
            sc.not_outputs)
    ]

    past_lists :
        (q : Process) (p : Tree)
        → get_string key (put_outputs q.outputs (put_inputs q.inputs (put_args q.args p)))
          ≡ get_string key p
    past_lists q p = past_outputs q _ ∙ past_inputs q.inputs _ ∙ past_args q.args p

  put_state_lem :
      (st : WorkerState) (p : Tree) → put_state st p ≡ put (lit "state") (state_text st) p
  unfolding put_state
  put_state_lem running p = refl
  put_state_lem stopped p = refl

  state_key : Scalar (lit "state")
  unfolding lit text_eq is_plain
  state_key = record { plain = refl; not_args = refl; not_inputs = refl; not_outputs = refl }

  exec_key : Scalar (lit "exec")
  unfolding lit text_eq is_plain
  exec_key = record { plain = refl; not_args = refl; not_inputs = refl; not_outputs = refl }

  job_key : Scalar (lit "job_id")
  unfolding lit text_eq is_plain
  job_key = record { plain = refl; not_args = refl; not_inputs = refl; not_outputs = refl }

  name_key : Scalar (lit "name")
  unfolding lit text_eq is_plain
  name_key = record { plain = refl; not_args = refl; not_inputs = refl; not_outputs = refl }

  id_key : Scalar (lit "id")
  unfolding lit text_eq is_plain
  id_key = record { plain = refl; not_args = refl; not_inputs = refl; not_outputs = refl }

  -- A field that another key's `put` leaves alone.
  past :
      (key other v : Text) (p : Tree)
      → Scalar key
      → Scalar other
      → text_eq other key ≡ false
      → get_string key (put other v p) ≡ get_string key p
  past key other v p a b ne = get_string-put_ne key other v p a.plain b.plain ne

  module _ (q : Process) where
    abbrev with_id : Tree
    with_id = put (lit "id") q.id empty

    abbrev with_job : Tree
    with_job = put (lit "job_id") q.job_id (put_name q.name with_id)

    abbrev with_exec : Tree
    with_exec = put (lit "exec") q.exec with_job

    under_lists :
        (key : Text)
        → Scalar key
        → get_string key (describe q empty)
          ≡ get_string key (put (lit "state") (state_text q.state) with_exec)
    unfolding describe
    under_lists key sc =
        past_lists key sc q _ ∙ ap (get_string key) (put_state_lem q.state with_exec)

    under_state :
        (key : Text)
        → Scalar key
        → text_eq (lit "state") key ≡ false
        → get_string key (describe q empty) ≡ get_string key with_exec
    under_state key sc ne =
        under_lists key sc ∙ past key (lit "state") (state_text q.state) with_exec sc state_key ne

    under_exec :
        (key : Text)
        → Scalar key
        → text_eq (lit "state") key ≡ false
        → text_eq (lit "exec") key ≡ false
        → get_string key (describe q empty) ≡ get_string key with_job
    under_exec key sc ne ne' =
        under_state key sc ne ∙ past key (lit "exec") q.exec with_job sc exec_key ne'

    under_job :
        (key : Text)
        → Scalar key
        → text_eq (lit "state") key ≡ false
        → text_eq (lit "exec") key ≡ false
        → text_eq (lit "job_id") key ≡ false
        → get_string key (describe q empty) ≡ get_string key (put_name q.name with_id)
    under_job key sc ne ne' ne'' =
        under_exec key sc ne ne' ∙ past key (lit "job_id") q.job_id _ sc job_key ne''

    id_under_name : get_string (lit "id") (put_name q.name with_id) ≡ some q.id
    unfolding put_name
    id_under_name = elim (Bool-cases (is_empty q.name)) [
      | inl e ↦ rw e (get_string-put_self (lit "id") q.id empty id_key.plain)
      | inr e ↦ rw e (
          past (lit "id") (lit "name") q.name with_id id_key name_key (unfold lit text_eq in refl)
          ∙ get_string-put_self (lit "id") q.id empty id_key.plain)
    ]

    name_shown :
        get_string (lit "name") (put_name q.name with_id)
        ≡ (if is_empty q.name then none else some q.name)
    unfolding put_name
    name_shown = elim (Bool-cases (is_empty q.name)) [
      | inl e ↦ rw e (
          past (lit "name") (lit "id") q.id empty name_key id_key (unfold lit text_eq in refl)
          ∙ get_string-empty (lit "name") name_key.plain)
      | inr e ↦ rw e (get_string-put_self (lit "name") q.name with_id name_key.plain)
    ]

    -- The description of a worker, read back field by field, shows its identifier, its job, its
    -- program, its state, and its name unless that is empty.
    pub describe_shows :
        (get_string (lit "id") (describe q empty) ≡ some q.id)
        × (get_string (lit "job_id") (describe q empty) ≡ some q.job_id)
        × (get_string (lit "exec") (describe q empty) ≡ some q.exec)
        × (get_string (lit "state") (describe q empty) ≡ some (state_text q.state))
        × (get_string (lit "name") (describe q empty)
            ≡ (if is_empty q.name then none else some q.name))
    describe_shows = (
      under_job (lit "id") id_key (unfold lit text_eq in refl) (unfold lit text_eq in refl)
            (unfold lit text_eq in refl)
          ∙ id_under_name,
      under_exec (lit "job_id") job_key (unfold lit text_eq in refl) (unfold lit text_eq in refl)
          ∙ get_string-put_self (lit "job_id") q.job_id _ job_key.plain,
      under_state (lit "exec") exec_key (unfold lit text_eq in refl)
          ∙ get_string-put_self (lit "exec") q.exec with_job exec_key.plain,
      under_lists (lit "state") state_key
          ∙ get_string-put_self (lit "state") (state_text q.state) with_exec state_key.plain,
      under_job (lit "name") name_key (unfold lit text_eq in refl) (unfold lit text_eq in refl)
            (unfold lit text_eq in refl)
          ∙ name_shown,
    )
