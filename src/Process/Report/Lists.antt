-- ===== src/Process/Report/Lists.antt =====
-- The address lists in the description that process::describe of src/process.C makes of a worker.
use wye.Common.{◌≡◌, refl, ◌∙◌, true, false, none, some, List, [], ◌∷◌, if◌then◌else◌, is_empty}
use wye.OrderedMap.{Map}
use wye.Text.{Text, lit, text_eq}
use wye.Ptree.{PropertyTree, is_plain}
use wye.Ptree.Laws.{
  get_child-empty, get_child-put_ne, get_child-add_child_self, get_child-add_child,
}
use wye.Worker.{AddressList, WorkerState, running, stopped}
use wye.Process.{Process}
use wye.Process.Describe.{put_inputs}
use wye.Process.Report.{describe, put_state, put_name, put_args, put_outputs, add_outputs}

module _ ⦃t : PropertyTree⦄ where
  open t use {Tree, empty, get_child, put, add_child}

  outputs_key : is_plain (lit "outputs") ≡ true
  unfolding is_plain lit
  outputs_key = refl

  -- A field of another name.
  past_field :
      (key v : Text) (p : Tree)
      → is_plain key ≡ true
      → text_eq key (lit "outputs") ≡ false
      → get_child (lit "outputs") (put key v p) ≡ get_child (lit "outputs") p
  past_field key v p plain ne = get_child-put_ne (lit "outputs") key v p outputs_key plain ne

  past_list :
      (key : Text) (c p : Tree)
      → is_plain key ≡ true
      → text_eq key (lit "outputs") ≡ false
      → get_child (lit "outputs") (add_child key c p) ≡ get_child (lit "outputs") p
  past_list key c p plain ne = get_child-add_child (lit "outputs") key c p outputs_key plain ne

  past_state :
      (st : WorkerState) (p : Tree)
      → get_child (lit "outputs") (put_state st p) ≡ get_child (lit "outputs") p
  unfolding put_state is_plain lit text_eq
  past_state running p = past_field (lit "state") (lit "RUNNING") p refl refl
  past_state stopped p = past_field (lit "state") (lit "STOPPED") p refl refl

  past_name :
      (name : Text) (p : Tree)
      → get_child (lit "outputs") (put_name name p) ≡ get_child (lit "outputs") p
  unfolding put_name is_plain lit text_eq
  past_name [] p = refl
  past_name (c ∷ cs) p = past_field (lit "name") (c ∷ cs) p refl refl

  past_args :
      (args : List Text) (p : Tree)
      → get_child (lit "outputs") (put_args args p) ≡ get_child (lit "outputs") p
  unfolding put_args is_plain lit text_eq
  past_args [] p = refl
  past_args (a ∷ l) p = past_list (lit "args") _ p refl refl

  past_inputs :
      (m : Map Text Text) (p : Tree)
      → get_child (lit "outputs") (put_inputs m p) ≡ get_child (lit "outputs") p
  unfolding put_inputs is_plain lit text_eq
  past_inputs [] p = refl
  past_inputs (i ∷ m) p = past_list (lit "inputs") _ p refl refl

  with_outputs :
      (m : Map Text AddressList) (p : Tree)
      → get_child (lit "outputs") p ≡ none
      → get_child (lit "outputs") (put_outputs m p)
        ≡ (if is_empty m then none else some (add_outputs m empty))
  unfolding put_outputs
  with_outputs [] p h = h
  with_outputs (e ∷ m) p h = get_child-add_child_self (lit "outputs") _ p outputs_key h

  -- A description has the child `outputs` when the worker has address lists.
  pub outputs-describe :
      (q : Process)
      → get_child (lit "outputs") (describe q empty)
        ≡ (if is_empty q.outputs then none else some (add_outputs q.outputs empty))
  unfolding describe is_plain lit text_eq
  outputs-describe q = with_outputs q.outputs _ (
      past_inputs q.inputs _
      ∙ past_args q.args _
      ∙ past_state q.state _
      ∙ past_field (lit "exec") q.exec _ refl refl
      ∙ past_field (lit "job_id") q.job_id _ refl refl
      ∙ past_name q.name _
      ∙ past_field (lit "id") q.id _ refl refl
      ∙ get_child-empty (lit "outputs") outputs_key)
