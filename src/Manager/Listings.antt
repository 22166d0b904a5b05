-- ===== src/Manager/Listings.antt =====
-- What the requests that only look of src/manager.C show of the tables.
use wye.Common.{
  ◌≡◌, sym, ap, ◌∙◌, true, List, [], ◌∷◌, ◌++◌, append-nil, append_assoc, map, if◌then◌else◌,
  Bool-cases, inl, inr,
}
use wye.OrderedMap.{Map}
use wye.OrderedMap.Entries.{Entries}
use wye.Text.{Text, text_eq}
use wye.Text.Order.{text_order}
use wye.Ptree.{PropertyTree, is_plain}
use wye.Kernel.{Kernel}
use wye.Job.{Job}
use wye.Process.{Process}
use wye.Process.Report.{describe}
use wye.Manager.Workers.{describe_workers}
use wye.Manager.Jobs.{describe_jobs, describe_job, describe_workers_of}

abbrev pub PlainKeys {ℓ} : {V : Type ℓ} → Map Text V → Type 0
PlainKeys m = Entries (λ key _. is_plain key ≡ true) m

module _ ⦃k : Kernel⦄ ⦃t : PropertyTree⦄ where
  open t use {
    Tree, empty, get_string, get_child, children, put, add_child, children-empty,
    children-add_child,
  }

  -- One child for each worker, under its key, in the order of the table.
  abbrev pub shown : Map Text Process → List (Text × Tree)
  shown m = map (λ e. (e.0, describe e.1 empty)) m

  abbrev pub shown_jobs : Map Text Job → List (Text × Tree)
  shown_jobs m = map (λ e. (e.0, describe_job e.1 empty)) m

  -- The same for the workers of one job.
  pub shown_of : Text → Map Text Process → List (Text × Tree)
  shown_of id [] = []
  shown_of id ((key, q) ∷ m) =
      let rest = shown_of id m in
      if text_eq q.job_id id then (key, describe q empty) ∷ rest else rest

  pub children-describe_workers :
      (m : Map Text Process) (r : Tree)
      → PlainKeys m
      → children (describe_workers m r) ≡ children r ++ shown m
  unfolding describe_workers
  children-describe_workers [] r h = sym (append-nil (children r))
  children-describe_workers ((key, q) ∷ m) r h =
      children-describe_workers m (add_child key (describe q empty) r) h.1
      ∙ ap (λ l. l ++ shown m) (children-add_child key (describe q empty) r h.0)
      ∙ append_assoc (children r) ((key, describe q empty) ∷ []) (shown m)

  pub children-describe_jobs :
      (m : Map Text Job) (r : Tree)
      → PlainKeys m
      → children (describe_jobs m r) ≡ children r ++ shown_jobs m
  unfolding describe_jobs
  children-describe_jobs [] r h = sym (append-nil (children r))
  children-describe_jobs ((key, j) ∷ m) r h =
      children-describe_jobs m (add_child key (describe_job j empty) r) h.1
      ∙ ap (λ l. l ++ shown_jobs m) (children-add_child key (describe_job j empty) r h.0)
      ∙ append_assoc (children r) ((key, describe_job j empty) ∷ []) (shown_jobs m)

  pub children-describe_workers_of :
      (id : Text) (m : Map Text Process) (r : Tree)
      → PlainKeys m
      → children (describe_workers_of id m r) ≡ children r ++ shown_of id m
  unfolding describe_workers_of shown_of
  children-describe_workers_of id [] r h = sym (append-nil (children r))
  children-describe_workers_of id ((key, q) ∷ m) r h = elim (Bool-cases (text_eq q.job_id id)) [
    | inl e ↦ rw e (
        children-describe_workers_of id m (add_child key (describe q empty) r) h.1
        ∙ ap (λ l. l ++ shown_of id m) (children-add_child key (describe q empty) r h.0)
        ∙ append_assoc (children r) ((key, describe q empty) ∷ []) (shown_of id m))
    | inr e ↦ rw e (children-describe_workers_of id m r h.1)
  ]
