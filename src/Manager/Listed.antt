-- ===== src/Manager/Listed.antt =====
-- The answers of src/manager.C to get-workers and get-jobs, read back.

use wye.Common.{
  ◌≡◌, refl, sym, ap, subst, ◌∙◌, none, some, List, [], ◌∷◌, ◌++◌, map, if◌then◌else◌, is_empty,
}
use wye.OrderedMap.{Map, keys}
use wye.OrderedMap.Laws.{IsSorted}
use wye.OrderedMap.Keys.{keys-IsSorted}
use wye.Text.{Text, lit, text_eq}
use wye.Text.Order.{text_order}
use wye.Outcome.{ok}
use wye.Ptree.{PropertyTree}
use wye.Kernel.{Kernel}
use wye.Job.{Job}
use wye.Process.{Process}
use wye.Process.Report.{describe}
use wye.Process.Report.Fields.{state_text, describe_shows}
use wye.Manager.State.{World}
use wye.Manager.{handle, dispatch}
use wye.Manager.Workers.{get_workers, describe_workers}
use wye.Manager.Jobs.{get_jobs, describe_jobs, describe_job}
use wye.Manager.Listings.{
  PlainKeys, shown, shown_jobs, children-describe_workers, children-describe_jobs,
}
use wye.Manager.JobView.{describe_job-name, describe_job-description}

module _ {V T : Type 0} (f : V → T) where
  abbrev each : Map Text V → List (Text × T)
  each m = map (λ e. (e.0, f e.1)) m

  keys-each : (m : Map Text V) → keys (each m) ≡ keys m
  keys-each [] = refl
  keys-each ((i, v) ∷ m) = ap (λ l. i ∷ l) (keys-each m)

module _ ⦃k : Kernel⦄ ⦃t : PropertyTree⦄ where
  open t use {Tree, empty, get_string, get_child, children, children-empty, get_child-first}

  -- A tree with the fields of a worker: the name is left out when it is empty.
  abbrev pub ShowsWorker : Process → Tree → Type 0
  ShowsWorker q c =
      (get_string (lit "id") c ≡ some q.id)
      × (get_string (lit "job_id") c ≡ some q.job_id)
      × (get_string (lit "exec") c ≡ some q.exec)
      × (get_string (lit "state") c ≡ some (state_text q.state))
      × (get_string (lit "name") c ≡ (if is_empty q.name then none else some q.name))

  -- A tree with the fields of a job.
  abbrev pub ShowsListedJob : Job → Tree → Type 0
  ShowsListedJob j c =
      (get_string (lit "name") c ≡ (if is_empty j.name then none else some j.name))
      × (get_string (lit "description") c
          ≡ (if is_empty j.description then none else some j.description))

  -- One child for each entry of the table, in its order, under its key, with what shows it.
  abbrev pub Shown : {V : Type 0} → (V → Tree → Type 0) → Map Text V → List (Text × Tree) → Type 0
  Shown Shows [] [] = Unit
  Shown Shows [] (c ∷ cs) = ⊥
  Shown Shows (e ∷ m) [] = ⊥
  Shown Shows ((id, v) ∷ m) ((key, c) ∷ cs) = (key ≡ id) × Shows v c × Shown Shows m cs

  -- The children of a tree are in increasing order of their keys, and are the entries of the table.
  abbrev pub Lists : {V : Type 0} → (V → Tree → Type 0) → Map Text V → Tree → Type 0
  Lists Shows m r = IsSorted (children r) × Shown Shows m (children r)

  module _ {V : Type 0} (Shows : V → Tree → Type 0) (f : V → Tree)
      (shows : (v : V) → Shows v (f v)) where
    each-Shown : (m : Map Text V) → Shown Shows m (each f m)
    each-Shown [] = tt
    each-Shown ((id, v) ∷ m) = (refl, shows v, each-Shown m)

    each-Lists : (m : Map Text V) (r : Tree) → IsSorted m → children r ≡ each f m → Lists Shows m r
    each-Lists m r srt e = (
      keys-IsSorted m (children r) (ap keys e ∙ keys-each f m) srt,
      subst (Shown Shows m) (sym e) (each-Shown m),
    )

  handle_listing :
      (uuid op : Text) (p : Tree) (w : World)
      → get_string (lit "operation") p ≡ some op
      → handle uuid p w ≡ dispatch op uuid p w
  unfolding handle
  handle_listing uuid op p w h = rw (h, handle) refl

  -- A request for the listing of the workers changes nothing and is answered by a tree whose
  -- children are in increasing order of their keys: one for each worker of the table, under its
  -- identifier, in which its identifier, job, program, state and name can be read, the name unless
  -- it is empty. The same holds for the listing of the jobs, with their names and descriptions.
  -- Both tables are sorted, and no identifier is empty or holds a dot.
  pub listings_complete :
      (uuid : Text) (p q : Tree) (w : World)
      → get_string (lit "operation") p ≡ some (lit "get-workers")
      → get_string (lit "operation") q ≡ some (lit "get-jobs")
      → IsSorted w.workers
      → IsSorted w.jobs
      → PlainKeys w.workers
      → PlainKeys w.jobs
      → ((r : Tree) × (handle uuid p w ≡ (ok r, w)) × Lists ShowsWorker w.workers r)
        × ((r : Tree) × (handle uuid q w ≡ (ok r, w)) × Lists ShowsListedJob w.jobs r)
  unfolding dispatch get_workers get_jobs lit text_eq
  listings_complete uuid p q w e d s z h g = (
    (
      describe_workers w.workers empty,
      handle_listing uuid (lit "get-workers") p w e,
      each-Lists ShowsWorker (λ q. describe q empty) (λ q. describe_shows q) w.workers _ s
          (children-describe_workers w.workers empty h
            ∙ ap (λ l. l ++ shown w.workers) children-empty),
    ),
    (
      describe_jobs w.jobs empty,
      handle_listing uuid (lit "get-jobs") q w d,
      each-Lists ShowsListedJob (λ j. describe_job j empty)
          (λ j. (describe_job-name j, describe_job-description j)) w.jobs _ z
          (children-describe_jobs w.jobs empty g ∙ ap (λ l. l ++ shown_jobs w.jobs) children-empty),
    ),
  )
