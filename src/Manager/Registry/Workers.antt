-- ===== src/Manager/Registry/Workers.antt =====
-- create_worker and delete_worker of src/manager.C as changes of the registry.
use wye.Common.{◌≡◌, refl, sym, ap, subst, ◌∙◌, arith, Option, none, some, inl, inr, Option-cases}
use wye.OrderedMap.{find, erase}
use wye.OrderedMap.Laws.{same→eq}
use wye.Text.{Text, lit}
use wye.Text.Order.{text_order}
use wye.Outcome.{Outcome, ok, throws, blocks, aborts, continue}
use wye.Outcome.Laws.{bind-keeps}
use wye.Ptree.{PropertyTree}
use wye.Kernel.{Kernel}
use wye.Process.{Process, Model, run_model, destroy}
use wye.Process.Running.{run_model-same}
use wye.Manager.State.{World}
use wye.Manager.Workers.{
  create_worker, start_worker, store_worker, on_worker, catch_all, prepare_worker, delete_worker,
}
use wye.Manager.Tables.{workers-store, jobs-store}
use wye.Manager.DeleteWorker.{delete_known_worker}
use wye.Manager.Invariant.Requests.{prepare_worker-new}
use wye.Manager.Registry.{hire, fire, look, obey, view, view_lem, hire_of, by_id}
use wye.Manager.Registry.Lookups.{job_of, owner-insert, owner-erase}
use wye.Manager.Registry.Shows.{Shows, look-Shows, delete_nameless}

module _ ⦃k : Kernel⦄ ⦃t : PropertyTree⦄ where
  open k use {Os}
  open t use {Tree, get_string, empty}

  store_worker-Shows : (q : Process) (w : World) → Shows (hire q.id q.job_id) w (store_worker q w).1
  unfolding obey view
  store_worker-Shows q w =
      view_lem (store_worker q w).1 (obey (hire q.id q.job_id) (view w))
        (λ i. ap (find i) (jobs-store w q))
        (λ i. ap (λ m. job_of (find i m)) (workers-store w q) ∙ owner-insert i q.id q w.workers)

  on_worker-Shows :
      (m : Model) (q : Process) (w w' : World)
      → Shows (hire q.id q.job_id) w w'
      → Shows (hire q.id q.job_id) w (on_worker q (run_model m) w').1
  unfolding obey view on_worker
  on_worker-Shows m q w w' h =
      view_lem (on_worker q (run_model m) w').1 (obey (hire q.id q.job_id) (view w))
        (λ i. ap (λ r. r.jobs i) h)
        λ i. ground (
          arith,
          owner-insert i q.id (run_model m (q, w'.os)).1.0 w'.workers,
          (run_model-same q w'.os w'.os m).1,
          ap (λ r. r.owners i) h,
        )

  start_worker-Shows : (q : Process) (w : World) → Shows (hire q.id q.job_id) w (start_worker q w).1
  unfolding start_worker catch_all
  start_worker-Shows q w =
      bind-keeps (λ _. on_worker q (run_model q.model)) (Shows (hire q.id q.job_id) w)
        (store_worker q) w (store_worker-Shows q w)
        (λ _ _. on_worker-Shows q.model q w _ (store_worker-Shows q w))

  pub create_worker-Shows :
      (uuid : Text) (p : Tree) (w : World)
      → Shows (hire_of uuid (prepare_worker uuid p)) w (create_worker uuid p w).1
  unfolding create_worker hire_of
  create_worker-Shows uuid p w = go (prepare_worker uuid p) refl
    where
      go :
          (o : Outcome Process)
          → prepare_worker uuid p ≡ o
          → Shows (hire_of uuid o) w (continue start_worker o w).1
      go (ok q) e =
          subst (λ i. Shows (hire i q.job_id) w (start_worker q w).1)
            (prepare_worker-new uuid p q e).0 (start_worker-Shows q w)
      go (throws e') e = look-Shows w
      go blocks e = look-Shows w
      go aborts e = look-Shows w

  -- A worker leaves the table.
  fired-Shows :
      (id : Text) (w : World) (s : Os)
      → Shows (fire id) w (record w { workers = erase id w.workers; os = s })
  unfolding obey view
  fired-Shows id w s =
      view_lem (record w { workers = erase id w.workers; os = s }) (obey (fire id) (view w))
        (λ i. refl) (λ i. owner-erase i id w.workers)

  -- To remove a worker that is not there changes nothing.
  unknown-Shows : (id : Text) (w : World) → find id w.workers ≡ none → Shows (fire id) w w
  unfolding obey view
  unknown-Shows id w h =
      view_lem w (obey (fire id) (view w)) (λ i. refl) (λ i. ground (arith, same→eq i id))

  delete_unknown :
      (p : Tree) (w : World) (id : Text)
      → get_string (lit "id") p ≡ some id
      → find id w.workers ≡ none
      → (delete_worker p w).1 ≡ w
  unfolding delete_worker
  delete_unknown p w id h f = ground arith

  pub delete_worker-Shows :
      (p : Tree) (w : World) → Shows (by_id fire (get_string (lit "id") p)) w (delete_worker p w).1
  unfolding by_id
  delete_worker-Shows p w = go (get_string (lit "id") p) refl
    where
      go :
          (o : Option Text)
          → get_string (lit "id") p ≡ o
          → Shows (by_id fire o) w (delete_worker p w).1
      go none h = subst (Shows look w) (sym (delete_nameless p w h).0) (look-Shows w)
      go (some id) h = elim (Option-cases (find id w.workers)) [
        | inl f ↦ subst (Shows (fire id) w) (sym (delete_unknown p w id h f)) (unknown-Shows id w f)
        | inr (q, f) ↦
            subst (λ r. Shows (fire id) w r.1) (sym (delete_known_worker p w id q h f))
              (fired-Shows id w (destroy q w.os).1)
      ]
