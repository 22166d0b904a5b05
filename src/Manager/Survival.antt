-- ===== src/Manager/Survival.antt =====
-- When no request on src/manager.C can end the whole program.
use wye.Common.{
  ◌≡◌, ◌≢◌, refl, sym, ap, ◌∙◌, arith, Option, none, some, [], ◌∷◌, inl, inr, Bool-cases,
  Option-cases,
}
use wye.OrderedMap.{Map, find, same}
use wye.OrderedMap.Laws.{IsSorted}
use wye.Text.{Text, lit}
use wye.Text.Order.{text_order}
use wye.Outcome.{Outcome, ok, throws, blocks, aborts}
use wye.Ptree.{PropertyTree}
use wye.Kernel.{Kernel, Child, Launch, started, refused}
use wye.Process.{Process, Model, destroy, run_model}
use wye.Process.Lifetime.{Stoppable, destroy_returns}
use wye.Process.Running.{run_model-refused, run_model-ne-aborts}
use wye.Manager.Prepared.{prepare_worker-Answers}
use wye.Process.Startup.Acceptance.{read_lines-ne-aborts}
use wye.Manager.State.{World}
use wye.Manager.Workers.{
  create_worker, get_workers, delete_worker, as_runtime_error, prepare_worker,
}
use wye.Manager.Jobs.{create_job, get_job, get_jobs, delete_job, erase_all_of}
use wye.Manager.Deletion.{destroy_job, keep, continue_pass, erase_all_of-eq-pass}
use wye.Manager.DeleteWorker.{after_destroy, delete_known_worker}
use wye.Manager.Invariant.Requests.{prepare_worker-new}
use wye.Manager.Start.{create_worker-fresh}
use wye.Manager.Monitor.Stop.{Apart, Apart-destroy}
use wye.Manager.{handle, dispatch}

module _ ⦃k : Kernel⦄ where
  open k use {Os, launch}

  find-Apart :
      (id : Text) (m : Map Text Process) (s : Os) (q : Process)
      → Apart m s
      → find id m ≡ some q
      → (c : Child) → q.proc ≡ some c
      → Stoppable c.pid s
  unfolding find
  find-Apart id [] s q a f = absurd (cc)
  find-Apart id ((key, p) ∷ m) s q a f = elim (Bool-cases (same id key)) [
    | inl hit ↦ λ c pr. (a.0 c (ground arith)).0
    | inr miss ↦ find-Apart id m s q a.1 (ground arith)
  ]

  destroy_job-returns :
      (id : Text) (m : Map Text Process) (s : Os) → Apart m s → (destroy_job id m s).0 ≡ ok tt
  unfolding destroy_job keep continue_pass
  destroy_job-returns id [] s a = refl
  destroy_job-returns id ((key, q) ∷ m) s a = ground (
    arith,
    destroy_returns q s (λ c pr. (a.0 c pr).0),
    destroy_job-returns id m s a.1,
    destroy_job-returns id m (destroy q s).1 (Apart-destroy q m s (λ c pr. (a.0 c pr).1) a.1),
  )

  erase_all_of-returns :
      (id : Text) (w : World)
      → IsSorted w.workers
      → Apart w.workers w.os
      → (erase_all_of id w).0 ≡ ok tt
  erase_all_of-returns id w srt a =
      ap (λ r. r.0) (erase_all_of-eq-pass id w srt) ∙ destroy_job-returns id w.workers w.os a

  module _ ⦃t : PropertyTree⦄ where
    open t use {Tree, get_string}

    start-ne-aborts : (q : Process) (s : Os) (m : Model) → (run_model m (q, s)).0 ≢ aborts
    start-ne-aborts q s m = go (launch q.exec q.args s) refl
      where
        go : (l : Launch × Os) → launch q.exec q.args s ≡ l → (run_model m (q, s)).0 ≢ aborts
        go (refused x, s') l = λ h. cc (ap (λ r. r.0) (run_model-refused q s s' x l m), h)
        go (started c, s') l =
            run_model-ne-aborts q s s' c l (read_lines-ne-aborts c.output q.inputs) m

    created-ne-aborts : (r : Outcome Tree) → r ≢ aborts → as_runtime_error r ≢ aborts
    unfolding as_runtime_error
    created-ne-aborts r n h = ground arith

    create_worker-ne-aborts :
        (uuid : Text) (p : Tree) (w : World)
        → find uuid w.workers ≡ none
        → (create_worker uuid p w).0 ≢ aborts
    create_worker-ne-aborts uuid p w f = go (prepare_worker uuid p) refl
      where
        go : (o : Outcome Process) → prepare_worker uuid p ≡ o → (create_worker uuid p w).0 ≢ aborts
        go (ok q) e h =
            let fresh : find q.id w.workers ≡ none = rw ((prepare_worker-new uuid p q e).0) f in
            created-ne-aborts (run_model q.model (q, w.os)).0 (start-ne-aborts q w.os q.model)
              (sym (ap (λ r. r.0) (create_worker-fresh uuid p q w e fresh)) ∙ h)
        go (throws x) e h = unfold create_worker in ground arith
        go blocks e h = unfold create_worker in ground arith
        go aborts e h = (prepare_worker-Answers uuid p).1 e

    delete_worker-ne-aborts :
        (p : Tree) (w : World) → Apart w.workers w.os → (delete_worker p w).0 ≢ aborts
    delete_worker-ne-aborts p w a h = go (get_string (lit "id") p) refl
      where
        go : (o : Option Text) → get_string (lit "id") p ≡ o → ⊥
        go none e = unfold delete_worker in ground arith
        go (some id) e = elim (Option-cases (find id w.workers)) [
          | inl f ↦ unfold delete_worker in ground arith
          | inr (q, f) ↦
              let returns = destroy_returns q w.os (find-Apart id w.workers w.os q a f) in
              cc (ap (λ r. r.0) (delete_known_worker p w id q e f), h, ap after_destroy returns)
        ]

    delete_job-ne-aborts :
        (p : Tree) (w : World)
        → IsSorted w.workers
        → Apart w.workers w.os
        → (delete_job p w).0 ≢ aborts
    unfolding delete_job
    delete_job-ne-aborts p w srt a h =
        let ends : (id : Text) → (erase_all_of id w).0 ≡ ok tt =
          λ id. erase_all_of-returns id w srt a in
        grind (arith, ends)

    get_job-ne-aborts : (p : Tree) (w : World) → (get_job p w).0 ≢ aborts
    unfolding get_job
    get_job-ne-aborts p w h = ground arith

    create_job-ne-aborts : (uuid : Text) (p : Tree) (w : World) → (create_job uuid p w).0 ≢ aborts
    unfolding create_job
    create_job-ne-aborts uuid p w h = ground arith

    dispatch-ne-aborts :
        (op uuid : Text) (p : Tree) (w : World)
        → IsSorted w.workers
        → Apart w.workers w.os
        → find uuid w.workers ≡ none
        → (dispatch op uuid p w).0 ≢ aborts
    unfolding dispatch get_workers get_jobs
    dispatch-ne-aborts op uuid p w srt a f h = ground (
      arith,
      create_worker-ne-aborts uuid p w f,
      delete_worker-ne-aborts p w a,
      delete_job-ne-aborts p w srt a,
      get_job-ne-aborts p w,
      create_job-ne-aborts uuid p w,
    )

    -- No request ends the program, whatever it asks for and whatever a new child does, as long as
    -- the child of each worker is known to the system, ends on the signal and belongs to that worker
    -- only, and the new identifier is not in use. The table of workers is sorted.
    pub handle_survives :
        (uuid : Text) (p : Tree) (w : World)
        → IsSorted w.workers
        → Apart w.workers w.os
        → find uuid w.workers ≡ none
        → (handle uuid p w).0 ≢ aborts
    unfolding handle
    handle_survives uuid p w srt a f h = go (get_string (lit "operation") p) refl
      where
        go : (o : Option Text) → get_string (lit "operation") p ≡ o → ⊥
        go none eq = ground arith
        go (some op) eq = dispatch-ne-aborts op uuid p w srt a f (ground arith)
