-- ===== src/Manager/Invariant/Requests.antt =====
-- The requests on src/manager.C and the well-formedness of its tables.
use wye.Common.{ℕ, zero, suc, ◌≡◌, refl, sym, subst, inl, inr, none, arith, Option-cases}
use wye.OrderedMap.{insert}
use wye.OrderedMap.Laws.{insert-IsSorted, erase-IsSorted}
use wye.OrderedMap.Entries.{insert-Entries, erase-Entries}
use wye.Text.{Text, lit}
use wye.Text.Order.{text_order}
use wye.Outcome.{ok, lift, or_throw}
use wye.Outcome.Laws.{bind-keeps, lift-keeps}
use wye.Ptree.{PropertyTree}
use wye.Kernel.{Kernel}
use wye.Job.{Job}
use wye.Worker.{running}
use wye.Process.{Process, new_process, run_model}
use wye.Models.Fields.{init_model-SameObject}
use wye.Manager.State.{World}
use wye.Manager.Tables.{round_hit, round_miss}
use wye.Manager.Workers.{
  erase_worker, store_worker, on_worker, catch_all, start_worker, create_worker, prepare_worker,
  get_workers, delete_worker, known_worker, get_id,
}
use wye.Manager.Jobs.{
  erase_workers_of, erase_all_of, first_of_job, create_job, delete_job, get_job, get_jobs,
  known_job,
}
use wye.Manager.{handle, dispatch}
use wye.Manager.Invariant.{
  GoodWorker, GoodJob, WellFormed, erase_worker-WellFormed, store_worker-WellFormed,
  on_worker-WellFormed,
}

module _ ⦃k : Kernel⦄ where
  erase_workers_of-WellFormed :
      (n : ℕ) (id : Text) (w : World) → WellFormed w → WellFormed (erase_workers_of n id w).1
  unfolding erase_workers_of
  erase_workers_of-WellFormed zero id w v = v
  erase_workers_of-WellFormed (suc n) id w v = elim (Option-cases (first_of_job id w.workers)) [
    | inl e ↦ subst (λ r. WellFormed r.1) (sym (round_miss n id w e)) v
    | inr (key, e) ↦
        let kept = erase_worker-WellFormed key w v in
        subst (λ r. WellFormed r.1) (sym (round_hit n id key w e))
          (bind-keeps (λ _. erase_workers_of n id) WellFormed (erase_worker key) w kept
            (λ _ _. erase_workers_of-WellFormed n id _ kept))
  ]

  known_worker-WellFormed :
      (id : Text) (w : World) → WellFormed w → WellFormed (known_worker id w).1
  known_worker-WellFormed id w v = subst WellFormed (sym same) v
    where
      same : (known_worker id w).1 ≡ w
      same = unfold known_worker in ground arith

  known_job-WellFormed : (id : Text) (w : World) → WellFormed w → WellFormed (known_job id w).1
  known_job-WellFormed id w v = subst WellFormed (sym same) v
    where
      same : (known_job id w).1 ≡ w
      same = unfold known_job in ground arith

  module _ ⦃t : PropertyTree⦄ where
    open t use {Tree, get_string}

    -- A prepared worker is new: it runs, and has no child yet.
    pub prepare_worker-new :
        (uuid : Text) (p : Tree) (q : Process)
        → prepare_worker uuid p ≡ ok q
        → (q.id ≡ uuid) × (q.state ≡ running) × (q.proc ≡ none)
    unfolding prepare_worker new_process
    prepare_worker-new uuid p q h = grind (arith, init_model-SameObject)

    start_worker-WellFormed :
        (q : Process) (w : World)
        → q.state ≡ running
        → WellFormed w
        → WellFormed (start_worker q w).1
    unfolding start_worker catch_all
    start_worker-WellFormed q w up v =
        let good : GoodWorker q.id q = record { keyed = refl; settled = λ h. absurd (cc) } in
        let kept = store_worker-WellFormed q w good v in
        bind-keeps (λ _. on_worker q (run_model q.model)) WellFormed (store_worker q) w kept
          (λ _ _. on_worker-WellFormed q.model q _ up kept)

    create_worker-WellFormed :
        (uuid : Text) (p : Tree) (w : World) → WellFormed w → WellFormed (create_worker uuid p w).1
    unfolding create_worker
    create_worker-WellFormed uuid p w v =
        bind-keeps start_worker WellFormed (lift (prepare_worker uuid p)) w v
          (λ q e. start_worker-WellFormed q w (prepare_worker-new uuid p q e).1 v)

    delete_worker-WellFormed :
        (p : Tree) (w : World) → WellFormed w → WellFormed (delete_worker p w).1
    unfolding delete_worker
    delete_worker-WellFormed p w v = bind-keeps _ WellFormed (lift (get_id p)) w v λ id _.
        let known = known_worker-WellFormed id w v in
        let kept = erase_worker-WellFormed id _ known in
        bind-keeps _ WellFormed (known_worker id) w known
          λ _ _. bind-keeps _ WellFormed (erase_worker id) _ kept λ _ _. kept

    store_job-WellFormed :
        (j : Job) (w : World) → WellFormed w → WellFormed (record w { jobs = insert j.id j w.jobs })
    store_job-WellFormed j w v = record {
      workers_sorted = v.workers_sorted;
      jobs_sorted = insert-IsSorted j.id j w.jobs v.jobs_sorted;
      workers_good = v.workers_good;
      jobs_good = insert-Entries GoodJob j.id j w.jobs (record { keyed = refl }) v.jobs_good;
    }

    create_job-WellFormed :
        (uuid : Text) (p : Tree) (w : World) → WellFormed w → WellFormed (create_job uuid p w).1
    unfolding create_job
    create_job-WellFormed uuid p w v =
        lift-keeps WellFormed (or_throw (get_string (lit "name") p) _) _ w v λ name.
          lift-keeps WellFormed (or_throw (get_string (lit "description") p) _) _ w v λ description.
            store_job-WellFormed (record { id = uuid; name = name; description = description }) w v

    delete_job-WellFormed : (p : Tree) (w : World) → WellFormed w → WellFormed (delete_job p w).1
    unfolding delete_job erase_all_of
    delete_job-WellFormed p w v = bind-keeps _ WellFormed (lift (get_id p)) w v λ id _.
        let known = known_job-WellFormed id w v in
        let kept = erase_workers_of-WellFormed _ id _ known in
        bind-keeps _ WellFormed (known_job id) w known λ _ _.
          bind-keeps _ WellFormed (erase_all_of id) _ kept λ _ _. record {
            workers_sorted = kept.workers_sorted;
            jobs_sorted = erase-IsSorted id _ kept.jobs_sorted;
            workers_good = kept.workers_good;
            jobs_good = erase-Entries GoodJob id _ kept.jobs_good;
          }

    get_job-WellFormed : (p : Tree) (w : World) → WellFormed w → WellFormed (get_job p w).1
    unfolding get_job
    get_job-WellFormed p w v = bind-keeps _ WellFormed (lift (get_id p)) w v λ id _.
        let known = known_job-WellFormed id w v in
        bind-keeps _ WellFormed (known_job id) w known λ _ _. known

    dispatch-WellFormed :
        (op uuid : Text) (p : Tree) (w : World) → WellFormed w → WellFormed (dispatch op uuid p w).1
    unfolding dispatch get_workers get_jobs
    dispatch-WellFormed op uuid p w v = ground (
      arith,
      create_worker-WellFormed uuid p w v,
      delete_worker-WellFormed p w v,
      create_job-WellFormed uuid p w v,
      get_job-WellFormed p w v,
      delete_job-WellFormed p w v,
    )

    -- Whatever a request asks for and however it ends, it leaves well-formed tables behind.
    pub handle-WellFormed :
        (uuid : Text) (p : Tree) (w : World) → WellFormed w → WellFormed (handle uuid p w).1
    unfolding handle
    handle-WellFormed uuid p w v =
        lift-keeps WellFormed (or_throw (get_string (lit "operation") p) _) _ w v
          λ op. dispatch-WellFormed op uuid p w v
