-- ===== src/Manager/Kept.antt =====
-- A property of the manager of src/manager.C that survives the start of a worker, the removal of a
-- worker and every change of the jobs survives each request that returns or throws.
use wye.Common.{ℕ, zero, suc, ◌≡◌, sym, subst, inl, inr, none, arith, Option-cases}
use wye.OrderedMap.{Map}
use wye.Text.{Text, lit}
use wye.Text.Order.{text_order}
use wye.Outcome.{Outcome, lift, or_throw}
use wye.Outcome.Settled.{Settles, bind-Settles}
use wye.Ptree.{PropertyTree}
use wye.Kernel.{Kernel}
use wye.Job.{Job}
use wye.Worker.{running}
use wye.Process.{Process}
use wye.Manager.State.{World}
use wye.Manager.Tables.{round_hit, round_miss}
use wye.Manager.Workers.{
  erase_worker, start_worker, create_worker, prepare_worker, get_workers, delete_worker,
  known_worker, get_id,
}
use wye.Manager.Jobs.{
  erase_workers_of, erase_all_of, first_of_job, create_job, delete_job, get_job, get_jobs,
  known_job,
}
use wye.Manager.Invariant.Requests.{prepare_worker-new}
use wye.Manager.{handle, dispatch}

-- Every identifier.
abbrev pub Any : Text → Type 0
Any id = Unit

module _ ⦃k : Kernel⦄ ⦃t : PropertyTree⦄ where
  open t use {Tree, get_string}

  -- A worker is started under an identifier of the kind `U`.
  pub record KeptByParts (U : Text → Type 0) (P : World → Type 0) : Type 0 where
    pub erased : (id : Text) (w : World) → P w → Settles P (erase_worker id w)
    pub started :
        (q : Process) (w : World)
        → U q.id
        → q.state ≡ running
        → q.proc ≡ none
        → P w
        → Settles P (start_worker q w)
    pub jobs_changed : (w : World) (m : Map Text Job) → P w → P (record w { jobs = m })

  module _ (U : Text → Type 0) (P : World → Type 0) (parts : KeptByParts U P) where
    stay : {A : Type 0} → (r : Outcome A) (w : World) → P w → Settles P (r, w)
    stay r w v nb na = v

    known_worker-Settles : (id : Text) (w : World) → P w → Settles P (known_worker id w)
    known_worker-Settles id w v nb na = subst P (sym same) v
      where
        same : (known_worker id w).1 ≡ w
        same = unfold known_worker in ground arith

    known_job-Settles : (id : Text) (w : World) → P w → Settles P (known_job id w)
    known_job-Settles id w v nb na = subst P (sym same) v
      where
        same : (known_job id w).1 ≡ w
        same = unfold known_job in ground arith

    erase_workers_of-Settles :
        (n : ℕ) (id : Text) (w : World) → P w → Settles P (erase_workers_of n id w)
    erase_workers_of-Settles zero id w v = unfold erase_workers_of in stay _ w v
    erase_workers_of-Settles (suc n) id w v = elim (Option-cases (first_of_job id w.workers)) [
      | inl e ↦ subst (Settles P) (sym (round_miss n id w e)) (stay _ w v)
      | inr (key, e) ↦ subst (Settles P) (sym (round_hit n id key w e)) (
          bind-Settles P (λ _. erase_workers_of n id) (erase_worker key) w (parts.erased key w v)
            (λ _ _. erase_workers_of-Settles n id _))
    ]

    create_worker-Settles :
        (uuid : Text) (p : Tree) (w : World) → U uuid → P w → Settles P (create_worker uuid p w)
    unfolding create_worker
    create_worker-Settles uuid p w u v =
        bind-Settles P start_worker (lift (prepare_worker uuid p)) w (stay _ w v) (λ q e.
          let (is_id, up, no_child) = prepare_worker-new uuid p q e in
          parts.started q w (subst U (sym is_id) u) up no_child)

    delete_worker-Settles : (p : Tree) (w : World) → P w → Settles P (delete_worker p w)
    unfolding delete_worker
    delete_worker-Settles p w v = bind-Settles P _ (lift (get_id p)) w (stay _ w v) λ id _ v.
        bind-Settles P _ (known_worker id) w (known_worker-Settles id w v)
          λ _ _ v. bind-Settles P _ (erase_worker id) _ (parts.erased id _ v) λ _ _ v. stay _ _ v

    create_job-Settles :
        (uuid : Text) (p : Tree) (w : World) → P w → Settles P (create_job uuid p w)
    unfolding create_job
    create_job-Settles uuid p w v =
        bind-Settles P _ (lift (or_throw (get_string (lit "name") p) _)) w (stay _ w v) λ name _ v.
          bind-Settles P _ (lift (or_throw (get_string (lit "description") p) _)) w (stay _ w v)
            λ description _ v. stay _ _ (parts.jobs_changed w _ v)

    delete_job-Settles : (p : Tree) (w : World) → P w → Settles P (delete_job p w)
    unfolding delete_job erase_all_of
    delete_job-Settles p w v = bind-Settles P _ (lift (get_id p)) w (stay _ w v) λ id _ v.
        bind-Settles P _ (known_job id) w (known_job-Settles id w v) λ _ _ v.
          bind-Settles P _ (erase_all_of id) _ (erase_workers_of-Settles _ id _ v)
            λ _ _ v. stay _ _ (parts.jobs_changed _ _ v)

    get_job-Settles : (p : Tree) (w : World) → P w → Settles P (get_job p w)
    unfolding get_job
    get_job-Settles p w v =
        bind-Settles P _ (lift (get_id p)) w (stay _ w v)
          λ id _ v. bind-Settles P _ (known_job id) w (known_job-Settles id w v) λ _ _ v. stay _ _ v

    dispatch-Settles :
        (op uuid : Text) (p : Tree) (w : World) → U uuid → P w → Settles P (dispatch op uuid p w)
    unfolding dispatch get_workers get_jobs
    dispatch-Settles op uuid p w u v nb na = ground (
      arith,
      create_worker-Settles uuid p w u v,
      delete_worker-Settles p w v,
      create_job-Settles uuid p w v,
      get_job-Settles p w v,
      delete_job-Settles p w v,
    )

    pub handle-Settles :
        (uuid : Text) (p : Tree) (w : World) → U uuid → P w → Settles P (handle uuid p w)
    unfolding handle
    handle-Settles uuid p w u v =
        bind-Settles P _ (lift (or_throw (get_string (lit "operation") p) _)) w (stay _ w v)
          λ op _ v. dispatch-Settles op uuid p w u v
