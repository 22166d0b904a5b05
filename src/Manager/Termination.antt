-- ===== src/Manager/Termination.antt =====
-- When the requests on src/manager.C return: what the operating system and the children must do.
use wye.Common.{
  ℕ, ◌≡◌, ◌≢◌, refl, sym, ap, ◌∙◌, arith, Option, none, some, List, [], ◌∷◌, ◌⊎◌, inl, inr,
}
use wye.OrderedMap.{Map, find}
use wye.OrderedMap.Laws.{IsSorted}
use wye.Text.{Text, lit}
use wye.Text.Order.{text_order}
use wye.Outcome.{blocks}
use wye.Ptree.{PropertyTree}
use wye.Kernel.{Kernel, Child, Launch, started, refused, never, silent}
use wye.Process.{Process, Model, destroy, run_model}
use wye.Process.Running.{run_model-refused, run_model-ne-blocks}
use wye.Manager.Prepared.{prepare_worker-Answers}
use wye.Process.Startup.Acceptance.{SaysRunning, read_lines-blocks, read_lines-ne-blocks}
use wye.Manager.State.{World}
use wye.Manager.Workers.{
  create_worker, get_workers, delete_worker, start_worker, drop_worker, erase_worker, store_worker,
  on_worker, catch_all, as_runtime_error,
}
use wye.Manager.Jobs.{create_job, get_job, get_jobs, delete_job, erase_all_of}
use wye.Manager.Deletion.{destroy_job, keep, continue_pass, erase_all_of-eq-pass}
use wye.Manager.Monitor.{destroy_all}
use wye.Manager.{handle, dispatch}

module _ ⦃k : Kernel⦄ where
  open k use {Os, launch, kill, wait}

  -- A process that was sent the signal ends, so that a wait for it returns.
  abbrev pub ChildrenEnd : Type 0
  ChildrenEnd = (p : ℕ) (s : Os) → (wait p (kill p s).1).0 ≢ never

  -- A child that starts says at some time that it runs, or closes its channel.
  abbrev pub ChildrenSpeak : Type 0
  ChildrenSpeak =
      (exec : Text) (args : List Text) (s s' : Os) (c : Child)
      → launch exec args s ≡ (started c, s')
      → (c.output.ending ≢ silent) ⊎ SaysRunning c.output.lines

  pub destroy-ne-blocks : (q : Process) (s : Os) → ChildrenEnd → (destroy q s).0 ≢ blocks
  unfolding destroy
  destroy-ne-blocks q s e = grind (arith, e)

  pub destroy_all-ne-blocks :
      (m : Map Text Process) (s : Os) → ChildrenEnd → (destroy_all m s).0 ≢ blocks
  unfolding destroy_all
  destroy_all-ne-blocks [] s e h = cc
  destroy_all-ne-blocks ((key, q) ∷ m) s e h =
      grind (arith, destroy-ne-blocks q s e, destroy_all-ne-blocks m (destroy q s).1 e)

  drop_worker-ne-blocks :
      (o : Option Process) (w : World) → ChildrenEnd → (drop_worker o w).0 ≢ blocks
  unfolding drop_worker
  drop_worker-ne-blocks none w e = ground arith
  drop_worker-ne-blocks (some q) w e = destroy-ne-blocks q w.os e

  erase_worker-ne-blocks : (id : Text) (w : World) → ChildrenEnd → (erase_worker id w).0 ≢ blocks
  unfolding erase_worker
  erase_worker-ne-blocks id w e = drop_worker-ne-blocks (find id w.workers) _ e

  store_worker-ne-blocks : (q : Process) (w : World) → ChildrenEnd → (store_worker q w).0 ≢ blocks
  unfolding store_worker
  store_worker-ne-blocks q w e = drop_worker-ne-blocks (find q.id w.workers) _ e

  destroy_job-ne-blocks :
      (id : Text) (m : Map Text Process) (s : Os) → ChildrenEnd → (destroy_job id m s).0 ≢ blocks
  unfolding destroy_job keep continue_pass
  destroy_job-ne-blocks id [] s e h = cc
  destroy_job-ne-blocks id ((key, q) ∷ m) s e h = grind (
    arith,
    destroy_job-ne-blocks id m s e,
    destroy-ne-blocks q s e,
    destroy_job-ne-blocks id m (destroy q s).1 e,
  )

  erase_all_of-ne-blocks :
      (id : Text) (w : World) → IsSorted w.workers → ChildrenEnd → (erase_all_of id w).0 ≢ blocks
  erase_all_of-ne-blocks id w srt e h =
      destroy_job-ne-blocks id w.workers w.os e
        (sym (ap (λ r. r.0) (erase_all_of-eq-pass id w srt)) ∙ h)

  module _ ⦃t : PropertyTree⦄ where
    open t use {Tree, get_string}

    start-ne-blocks :
        (q : Process) (s : Os) → ChildrenSpeak → (m : Model) → (run_model m (q, s)).0 ≢ blocks
    start-ne-blocks q s e m = go (launch q.exec q.args s) refl
      where
        go : (l : Launch × Os) → launch q.exec q.args s ≡ l → (run_model m (q, s)).0 ≢ blocks
        go (refused x, s') l = λ h. cc (ap (λ r. r.0) (run_model-refused q s s' x l m), h)
        go (started c, s') l =
            run_model-ne-blocks q s s' c l
              (elim (e q.exec q.args s s' c l) [
                | inl open_end ↦ (λ h. open_end (read_lines-blocks c.output q.inputs h))
                | inr says ↦ read_lines-ne-blocks c.output q.inputs says
              ])
              m

    on_worker-ne-blocks :
        (q : Process) (w : World) (m : Model)
        → ChildrenSpeak
        → (on_worker q (run_model m) w).0 ≢ blocks
    unfolding on_worker
    on_worker-ne-blocks q w m e = start-ne-blocks q w.os e m

    start_worker-ne-blocks :
        (q : Process) (w : World) → ChildrenEnd → ChildrenSpeak → (start_worker q w).0 ≢ blocks
    unfolding start_worker catch_all as_runtime_error
    start_worker-ne-blocks q w e f h =
        ground (
          arith,
          store_worker-ne-blocks q w e,
          on_worker-ne-blocks q (store_worker q w).1 q.model f,
        )

    create_worker-ne-blocks :
        (uuid : Text) (p : Tree) (w : World)
        → ChildrenEnd
        → ChildrenSpeak
        → (create_worker uuid p w).0 ≢ blocks
    unfolding create_worker
    create_worker-ne-blocks uuid p w e f h =
        grind (arith, start_worker-ne-blocks, prepare_worker-Answers)

    delete_worker-ne-blocks : (p : Tree) (w : World) → ChildrenEnd → (delete_worker p w).0 ≢ blocks
    unfolding delete_worker
    delete_worker-ne-blocks p w e h = grind (arith, erase_worker-ne-blocks)

    delete_job-ne-blocks :
        (p : Tree) (w : World) → IsSorted w.workers → ChildrenEnd → (delete_job p w).0 ≢ blocks
    unfolding delete_job
    delete_job-ne-blocks p w srt e h = grind (arith, erase_all_of-ne-blocks)

    get_job-ne-blocks : (p : Tree) (w : World) → (get_job p w).0 ≢ blocks
    unfolding get_job
    get_job-ne-blocks p w h = ground arith

    create_job-ne-blocks : (uuid : Text) (p : Tree) (w : World) → (create_job uuid p w).0 ≢ blocks
    unfolding create_job
    create_job-ne-blocks uuid p w h = ground arith

    dispatch-ne-blocks :
        (op uuid : Text) (p : Tree) (w : World)
        → IsSorted w.workers
        → ChildrenEnd
        → ChildrenSpeak
        → (dispatch op uuid p w).0 ≢ blocks
    unfolding dispatch get_workers get_jobs
    dispatch-ne-blocks op uuid p w srt e f h = ground (
      arith,
      create_worker-ne-blocks uuid p w e f,
      delete_worker-ne-blocks p w e,
      delete_job-ne-blocks p w srt e,
      get_job-ne-blocks p w,
      create_job-ne-blocks uuid p w,
    )

    -- Every request returns, throws or ends the program, and none waits for ever, when a process
    -- that was sent the signal ends and a child that is launched says at some time that it runs or
    -- closes its channel. The table of workers is sorted.
    pub handle_returns :
        (uuid : Text) (p : Tree) (w : World)
        → IsSorted w.workers
        → ChildrenEnd
        → ChildrenSpeak
        → (handle uuid p w).0 ≢ blocks
    unfolding handle
    handle_returns uuid p w srt e f h = go (get_string (lit "operation") p) refl
      where
        go : (o : Option Text) → get_string (lit "operation") p ≡ o → ⊥
        go none eq = ground arith
        go (some op) eq = dispatch-ne-blocks op uuid p w srt e f (ground arith)
