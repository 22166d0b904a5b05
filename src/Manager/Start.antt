-- ===== src/Manager/Start.antt =====
-- How manager::create_worker of src/manager.C ends, by what the operating system and the child do.
use wye.Common.{◌≡◌, ◌≢◌, refl, ap, subst, ◌∙◌, arith, none, some, inl, inr}
use wye.OrderedMap.{Map, find, insert}
use wye.OrderedMap.Laws.{find-insert, same_self}
use wye.OrderedMap.Entries.{find-Entries}
use wye.Text.{Text}
use wye.Text.Order.{text_order}
use wye.Outcome.{Outcome, ok, throws, blocks, aborts, runtime_error, what}
use wye.Ptree.{PropertyTree}
use wye.Kernel.{Kernel, Child, started, refused}
use wye.Worker.{running}
use wye.Process.{
  Process, Model, application, executable, python, lambda, lua, run_model, startup_reply,
}
use wye.Process.Running.{run_model-refused}
use wye.Process.Startup.{read_lines}
use wye.Manager.State.{World}
use wye.Manager.Workers.{
  create_worker, start_worker, store_worker, on_worker, catch_all, drop_worker, prepare_worker,
  as_runtime_error,
}
use wye.Manager.Monitor.{sweep}
use wye.Manager.Monitor.Sweep.{HasChild, IsOrphan, sweep-end, orphan-ne-child}
use wye.Manager.Invariant.Requests.{prepare_worker-new}

module _ ⦃k : Kernel⦄ ⦃t : PropertyTree⦄ where
  open k use {Os, launch}
  open t use {Tree}

  -- The object of a worker once its child runs and has announced its inputs.
  abbrev pub with_child : Process → Child → Map Text Text → Process
  with_child q c ins = record q { worker = record q.worker { inputs = ins }; proc = some c }

  abbrev pub start_end : Process → Outcome (Unit {0}) → Outcome Tree
  start_end q (ok u) = ok (startup_reply q)
  start_end q (throws e) = throws (runtime_error (what e))
  start_end q blocks = blocks
  start_end q aborts = aborts

  -- The state in which a new worker's method is called.
  abbrev stored : Process → World → World
  stored q w = record w { workers = insert q.id q w.workers }

  store_new :
      (q : Process) (w : World)
      → find q.id w.workers ≡ none
      → store_worker q w ≡ (ok tt, stored q w)
  unfolding store_worker drop_worker
  store_new q w h = rw h

  find_stored :
      (q q' : Process) (m : Map Text Process)
      → q'.id ≡ q.id
      → find q.id (insert q.id q' m) ≡ some q'
  find_stored q q' m e = rw (find-insert q.id q.id q' m, same_self q.id)

  run_model-started :
      (q : Process) (s s' : Os) (c : Child) (r : Outcome (Unit {0})) (ins : Map Text Text)
      → launch q.exec q.args s ≡ (started c, s')
      → read_lines c.output q.inputs ≡ (r, ins)
      → (md : Model) → md ≢ application
      → ((run_model md (q, s)).1 ≡ (with_child q c ins, s'))
        × (as_runtime_error (run_model md (q, s)).0 ≡ start_end (with_child q c ins) r)
  unfolding run_model as_runtime_error
  run_model-started q s s' c r ins h g application ne = absurd (ne refl)
  run_model-started q s s' c r ins h g executable ne = ground arith
  run_model-started q s s' c r ins h g python ne = ground arith
  run_model-started q s s' c r ins h g lambda ne = ground arith
  run_model-started q s s' c r ins h g lua ne = ground arith

  -- What create_worker makes of a fresh worker, by the result of its method.
  abbrev pub created : Process → World → Outcome Tree × (Process × Os) → Outcome Tree × World
  created q w (r, (q', s)) =
      (as_runtime_error r, record w { workers = insert q.id q' (insert q.id q w.workers); os = s })

  pub create_worker-fresh :
      (uuid : Text) (p : Tree) (q : Process) (w : World)
      → prepare_worker uuid p ≡ ok q
      → find q.id w.workers ≡ none
      → create_worker uuid p w ≡ created q w (run_model q.model (q, w.os))
  unfolding create_worker start_worker catch_all on_worker
  create_worker-fresh uuid p q w h f = rw (h, store_new q w f)

  abbrev after_start : Process → Process → Os → World → World
  after_start q q' s w = record w { workers = insert q.id q' (insert q.id q w.workers); os = s }

  create_worker-refused :
      (uuid : Text) (p : Tree) (q : Process) (w : World) (m : Text) (s : Os)
      → prepare_worker uuid p ≡ ok q
      → find q.id w.workers ≡ none
      → launch q.exec q.args w.os ≡ (refused m, s)
      → create_worker uuid p w ≡ (throws (runtime_error m), after_start q q s w)
  unfolding as_runtime_error what
  create_worker-refused uuid p q w m s h f l =
      create_worker-fresh uuid p q w h f ∙ ap (created q w) (run_model-refused q w.os s m l q.model)

  orphan_crash :
      (key : Text) (q : Process) (w : World)
      → find key w.workers ≡ some q
      → IsOrphan q
      → (sweep w).0 ≡ aborts
  orphan_crash key q w f o = elim (sweep-end w) [
    | inl (e, all) ↦ absurd (orphan-ne-child key q o (find-Entries HasChild key q w.workers all f))
    | inr (e, h) ↦ e
  ]

  -- A worker whose launch is refused, under an identifier that was not in use: the client gets the
  -- message as a runtime error, the worker stays in the table as a running one with no child, and
  -- the next round of the background thread ends the whole program.
  pub refused_launch_crashes :
      (uuid : Text) (p : Tree) (q : Process) (w : World) (m : Text) (s : Os)
      → prepare_worker uuid p ≡ ok q
      → find uuid w.workers ≡ none
      → launch q.exec q.args w.os ≡ (refused m, s)
      → let (r, w') = create_worker uuid p w in
        (r ≡ throws (runtime_error m)) × (find uuid w'.workers ≡ some q) × ((sweep w').0 ≡ aborts)
  refused_launch_crashes uuid p q w m s h f l =
      let (is_id, up, no_child) = prepare_worker-new uuid p q h in
      let fresh : find q.id w.workers ≡ none = rw is_id f in
      let there : find uuid (after_start q q s w).workers ≡ some q =
        subst (λ i. find i (after_start q q s w).workers ≡ some q) is_id
          (find_stored q q (insert q.id q w.workers) refl) in
      rw (create_worker-refused uuid p q w m s h fresh l)
        (refl, there, orphan_crash uuid q (after_start q q s w) there (up, no_child))

  -- A worker of any class but `application` that is launched under an identifier that was not in
  -- use: the request ends as the start-up loop ends, its throw as a runtime error. However it ends,
  -- the table holds the worker with its child and the inputs that were announced, it counts as
  -- running, and no child is killed: a worker whose start failed stays in the table.
  pub started_worker_stays :
      (uuid : Text) (p : Tree) (q : Process) (w : World) (c : Child) (s : Os)
      (r : Outcome (Unit {0})) (ins : Map Text Text)
      → prepare_worker uuid p ≡ ok q
      → q.model ≢ application
      → find uuid w.workers ≡ none
      → launch q.exec q.args w.os ≡ (started c, s)
      → read_lines c.output q.inputs ≡ (r, ins)
      → let (r', w') = create_worker uuid p w in
        (r' ≡ start_end (with_child q c ins) r)
        × (find uuid w'.workers ≡ some (with_child q c ins))
        × (q.state ≡ running)
        × (w'.os ≡ s)
  started_worker_stays uuid p q w c s r ins h ne f l g =
      let (is_id, up, no_child) = prepare_worker-new uuid p q h in
      let fresh : find q.id w.workers ≡ none = rw is_id f in
      let (state, result) = run_model-started q w.os s c r ins l g q.model ne in
      rw (create_worker-fresh uuid p q w h fresh) (
        result,
        subst
            (λ i.
              find i (insert q.id (run_model q.model (q, w.os)).1.0 (insert q.id q w.workers))
              ≡ some (with_child q c ins))
            is_id (rw state (find_stored q (with_child q c ins) (insert q.id q w.workers) refl)),
        up,
        ap (λ x. x.1) state,
      )
