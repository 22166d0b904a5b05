-- ===== src/Manager/Reuse.antt =====
-- A number that the system gives to a second child while a worker of src/manager.C still keeps it of
-- its first. `is_running` of src/process.C reaps a child that has ended, and leaves `proc` set until
-- the round after; POSIX lets the number of a reaped child be given again.
use wye.Common.{◌≡◌, ◌≢◌, refl, sym, ap, subst, ◌∙◌, none, some, inl, inr, Bool-cases, false}
use wye.OrderedMap.{Map, find, insert, same}
use wye.OrderedMap.Laws.{find-insert, find-erase, same_self, same→eq, same_sym}
use wye.Text.{Text, lit}
use wye.Text.Order.{text_order}
use wye.Outcome.{Outcome, ok, throws, blocks, aborts}
use wye.Ptree.{PropertyTree}
use wye.Kernel.{Kernel, Child, started, gone}
use wye.Worker.{running}
use wye.Process.{Process, destroy, run_model}
use wye.Process.Lifetime.{destroy-Reaped}
use wye.Process.Holding.{run_model-child}
use wye.Process.Running.{run_model-same}
use wye.Manager.State.{World}
use wye.Manager.Workers.{create_worker, prepare_worker, delete_worker}
use wye.Manager.Start.{create_worker-fresh}
use wye.Manager.DeleteWorker.{after_destroy, delete_known_worker}
use wye.Manager.Invariant.Requests.{prepare_worker-new}

module _ ⦃k : Kernel⦄ ⦃t : PropertyTree⦄ where
  open k use {Os, launch, phase}
  open t use {Tree, empty, get_string}

  destroyed-ok : (o : Outcome (Unit {0})) → after_destroy o ≡ ok empty → o ≡ ok tt
  destroyed-ok (ok u) e = refl
  destroyed-ok (throws x) e = absurd (cc)
  destroyed-ok blocks e = absurd (cc)
  destroyed-ok aborts e = absurd (cc)

  find_apart :
      (i j : Text) (m : Map Text Process) (q : Process)
      → find i m ≡ none
      → find j m ≡ some q
      → (same i j ≡ false) × (same j i ≡ false)
  find_apart i j m q e f = elim (Bool-cases (same i j)) [
    | inl hit ↦ absurd (none-ne-some (sym e ∙ ap (λ x. find x m) (same→eq i j hit) ∙ f))
    | inr miss ↦ (miss, same_sym j i ∙ miss)
  ]
    where
      none-ne-some : none ≢ some q
      none-ne-some h = cc

  find_other :
      (i j : Text) (m : Map Text Process) (x y : Process)
      → same i j ≡ false
      → find i (insert j x (insert j y m)) ≡ find i m
  find_other i j m x y e =
      find-insert i j x (insert j y m) ∙ (rw e (find-insert i j y m ∙ rw e refl))

  find_self : (i : Text) (m : Map Text Process) (x : Process) → find i (insert i x m) ≡ some x
  find_self i m x = rw (find-insert i i x m, same_self i) refl

  created_table :
      (uuid : Text) (p : Tree) (q : Process) (w : World)
      → prepare_worker uuid p ≡ ok q
      → find uuid w.workers ≡ none
      → (create_worker uuid p w).1.workers
        ≡ insert uuid (run_model q.model (q, w.os)).1.0 (insert uuid q w.workers)
  created_table uuid p q w h f =
      let (is_id, _, _) = prepare_worker-new uuid p q h in
      ap (λ r. r.1.workers) (create_worker-fresh uuid p q w h (rw is_id f))
      ∙ ap (λ i. insert i (run_model q.model (q, w.os)).1.0 (insert i q w.workers)) is_id

  -- The state behind the two requests, by what the first one's method leaves.
  deleted_after :
      (w : World) (id uuid : Text) (d : Tree) (a b : Process) (c : Child)
      → get_string (lit "id") d ≡ some id
      → find id w.workers ≡ some a
      → find uuid w.workers ≡ some b
      → same uuid id ≡ false
      → a.proc ≡ some c
      → (delete_worker d w).0 ≡ ok empty
      → (find uuid (delete_worker d w).1.workers ≡ some b)
        × (phase c.pid (delete_worker d w).1.os ≡ gone)
  deleted_after w id uuid d a b c g fa fb apart pr e =
      let eq = delete_known_worker d w id a g fa in
      let ended = destroyed-ok (destroy a w.os).0 (sym (ap (λ r. r.0) eq) ∙ e) in
      rw eq ((find-erase uuid id w.workers ∙ rw apart fb), destroy-Reaped a w.os ended c pr)

  -- A worker holds a child, and a new worker is launched under an identifier that was not in use and
  -- gets the same number for its child, as it may when the first child has been reaped. A request
  -- that deletes the first worker, and succeeds, then has ended and reaped the child of the new one,
  -- which stays in the table and counts as running.
  pub reused_number_kills :
      (uuid id : Text) (p d : Tree) (q a : Process) (w : World) (c c' : Child) (s : Os)
      → prepare_worker uuid p ≡ ok q
      → find uuid w.workers ≡ none
      → launch q.exec q.args w.os ≡ (started c', s)
      → find id w.workers ≡ some a
      → a.proc ≡ some c
      → c.pid ≡ c'.pid
      → get_string (lit "id") d ≡ some id
      → (delete_worker d (create_worker uuid p w).1).0 ≡ ok empty
      → let w' = (delete_worker d (create_worker uuid p w).1).1 in
        (b : Process) × (find uuid w'.workers ≡ some b)
        × (b.state ≡ running)
        × (b.proc ≡ some c')
        × (phase c'.pid w'.os ≡ gone)
  reused_number_kills uuid id p d q a w c c' s h fu l fa pr num g e =
      let (_, up, _) = prepare_worker-new uuid p q h in
      let b = (run_model q.model (q, w.os)).1.0 in
      let w1 = (create_worker uuid p w).1 in
      let eq = created_table uuid p q w h fu in
      let (ui, iu) = find_apart uuid id w.workers a fu fa in
      let (found, dead) =
        deleted_after w1 id uuid d a b c g
          (ap (find id) eq ∙ find_other id uuid w.workers b q iu ∙ fa)
          (ap (find uuid) eq ∙ find_self uuid (insert uuid q w.workers) b) ui pr e in
      (
        b,
        found,
        (run_model-same q w.os w.os q.model).2 ∙ up,
        (run_model-child q w.os s c' l q.model).0,
        subst (λ n. phase n (delete_worker d w1).1.os ≡ gone) num dead,
      )
