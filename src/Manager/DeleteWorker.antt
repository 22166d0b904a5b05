-- ===== src/Manager/DeleteWorker.antt =====
-- What manager::delete_worker of src/manager.C does on each of its branches.
use wye.Common.{◌≡◌, ap, ◌∙◌, arith, some}
use wye.OrderedMap.{find, erase}
use wye.Text.{Text, lit}
use wye.Text.Order.{text_order}
use wye.Outcome.{Outcome, ok, throws, blocks, aborts}
use wye.Ptree.{PropertyTree}
use wye.Kernel.{Kernel, Child, gone}
use wye.Process.{Process, destroy}
use wye.Process.Lifetime.{destroy_gone}
use wye.Manager.State.{World}
use wye.Manager.Workers.{delete_worker}

module _ ⦃k : Kernel⦄ ⦃t : PropertyTree⦄ where
  open k use {Os, phase}
  open t use {Tree, empty, get_string}

  -- The outcome of a request that ends in a destructor.
  abbrev pub after_destroy : Outcome (Unit {0}) → Outcome Tree
  after_destroy (ok u) = ok empty
  after_destroy (throws e) = throws e
  after_destroy blocks = blocks
  after_destroy aborts = aborts

  -- delete-worker with the identifier of a worker: its entry is gone and no other is touched, the
  -- jobs stay, and the request ends, and leaves the system, as the worker's destructor does.
  pub delete_known_worker :
      (p : Tree) (w : World) (id : Text) (q : Process)
      → get_string (lit "id") p ≡ some id
      → find id w.workers ≡ some q
      → delete_worker p w ≡ (
        after_destroy (destroy q w.os).0,
        record w { workers = erase id w.workers; os = (destroy q w.os).1 },
      )
  unfolding delete_worker
  delete_known_worker p w id q h f = ground arith

  -- A worker that still counts as running and whose child the background thread has reaped: the
  -- request to delete it ends the whole program, since its destructor cannot signal the child.
  pub delete_reaped_crashes :
      (p : Tree) (w : World) (id : Text) (q : Process) (c : Child)
      → get_string (lit "id") p ≡ some id
      → find id w.workers ≡ some q
      → q.proc ≡ some c
      → phase c.pid w.os ≡ gone
      → (delete_worker p w).0 ≡ aborts
  delete_reaped_crashes p w id q c h f pr g =
      ap (λ r. r.0) (delete_known_worker p w id q h f)
      ∙ ap after_destroy (destroy_gone q c w.os pr g)
