-- ===== src/Manager/Registry/Refinement.antt =====
-- manager::handle of src/manager.C against the registry.
use wye.Common.{◌≡◌, refl, sym, subst, arith, Option, none, some}
use wye.OrderedMap.Laws.{IsSorted}
use wye.Text.{Text, lit}
use wye.Text.Order.{text_order}
use wye.Ptree.{PropertyTree}
use wye.Kernel.{Kernel}
use wye.Manager.State.{World}
use wye.Manager.Workers.{get_workers}
use wye.Manager.Jobs.{get_job, get_jobs}
use wye.Manager.{handle, dispatch}
use wye.Manager.Registry.{obey, view, named, command_of}
use wye.Manager.Registry.Shows.{Shows, look-Shows}
use wye.Manager.Registry.Workers.{create_worker-Shows, delete_worker-Shows}
use wye.Manager.Registry.Jobs.{Settles, create_job-Shows, delete_job-Shows}

module _ ⦃k : Kernel⦄ ⦃t : PropertyTree⦄ where
  open k use {Os}
  open t use {Tree, get_string, empty}

  get_job-same : (p : Tree) (w : World) → (get_job p w).1 ≡ w
  unfolding get_job
  get_job-same p w = ground arith

  dispatch-Shows :
      (op uuid : Text) (p : Tree) (w : World)
      → IsSorted w.workers
      → Settles (dispatch op uuid p w).0
      → Shows (named op uuid p) w (dispatch op uuid p w).1
  unfolding dispatch named get_jobs get_workers
  dispatch-Shows op uuid p w srt st = ground (
    arith,
    create_worker-Shows uuid p w,
    delete_worker-Shows p w,
    create_job-Shows uuid p w,
    delete_job-Shows p w srt,
    get_job-same p w,
    look-Shows w,
  )

  -- Every request that returns or throws changes the registry of jobs and workers as it asks, and
  -- in no other way: a worker that was created is there although its start may have thrown, a
  -- deleted worker is gone, a deleted job is gone with all its workers, and what lists or is refused
  -- changes nothing. The table of workers is sorted.
  pub handle_obeys :
      (uuid : Text) (p : Tree) (w : World)
      → IsSorted w.workers
      → Settles (handle uuid p w).0
      → view (handle uuid p w).1 ≡ obey (command_of uuid p) (view w)
  unfolding handle command_of
  handle_obeys uuid p w srt st = go (get_string (lit "operation") p) refl
    where
      go :
          (o : Option Text)
          → get_string (lit "operation") p ≡ o
          → Shows (command_of uuid p) w (handle uuid p w).1
      go none h = rw (h, handle, command_of) (look-Shows w)
      go (some op) h =
          let named_op : handle uuid p w ≡ dispatch op uuid p w = rw (h, handle) in
          subst (λ r. Shows (command_of uuid p) w r.1) (sym named_op)
            (rw (h, command_of)
              (dispatch-Shows op uuid p w srt (subst (λ r. Settles r.0) named_op st)))
