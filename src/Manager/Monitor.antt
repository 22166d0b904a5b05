-- ===== src/Manager/Monitor.antt =====
-- manager::run and manager::stop of src/manager.C: one round of the background thread, and the end
-- of the service.
pub mod Sweep
pub mod Launched
pub mod Reaping
pub mod Noticed
pub mod Polling
pub mod Detection
pub mod Stop
use wye.Common.{Bool, [], ◌∷◌}
use wye.OrderedMap.{Map}
use wye.Text.{Text}
use wye.Outcome.{Exec, Outcome, ok, throws, blocks, aborts, ◌>>◌}
use wye.Kernel.{Kernel}
use wye.Process.{Process, is_running, destroy}
use wye.Manager.State.{World}

module _ ⦃k : Kernel⦄ where
  open k use {Os}

  -- The exception of one `is_running` leaves the thread's function, which ends the program.
  unfoldable pub thread_end : Outcome Bool → Outcome (Unit {0})
  thread_end (ok b) = ok tt
  thread_end (throws e) = aborts
  thread_end blocks = blocks
  thread_end aborts = aborts

  unfoldable pub check_workers :
      Map Text Process → Os → Outcome (Unit {0}) × (Map Text Process × Os)
  check_workers [] s = (ok tt, ([], s))
  check_workers ((key, q) ∷ m) s =
      let (r, (q', s')) = is_running (q, s) in
      elim (thread_end r) [
        | ok u ↦ (let (r', (m', s'')) = check_workers m s' in (r', ((key, q') ∷ m', s'')))
        | throws e ↦ (throws e, ((key, q') ∷ m, s'))
        | blocks ↦ (blocks, ((key, q') ∷ m, s'))
        | aborts ↦ (aborts, ((key, q') ∷ m, s'))
      ]

  unfoldable pub sweep : Exec World (Unit {0})
  unfolding check_workers thread_end
  sweep w = let (r, (m, s)) = check_workers w.workers w.os in (r, record w { workers = m; os = s })

  -- The destructors that `workers.clear()` runs. The order is the library's choice; here it is that
  -- of the keys.
  unfoldable pub destroy_all : Map Text Process → Exec Os (Unit {0})
  destroy_all [] s = (ok tt, s)
  destroy_all ((key, q) ∷ m) s = (destroy q >> destroy_all m) s

  -- manager::stop
  unfoldable pub stop : Exec World (Unit {0})
  unfolding destroy_all
  stop w = let (r, s) = destroy_all w.workers w.os in (r, record w { workers = []; os = s })
