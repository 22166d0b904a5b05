-- ===== src/Manager/Registry/Shows.antt =====
-- A state of src/manager.C that shows what a command makes of the registry.
use wye.Common.{◌≡◌, refl, arith, none}
use wye.Text.{lit}
use wye.Text.Order.{text_order}
use wye.Ptree.{PropertyTree}
use wye.Kernel.{Kernel}
use wye.Manager.State.{World}
use wye.Manager.Workers.{delete_worker}
use wye.Manager.Jobs.{delete_job}
use wye.Manager.Registry.{Command, look, obey, view}

module _ ⦃k : Kernel⦄ ⦃t : PropertyTree⦄ where
  open k use {Os}
  open t use {Tree, get_string, empty}

  -- The state shows the registry that the command makes of the one before.
  abbrev pub Shows : Command → World → World → Type 0
  Shows c w w' = view w' ≡ obey c (view w)

  pub look-Shows : (w : World) → Shows look w w
  unfolding obey
  look-Shows w = refl

  pub delete_nameless :
      (p : Tree) (w : World)
      → get_string (lit "id") p ≡ none
      → ((delete_worker p w).1 ≡ w) × ((delete_job p w).1 ≡ w)
  unfolding delete_worker delete_job
  delete_nameless p w h = (ground arith, ground arith)
