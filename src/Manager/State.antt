-- ===== src/Manager/State.antt =====
-- The state of src/manager.h: the two tables, and the operating system under them. A worker is
-- reached only through its entry of the table, so the table holds the objects themselves.
use wye.Common.{[]}
use wye.OrderedMap.{Map}
use wye.Text.{Text}
use wye.Outcome.{Exec}
use wye.Kernel.{Kernel}
use wye.Job.{Job}
use wye.Process.{Process}

module _ ⦃k : Kernel⦄ where
  open k use {Os}

  pub record World : Type 0 where
    pub workers : Map Text Process
    pub jobs : Map Text Job
    pub os : Os

  -- The constructor.
  abbrev pub new_manager : Os → World
  new_manager s = record { workers = []; jobs = []; os = s }

  -- A call that reaches the operating system only.
  abbrev pub on_os : {A : Type 0} → Exec Os A → Exec World A
  on_os m w = let (r, s) = m w.os in (r, record w { os = s })
