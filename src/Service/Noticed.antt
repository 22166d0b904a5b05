-- ===== src/Service/Noticed.antt =====
-- A worker whose child has ended, in the runs of the program of src/main.C.
use wye.Common.{◌≡◌, ◌≢◌, List, some, All}
use wye.OrderedMap.{find}
use wye.Text.{Text}
use wye.Text.Order.{text_order}
use wye.Outcome.{ok}
use wye.Ptree.{PropertyTree}
use wye.Kernel.{Kernel, Child, alive}
use wye.Http.{Http, Json}
use wye.Worker.{running, stopped}
use wye.Process.{Process}
use wye.Process.Holding.{NotReused}
use wye.Manager.State.{World}
use wye.Manager.Monitor.{sweep}
use wye.Manager.Monitor.Noticed.{IsDying, sweep-starts, sweep-IsDying, sweep-marks, handle-IsDying}
use wye.Service.{Event, serving, run}
use wye.Service.Kept.{EventIs, KeptByEvents, run-keeps}
use wye.Service.Children.{MakesNone}

module _ ⦃h : Http⦄ ⦃k : Kernel⦄ ⦃t : PropertyTree⦄ ⦃j : Json⦄ where
  open k use {Os, phase}

  IsDying-KeptByEvents :
      (id : Text) (c : Child)
      → NotReused c.pid
      → KeptByEvents (λ uuid. id ≢ uuid) MakesNone (IsDying id c)
  IsDying-KeptByEvents id c new = record {
    handled = handle-IsDying id c new;
    swept = sweep-IsDying id c;
    moved = λ f w g v. record { reaped = g c.pid w.os v.reaped; holds = v.holds };
  }

  -- A running worker whose child has ended: after a round of the background thread that returns,
  -- whatever connections, rounds and ends of children come while the program goes on serving, and
  -- one more round that returns, the worker is marked as stopped if it is still in the table. No
  -- request gets its identifier anew, and no launch its child's number.
  pub ended_child_noticed :
      (es : List Event) (w : World) (id : Text) (q q' : Process) (c : Child)
      → find id w.workers ≡ some q
      → q.state ≡ running
      → q.proc ≡ some c
      → phase c.pid w.os ≢ alive
      → NotReused c.pid
      → All (EventIs (λ uuid. id ≢ uuid) MakesNone) es
      → (sweep w).0 ≡ ok tt
      → (run es (sweep w).1).0 ≡ serving
      → (sweep (run es (sweep w).1).1).0 ≡ ok tt
      → find id (sweep (run es (sweep w).1).1).1.workers ≡ some q'
      → q'.state ≡ stopped
  ended_child_noticed es w id q q' c f up pr ended new kinds first on second f' =
      let v =
        run-keeps (λ uuid. id ≢ uuid) MakesNone (IsDying id c) (IsDying-KeptByEvents id c new) es
          (sweep w).1 kinds (sweep-starts id c q w (up, pr) f ended first) on in
      sweep-marks id c (run es (sweep w).1).1 q' v second f'
