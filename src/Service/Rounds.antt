-- ===== src/Service/Rounds.antt =====
-- The rounds of the background thread of the program of src/main.C, over whole runs.
use wye.Common.{◌≡◌, List, [], ◌∷◌, All, inl, inr}
use wye.Outcome.{ok}
use wye.Ptree.{PropertyTree}
use wye.Kernel.{Kernel}
use wye.Http.{Http, Json}
use wye.Manager.State.{new_manager}
use wye.Manager.Kept.{Any}
use wye.Manager.Monitor.{sweep}
use wye.Manager.Monitor.Sweep.{sweep-end}
use wye.Manager.Monitor.Launched.{Launches, AllHaveChild, sweep-AllHaveChild, handle-AllHaveChild}
use wye.Service.{Event, connection, accept_failed, tick, signal, children, serving, run}
use wye.Service.Kept.{EventIs, KeptByEvents, run-keeps}

module _ ⦃h : Http⦄ ⦃k : Kernel⦄ ⦃t : PropertyTree⦄ ⦃j : Json⦄ where
  open k use {Os}

  abbrev Anything : (Os → Os) → Type 0
  Anything f = Unit

  EventIs-Anything : (es : List Event) → All (EventIs Any Anything) es
  EventIs-Anything [] = tt
  EventIs-Anything (connection fuel uuid c ∷ es) = (tt, EventIs-Anything es)
  EventIs-Anything (accept_failed ∷ es) = (tt, EventIs-Anything es)
  EventIs-Anything (tick ∷ es) = (tt, EventIs-Anything es)
  EventIs-Anything (signal ∷ es) = (tt, EventIs-Anything es)
  EventIs-Anything (children f ∷ es) = (tt, EventIs-Anything es)

  AllHaveChild-KeptByEvents : Launches → KeptByEvents Any Anything AllHaveChild
  AllHaveChild-KeptByEvents can = record {
    handled = λ uuid p w _ v. handle-AllHaveChild can uuid p w v;
    swept = λ w v _. sweep-AllHaveChild w v;
    moved = λ f w _ v. v;
  }

  -- While the system refuses no launch, whatever else happens: in each state from which the program
  -- goes on serving, the next round of the background thread checks every worker and returns, so
  -- that no round ends the program.
  pub rounds_survive :
      (es : List Event) (s : Os)
      → Launches
      → (run es (new_manager s)).0 ≡ serving
      → (sweep (run es (new_manager s)).1).0 ≡ ok tt
  rounds_survive es s can up =
      let w = (run es (new_manager s)).1 in
      let v =
        run-keeps Any Anything AllHaveChild (AllHaveChild-KeptByEvents can) es (new_manager s)
          (EventIs-Anything es) tt up in
      elim (sweep-end w) [ inl (e, _) ↦ e | inr (_, n) ↦ absurd (n v) ]
