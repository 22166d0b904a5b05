-- ===== src/Service/Children.antt =====
-- The child processes of the program of src/main.C, over whole runs.
use wye.Common.{ℕ, ◌≡◌, ◌⊎◌, inl, inr, List, All}
use wye.Outcome.{ok}
use wye.Ptree.{PropertyTree}
use wye.Kernel.{Kernel, gone}
use wye.Http.{Http, Json}
use wye.Text.Order.{text_order}
use wye.Manager.State.{new_manager}
use wye.Manager.Monitor.{stop}
use wye.Manager.Kept.{Any}
use wye.Manager.Children.{Tracked, IsHeld, IsHeld-cases}
use wye.Manager.Children.Requests.{handle-Tracked}
use wye.Manager.Children.Rounds.{sweep-Tracked, stop_leaves_none}
use wye.Service.{Event, serving, run}
use wye.Service.Kept.{EventIs, KeptByEvents, run-keeps}

module _ ⦃h : Http⦄ ⦃k : Kernel⦄ ⦃t : PropertyTree⦄ ⦃j : Json⦄ where
  open k use {Os, phase}

  -- A process that is unknown stays unknown while children run and end by themselves.
  abbrev pub MakesNone : (Os → Os) → Type 0
  MakesNone f = (p : ℕ) (s : Os) → phase p s ≡ gone → phase p (f s) ≡ gone

  Tracked-KeptByEvents : KeptByEvents Any MakesNone Tracked
  Tracked-KeptByEvents = record {
    handled = λ uuid p w _ v. handle-Tracked uuid p w v;
    swept = sweep-Tracked;
    moved = λ f w g v. record { sorted = v.sorted; held = λ p sp. g p w.os (v.held p sp) };
  }

  run-Tracked :
      (es : List Event) (s : Os)
      → ((p : ℕ) → phase p s ≡ gone)
      → All (EventIs Any MakesNone) es
      → (run es (new_manager s)).0 ≡ serving
      → Tracked (run es (new_manager s)).1
  run-Tracked es s none_yet natural up =
      run-keeps Any MakesNone Tracked Tracked-KeptByEvents es (new_manager s) natural
        (record { sorted = tt; held = λ p _. none_yet p }) up

  -- From a start at which the system knows no process of the service, whatever connections, rounds
  -- and ends of children come in whatever order while the program goes on serving: every process is
  -- either unknown to the system or the child of a worker that the table finds under some
  -- identifier. The children make no process by themselves.
  pub no_child_lost :
      (es : List Event) (s : Os)
      → ((p : ℕ) → phase p s ≡ gone)
      → All (EventIs Any MakesNone) es
      → (run es (new_manager s)).0 ≡ serving
      → (p : ℕ) → let w = (run es (new_manager s)).1 in (phase p w.os ≡ gone) ⊎ IsHeld p w.workers
  no_child_lost es s none_yet natural up p =
      let v = run-Tracked es s none_yet natural up in
      elim (IsHeld-cases p (run es (new_manager s)).1.workers v.sorted) [
        | inl sp ↦ inl (v.held p sp)
        | inr h ↦ inr h
      ]

  -- A service that went on serving in such a run and then stops, with a call of `stop` that returns,
  -- leaves no process behind: the system knows none.
  pub clean_stop_leaves_none :
      (es : List Event) (s : Os)
      → ((p : ℕ) → phase p s ≡ gone)
      → All (EventIs Any MakesNone) es
      → (run es (new_manager s)).0 ≡ serving
      → (stop (run es (new_manager s)).1).0 ≡ ok tt
      → (p : ℕ) → phase p (stop (run es (new_manager s)).1).1.os ≡ gone
  clean_stop_leaves_none es s none_yet natural up =
      stop_leaves_none (run es (new_manager s)).1 (run-Tracked es s none_yet natural up)
