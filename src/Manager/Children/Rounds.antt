-- ===== src/Manager/Children/Rounds.antt =====
-- A round of the background thread of src/manager.C, the end of the service, and the children that
-- the workers hold.
use wye.Common.{ℕ, ◌≡◌, subst, [], ◌∷◌, ◌⊎◌, inl, inr}
use wye.OrderedMap.{Map}
use wye.OrderedMap.Entries.{Entries}
use wye.Text.{Text}
use wye.Text.Order.{text_order}
use wye.Outcome.{ok}
use wye.Kernel.{Kernel, gone}
use wye.Process.{Process, is_running}
use wye.Process.Lifetime.{Spares, Reaped}
use wye.Process.Holding.{Spares-cases, is_running_lets_go}
use wye.Manager.Monitor.Polling.{poll-gone, check-keeps}
use wye.Manager.State.{World}
use wye.Manager.Monitor.{check_workers, sweep, destroy_all, stop}
use wye.Manager.Monitor.Sweep.{check_step}
use wye.Manager.Monitor.Stop.{all_keeps_gone, all-Reaped}
use wye.Manager.Invariant.Rounds.{check-IsSorted}
use wye.Manager.Children.{Tracked}

module _ ⦃k : Kernel⦄ where
  open k use {Os, phase}

  abbrev Gone : ℕ → Os → Type 0
  Gone p s = phase p s ≡ gone

  abbrev Spared : ℕ → Map Text Process → Type 0
  Spared p = Entries (λ _ q. Spares p q)

  -- A process that no worker holds after a round was held by none before, or is gone now.
  check_lets_go :
      (m : Map Text Process) (p : ℕ) (s : Os)
      → (check_workers m s).0 ≡ ok tt
      → Spared p (check_workers m s).1.0
      → Spared p m ⊎ (phase p (check_workers m s).1.1 ≡ gone)
  check_lets_go [] p s h sp = inl tt
  check_lets_go ((key, q) ∷ m) p s h sp =
      let s' = (is_running (q, s)).1.1 in
      let (rest, ws, os) = check_step key q m s h in
      let (first, others) = subst (Spared p) ws sp in
      elim (is_running_lets_go q p s first) [
        | inr g ↦ inr (rw os (check-keeps (Gone p) (poll-gone p) m s' rest g))
        | inl a ↦ elim (check_lets_go m p s' rest others) [
          | inl b ↦ inl (a, b)
          | inr g ↦ inr (rw os g)
        ]
      ]

  pub sweep-Tracked : (w : World) → Tracked w → (sweep w).0 ≡ ok tt → Tracked (sweep w).1
  unfolding sweep
  sweep-Tracked w v h = record {
    sorted = check-IsSorted w.workers w.os v.sorted;
    held = λ p sp. elim (check_lets_go w.workers p w.os h sp) [
      | inl before ↦ check-keeps (Gone p) (poll-gone p) w.workers w.os h (v.held p before)
      | inr g ↦ g
    ];
  }

  Reaped-cases :
      (m : Map Text Process) (p : ℕ) (s : Os)
      → Entries (λ _ q. Reaped s q) m
      → Spared p m ⊎ (phase p s ≡ gone)
  Reaped-cases [] p s h = inl tt
  Reaped-cases ((key, q) ∷ m) p s h = elim (Spares-cases p q) [
    | inr (c, pr, e) ↦ inr (rw e (h.0 c pr))
    | inl a ↦ elim (Reaped-cases m p s h.1) [ inl b ↦ inl (a, b) | inr g ↦ inr g ]
  ]

  -- A service that stops leaves no process behind.
  pub stop_leaves_none :
      (w : World) → Tracked w → (stop w).0 ≡ ok tt → (p : ℕ) → phase p (stop w).1.os ≡ gone
  unfolding stop
  stop_leaves_none w v h p =
      elim (Reaped-cases w.workers p (destroy_all w.workers w.os).1 (all-Reaped w.workers w.os h)) [
        | inl sp ↦ all_keeps_gone w.workers p w.os (v.held p sp) h
        | inr g ↦ g
      ]
