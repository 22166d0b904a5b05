-- ===== src/Manager/Monitor/Stop.antt =====
-- What manager::stop of src/manager.C leaves of the workers.
use wye.Common.{ℕ, ◌≡◌, ◌≢◌, refl, [], ◌∷◌, some, ◌∙◌, sym, subst}
use wye.OrderedMap.{Map}
use wye.OrderedMap.Entries.{Entries}
use wye.Text.{Text}
use wye.Text.Order.{text_order}
use wye.Outcome.{ok}
use wye.Outcome.Laws.{bind-eq-ok}
use wye.Kernel.{Kernel, Child, gone}
use wye.Process.{Process, destroy}
use wye.Process.Lifetime.{
  Spares, Reaped, Stoppable, destroy-Reaped, destroy_other, destroy_returns, destroy_keeps_gone,
}
use wye.Manager.State.{World}
use wye.Manager.Monitor.{destroy_all, stop}

module _ ⦃k : Kernel⦄ where
  open k use {Os, phase}

  -- The child of each worker can be stopped, and no two workers share one.
  abbrev pub Apart : Map Text Process → Os → Type 0
  Apart [] s = Unit
  Apart ((key, q) ∷ m) s =
      ((c : Child) → q.proc ≡ some c → Stoppable c.pid s × Entries (λ _ q'. Spares c.pid q') m)
      × Apart m s

  after_first :
      (q : Process) (key : Text) (m : Map Text Process) (s : Os)
      → (destroy q s).0 ≡ ok tt
      → destroy_all ((key, q) ∷ m) s ≡ destroy_all m (destroy q s).1
  unfolding destroy_all
  after_first q key m s h = rw h refl

  first_returns :
      (q : Process) (key : Text) (m : Map Text Process) (s : Os)
      → (destroy_all ((key, q) ∷ m) s).0 ≡ ok tt
      → (destroy q s).0 ≡ ok tt
  unfolding destroy_all
  first_returns q key m s h =
      let (u, e, _) = bind-eq-ok (λ _. destroy_all m) (destroy q) s tt h in e

  pub all_keeps_gone :
      (m : Map Text Process) (p : ℕ) (s : Os)
      → phase p s ≡ gone
      → (destroy_all m s).0 ≡ ok tt
      → phase p (destroy_all m s).1 ≡ gone
  all_keeps_gone [] p s g h = unfold destroy_all in g
  all_keeps_gone ((key, q) ∷ m) p s g h =
      let e = first_returns q key m s h in
      let next = after_first q key m s e in
      rw next (
        all_keeps_gone m p (destroy q s).1 (destroy_keeps_gone q p s g e)
          (subst (λ r. r.0 ≡ ok tt) next h))

  pub all-Reaped :
      (m : Map Text Process) (s : Os)
      → (destroy_all m s).0 ≡ ok tt
      → Entries (λ _ q. Reaped (destroy_all m s).1 q) m
  all-Reaped [] s h = tt
  all-Reaped ((key, q) ∷ m) s h =
      let e = first_returns q key m s h in
      let next = after_first q key m s e in
      let rest = subst (λ r. r.0 ≡ ok tt) next h in
      subst (λ r. Entries (λ _ p. Reaped r.1 p) ((key, q) ∷ m)) (sym next)
        (
          (λ c pr. all_keeps_gone m c.pid (destroy q s).1 (destroy-Reaped q s e c pr) rest),
          all-Reaped m (destroy q s).1 rest,
        )

  pub Apart-destroy :
      (q : Process) (m : Map Text Process) (s : Os)
      → ((c : Child) → q.proc ≡ some c → Entries (λ _ q'. Spares c.pid q') m)
      → Apart m s
      → Apart m (destroy q s).1
  Apart-destroy q [] s h a = tt
  Apart-destroy q ((key, p) ∷ m) s h a = (
    (λ c pr.
        let spared = destroy_other q c.pid s (λ d qr same. (h d qr).0 c pr (sym same)) in
        let ((known, heeded), alone) = a.0 c pr in
        ((known_after c spared.0 known, spared.1 ∙ heeded), alone)),
    Apart-destroy q m s (λ c pr. (h c pr).1) a.1,
  )
    where
      known_after :
          (c : Child)
          → phase c.pid (destroy q s).1 ≡ phase c.pid s
          → phase c.pid s ≢ gone
          → phase c.pid (destroy q s).1 ≢ gone
      known_after c e n g = n (sym e ∙ g)

  all_returns : (m : Map Text Process) (s : Os) → Apart m s → (destroy_all m s).0 ≡ ok tt
  all_returns [] s a = unfold destroy_all in refl
  all_returns ((key, q) ∷ m) s a =
      let e = destroy_returns q s (λ c pr. (a.0 c pr).0) in
      rw (after_first q key m s e)
        (all_returns m (destroy q s).1 (Apart-destroy q m s (λ c pr. (a.0 c pr).1) a.1))

  -- When each child is known to the system, ends on the signal and belongs to one worker only,
  -- stopping returns: no worker is left in the table, every child that a worker held has been
  -- reaped, and the jobs stay.
  pub stop_reaps_all :
      (w : World)
      → Apart w.workers w.os
      → ((stop w).0 ≡ ok tt)
        × ((stop w).1.workers ≡ [])
        × ((stop w).1.jobs ≡ w.jobs)
        × Entries (λ _ q. Reaped (stop w).1.os q) w.workers
  unfolding stop
  stop_reaps_all w a =
      let e = all_returns w.workers w.os a in (e, refl, refl, all-Reaped w.workers w.os e)
