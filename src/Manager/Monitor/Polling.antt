-- ===== src/Manager/Monitor/Polling.antt =====
-- What the polls of one round of the background thread of src/manager.C keep of the children.
use wye.Common.{
  ℕ, ◌≡◌, ◌≢◌, refl, sym, ap, subst, ◌∙◌, [], ◌∷◌, arith, none, some, Option, ℕ_discrete,
}
use wye.OrderedMap.{Map}
use wye.Text.{Text}
use wye.Text.Order.{text_order}
use wye.Outcome.{ok}
use wye.Kernel.{Kernel, Child, Phase, alive, zombie, gone}
use wye.Worker.{WorkerState, running, stopped}
use wye.Process.{Process, is_running}
use wye.Manager.Monitor.{check_workers}
use wye.Manager.Monitor.Sweep.{check_step}

module _ ⦃k : Kernel⦄ where
  open k use {Os, poll, phase, poll_alive, poll_zombie, poll_gone, poll_other}

  pub poll_self-gone : (p : ℕ) (s : Os) → phase p s ≡ gone → phase p (poll p s).1 ≡ gone
  poll_self-gone p s h = ap (λ x. phase p x.1) (poll_gone p s h) ∙ h

  pub poll_self-ended : (p : ℕ) (s : Os) → phase p s ≢ alive → phase p (poll p s).1 ≡ gone
  poll_self-ended p s h = go (phase p s) refl
    where
      go : (ph : Phase) → phase p s ≡ ph → phase p (poll p s).1 ≡ gone
      go alive e = absurd (h e)
      go zombie e = (poll_zombie p s e).1
      go gone e = poll_self-gone p s e

  -- What holds of a child that has ended, and of one that is reaped, a poll of any child keeps.
  pub poll-gone : (p r : ℕ) (s : Os) → phase p s ≡ gone → phase p (poll r s).1 ≡ gone
  poll-gone p r s h = elim (ℕ_discrete p r) [
    | yes e ↦ subst (λ x. phase p (poll x s).1 ≡ gone) e (poll_self-gone p s h)
    | no n ↦ poll_other r p s n ∙ h
  ]

  pub poll-ended : (p r : ℕ) (s : Os) → phase p s ≢ alive → phase p (poll r s).1 ≢ alive
  poll-ended p r s h = elim (ℕ_discrete p r) [
    | yes e ↦ subst (λ x. phase p (poll x s).1 ≢ alive) e (λ a. cc (poll_self-ended p s h))
    | no n ↦ (λ a. h (sym (poll_other r p s n) ∙ a))
  ]

  module _ (P : Os → Type 0) (keeps : (r : ℕ) (s : Os) → P s → P (poll r s).1) where
    pub is_running-keeps : (q : Process) (s : Os) → P s → P (is_running (q, s)).1.1
    unfolding is_running
    is_running-keeps q s h = go q.state q.proc refl refl
      where
        go :
            (st : WorkerState) (o : Option Child)
            → q.state ≡ st
            → q.proc ≡ o
            → P (is_running (q, s)).1.1
        go stopped o e f = subst P (sym same) h
          where
            same : (is_running (q, s)).1.1 ≡ s
            same = ground arith
        go running none e f = subst P (sym same) h
          where
            same : (is_running (q, s)).1.1 ≡ s
            same = ground arith
        go running (some c) e f = subst P (sym same) (keeps c.pid s h)
          where
            same : (is_running (q, s)).1.1 ≡ (poll c.pid s).1
            same = ground arith

    pub check-keeps :
        (m : Map Text Process) (s : Os)
        → (check_workers m s).0 ≡ ok tt
        → P s
        → P (check_workers m s).1.1
    check-keeps [] s e h = unfold check_workers in h
    check-keeps ((key, q) ∷ m) s e h =
        let (rest, _, os_eq) = check_step key q m s e in
        subst P (sym os_eq) (check-keeps m _ rest (is_running-keeps q s h))
