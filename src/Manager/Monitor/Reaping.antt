-- ===== src/Manager/Monitor/Reaping.antt =====
-- What a round of the background thread of src/manager.C reaps, and where the entries behind it come
-- from.
use wye.Common.{◌≡◌, ◌≢◌, sym, ap, subst, ◌∙◌, inl, inr, ℕ, [], ◌∷◌, arith, some, Bool-cases}
use wye.OrderedMap.{Map, find, same}
use wye.OrderedMap.Laws.{find-hit, find-miss}
use wye.Text.{Text}
use wye.Text.Order.{text_order}
use wye.Outcome.{ok}
use wye.Kernel.{Kernel, Child, alive, gone}
use wye.Process.{Process, is_running}
use wye.Manager.Monitor.{check_workers}
use wye.Manager.Monitor.Sweep.{check_step}
use wye.Manager.Monitor.Polling.{
  poll-gone, poll-ended, poll_self-ended, check-keeps, is_running-keeps,
}
use wye.Manager.Monitor.Detection.{IsUp, head_hit, head_miss}

module _ ⦃k : Kernel⦄ where
  open k use {Os, phase, poll, poll_gone}

  -- Where an entry after a round comes from.
  module _ (P : Os → Type 0) (keeps : (r : ℕ) (s : Os) → P s → P (poll r s).1) (key : Text) where
    pub find-checked :
        (m : Map Text Process) (s : Os) (q' : Process)
        → P s
        → (check_workers m s).0 ≡ ok tt
        → find key (check_workers m s).1.0 ≡ some q'
        → (q : Process) × (s' : Os) × (find key m ≡ some q) × P s' × (q' ≡ (is_running (q, s')).1.0)
    find-checked [] s q' h e f = absurd (unfold check_workers find in cc)
    find-checked ((j, x) ∷ m) s q' h e f = elim (Bool-cases (same key j)) [
      | inl hit ↦
          let found = find-hit key j x m hit in
          let (_, there) = head_hit key j x x m s e hit found in
          let eq : q' ≡ (is_running (x, s)).1.0 = cc in (x, s, found, h, eq)
      | inr miss ↦
          let (rest, _, _) = check_step j x m s e in
          let (q, s', found, h', eq) =
            find-checked m (is_running (x, s)).1.1 q' (is_running-keeps P keeps x s h) rest
              (sym (head_miss key j x x m s e miss) ∙ f) in
          (q, s', find-miss key j x m miss ∙ found, h', eq)
    ]

  is_running-reaps :
      (q : Process) (c : Child) (s : Os)
      → IsUp q c
      → phase c.pid s ≢ alive
      → phase c.pid (is_running (q, s)).1.1 ≡ gone
  unfolding is_running
  is_running-reaps q c s u h = ground (arith, poll_self-ended c.pid s h)

  -- A round reaps each child that has ended.
  pub check-reaps :
      (key : Text) (q : Process) (c : Child) (m : Map Text Process) (s : Os)
      → IsUp q c
      → find key m ≡ some q
      → phase c.pid s ≢ alive
      → (check_workers m s).0 ≡ ok tt
      → phase c.pid (check_workers m s).1.1 ≡ gone
  check-reaps key q c [] s up f ended e = absurd (unfold find in cc)
  check-reaps key q c ((j, x) ∷ m) s up f ended e =
      let (rest, _, os) = check_step j x m s e in
      elim (Bool-cases (same key j)) [
        | inl hit ↦
            let (eq, _) = head_hit key j x q m s e hit f in
            let reaped = is_running-reaps x c s (subst (λ y. IsUp y c) (sym eq) up) ended in
            ap (phase c.pid) os
            ∙ check-keeps (λ s'. phase c.pid s' ≡ gone) (poll-gone c.pid) m _ rest reaped
        | inr miss ↦
            ap (phase c.pid) os
            ∙ check-reaps key q c m _ up (sym (find-miss key j x m miss) ∙ f)
                (is_running-keeps (λ s'. phase c.pid s' ≢ alive) (poll-ended c.pid) x s ended) rest
      ]
