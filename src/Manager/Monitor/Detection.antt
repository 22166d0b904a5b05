-- ===== src/Manager/Monitor/Detection.antt =====
-- The background thread of src/manager.C and a worker whose child has ended.
use wye.Common.{
  ◌≡◌, ◌≢◌, refl, sym, ap, subst, ◌∙◌, ◌⊎◌, inl, inr, [], ◌∷◌, arith, none, some, true, false,
  Bool-cases,
}
use wye.OrderedMap.{Map, find, same}
use wye.OrderedMap.Laws.{find-hit, find-miss}
use wye.Text.{Text}
use wye.Text.Order.{text_order}
use wye.Outcome.{ok}
use wye.Kernel.{Kernel, Child, Phase, alive, zombie, gone}
use wye.Worker.{running, stopped}
use wye.Process.{Process, is_running}
use wye.Manager.State.{World}
use wye.Manager.Monitor.{check_workers, sweep}
use wye.Manager.Monitor.Sweep.{check_step}
use wye.Manager.Monitor.Polling.{poll-gone, poll-ended, check-keeps, is_running-keeps}

-- The worker as the background thread marks it.
abbrev pub marked : Process → Process
marked q = record q { worker = record q.worker { state = stopped }; proc = none }

module _ ⦃k : Kernel⦄ where
  open k use {Os, poll, phase, poll_alive, poll_zombie, poll_gone, poll_other}

  abbrev pub IsUp : Process → Child → Type 0
  IsUp q c = (q.state ≡ running) × (q.proc ≡ some c)

  is_running_gone :
      (q : Process) (c : Child) (s : Os)
      → IsUp q c
      → phase c.pid s ≡ gone
      → (is_running (q, s)).1.0 ≡ marked q
  unfolding is_running
  is_running_gone q c s u h = ground (arith, poll_gone c.pid s h)

  is_running_zombie :
      (q : Process) (c : Child) (s : Os)
      → IsUp q c
      → phase c.pid s ≡ zombie
      → ((is_running (q, s)).1.0 ≡ q) × (phase c.pid (is_running (q, s)).1.1 ≡ gone)
  unfolding is_running
  is_running_zombie q c s u h = ground (arith, poll_zombie c.pid s h)

  is_running_stopped : (q : Process) (s : Os) → q.state ≡ stopped → (is_running (q, s)).1.0 ≡ q
  unfolding is_running
  is_running_stopped q s h = ground arith

  -- The entry of a table at a key after a round, by its head.
  module _ (key j : Text) (x q : Process) (m : Map Text Process) (s : Os) where
    pub head_hit :
        (check_workers ((j, x) ∷ m) s).0 ≡ ok tt
        → same key j ≡ true
        → find key ((j, x) ∷ m) ≡ some q
        → (x ≡ q) × (find key (check_workers ((j, x) ∷ m) s).1.0 ≡ some (is_running (x, s)).1.0)
    head_hit e hit f =
        let (_, table, _) = check_step j x m s e in
        let eq : x ≡ q = cc (find-hit key j x m hit) in
        (eq, ap (find key) table ∙ find-hit key j _ _ hit)

    pub head_miss :
        (check_workers ((j, x) ∷ m) s).0 ≡ ok tt
        → same key j ≡ false
        → find key (check_workers ((j, x) ∷ m) s).1.0
          ≡ find key (check_workers m (is_running (x, s)).1.1).1.0
    head_miss e miss =
        let (_, table, _) = check_step j x m s e in ap (find key) table ∙ find-miss key j _ _ miss

  module _ (key : Text) (q : Process) (c : Child) (up : IsUp q c) where
    -- A reaped child is noticed in one round.
    detect_gone :
        (m : Map Text Process) (s : Os)
        → find key m ≡ some q
        → phase c.pid s ≡ gone
        → (check_workers m s).0 ≡ ok tt
        → find key (check_workers m s).1.0 ≡ some (marked q)
    detect_gone [] s f g e = absurd (unfold find in cc)
    detect_gone ((j, x) ∷ m) s f g e = elim (Bool-cases (same key j)) [
      | inl hit ↦
          let (eq, there) = head_hit key j x q m s e hit f in
          there ∙ ap (λ y. some (is_running (y, s)).1.0) eq ∙ ap some (is_running_gone q c s up g)
      | inr miss ↦
          let (rest, _, _) = check_step j x m s e in
          head_miss key j x q m s e miss
          ∙ detect_gone m _ (sym (find-miss key j x m miss) ∙ f)
              (is_running-keeps (λ s'. phase c.pid s' ≡ gone) (λ r s' h. poll-gone c.pid r s' h) x s
                g)
              rest
    ]

    -- What a round makes of a worker whose child has ended: it is marked, or the child is reaped.
    abbrev pub Noticed : Map Text Process → Os → Type 0
    Noticed m s =
        (find key (check_workers m s).1.0 ≡ some (marked q))
        ⊎ ((find key (check_workers m s).1.0 ≡ some q)
            × (phase c.pid (check_workers m s).1.1 ≡ gone))

    head_ended :
        (j : Text) (m : Map Text Process) (s : Os)
        → same key j ≡ true
        → phase c.pid s ≢ alive
        → (check_workers ((j, q) ∷ m) s).0 ≡ ok tt
        → Noticed ((j, q) ∷ m) s
    head_ended j m s hit ended e = go (phase c.pid s) refl
      where
        there : find key (check_workers ((j, q) ∷ m) s).1.0 ≡ some (is_running (q, s)).1.0
        there = (head_hit key j q q m s e hit (find-hit key j q m hit)).1

        go : (ph : Phase) → phase c.pid s ≡ ph → Noticed ((j, q) ∷ m) s
        go alive p = absurd (ended p)
        go gone p = inl (there ∙ ap some (is_running_gone q c s up p))
        go zombie p =
            let (kept, reaped) = is_running_zombie q c s up p in
            let (rest, _, os_eq) = check_step j q m s e in
            inr (
              there ∙ ap some kept,
              ap (phase c.pid) os_eq
                  ∙ check-keeps (λ s'. phase c.pid s' ≡ gone) (λ r s' h. poll-gone c.pid r s' h) m _
                      rest reaped,
            )

    pub detect_ended :
        (m : Map Text Process) (s : Os)
        → find key m ≡ some q
        → phase c.pid s ≢ alive
        → (check_workers m s).0 ≡ ok tt
        → Noticed m s
    detect_ended [] s f g e = absurd (unfold find in cc)
    detect_ended ((j, x) ∷ m) s f g e = elim (Bool-cases (same key j)) [
      | inl hit ↦
          let (eq, _) = head_hit key j x q m s e hit f in
          subst (λ y. (check_workers ((j, y) ∷ m) s).0 ≡ ok tt → Noticed ((j, y) ∷ m) s) (sym eq)
            (head_ended j m s hit g) e
      | inr miss ↦
          let (rest, _, os_eq) = check_step j x m s e in
          let ended =
            is_running-keeps (λ s'. phase c.pid s' ≢ alive) (λ r s' h. poll-ended c.pid r s' h) x s
              g in
          let found = head_miss key j x q m s e miss in
          elim (detect_ended m _ (sym (find-miss key j x m miss) ∙ f) ended rest) [
            | inl a ↦ inl (found ∙ a)
            | inr (a, b) ↦ inr (found ∙ a, ap (phase c.pid) os_eq ∙ b)
          ]
    ]

  -- A worker that is marked stays as it is.
  stays_marked :
      (key : Text) (q : Process) (m : Map Text Process) (s : Os)
      → q.state ≡ stopped
      → find key m ≡ some q
      → (check_workers m s).0 ≡ ok tt
      → find key (check_workers m s).1.0 ≡ some q
  stays_marked key q [] s st f e = absurd (unfold find in cc)
  stays_marked key q ((j, x) ∷ m) s st f e = elim (Bool-cases (same key j)) [
    | inl hit ↦
        let (eq, there) = head_hit key j x q m s e hit f in
        there ∙ ap (λ y. some (is_running (y, s)).1.0) eq ∙ ap some (is_running_stopped q s st)
    | inr miss ↦
        let (rest, _, _) = check_step j x m s e in
        head_miss key j x q m s e miss
        ∙ stays_marked key q m _ st (sym (find-miss key j x m miss) ∙ f) rest
  ]

  -- A running worker whose child has ended, whether or not it was reaped before, is marked as
  -- stopped, and has lost its child, at the latest after two rounds of the background thread that
  -- return, with nothing between them.
  pub two_sweeps_detect :
      (key : Text) (q : Process) (c : Child) (w : World)
      → find key w.workers ≡ some q
      → q.state ≡ running
      → q.proc ≡ some c
      → phase c.pid w.os ≢ alive
      → (sweep w).0 ≡ ok tt
      → (sweep (sweep w).1).0 ≡ ok tt
      → find key (sweep (sweep w).1).1.workers ≡ some (marked q)
  unfolding sweep
  two_sweeps_detect key q c w f st pr ended e e' =
      elim (detect_ended key q c (st, pr) w.workers w.os f ended e) [
        | inl a ↦ stays_marked key (marked q) _ _ refl a e'
        | inr (a, b) ↦ detect_gone key q c (st, pr) _ _ a b e'
      ]
