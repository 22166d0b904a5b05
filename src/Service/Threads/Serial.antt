-- ===== src/Service/Threads/Serial.antt =====
-- The steps of the two threads of src/main.C against whole calls, one after the other.
use wye.Common.{false, List, [], ◌∷◌, ◌++◌, ◌≡◌, ◌≢◌, refl, sym, ap, subst, ◌∙◌, append_assoc}
use wye.OrderedMap.{Map}
use wye.Text.{Text}
use wye.Outcome.{Outcome, ok, throws, blocks, aborts}
use wye.Ptree.{PropertyTree}
use wye.Kernel.{Kernel}
use wye.Process.{Process, is_running}
use wye.Manager.State.{World}
use wye.Manager.Monitor.{check_workers, sweep, thread_end}
use wye.Service.Threads.{
  IsAlive, Entry, perform, needs_workers, Background, sleeping, checking, ended, idle, Threads,
  Answer, answered, Step, enters, answers, waits, takes, wakes, changes, checks, fails, rests,
  Steps, unmoved, moved, turn,
}
use wye.Service.Threads.Local.{beside, perform-IsLocal}

module _ ⦃k : Kernel⦄ ⦃t : PropertyTree⦄ where
  open k use {Os}
  open t use {Tree}

  -- Whole calls, whole rounds that end and changes of the children, in an order, with the answers,
  -- the last one first.
  pub data Serial (w0 : World) : List Answer → World → Type 0 where
    none_yet : Serial w0 [] w0
    call :
        {l : List Answer} {w : World} (c : Entry)
        → Serial w0 l w
        → Serial w0 (answered c (perform c w).0 l) (perform c w).1
    round :
        {l : List Answer} {w : World}
        → Serial w0 l w
        → (sweep w).0 ≡ ok tt
        → Serial w0 l (sweep w).1
    change :
        {l : List Answer} {w : World} (g : Os → Os)
        → Serial w0 l w
        → Serial w0 l (record w { os = g w.os })

  -- What is left of a round, behind the entries that it has checked.
  unfoldable pub resume : Map Text Process → Map Text Process → World → Outcome (Unit {0}) × World
  resume done rest w =
      let (r, (m, s)) = check_workers rest w.os in (r, record w { workers = done ++ m; os = s })

  -- The state that whole calls have made, and the one that the threads see.
  abbrev pub Agrees : World → World → Background → Type 0
  Agrees a w sleeping = a ≡ w
  Agrees a w (checking done rest) =
      (w ≡ beside a w.workers w.os) × (w.workers ≡ done ++ rest) × (sweep a ≡ resume done rest w)
  Agrees a w (ended o) = sweep a ≡ (o, w)

  sweep-resume : (w : World) → sweep w ≡ resume [] w.workers w
  unfolding sweep resume
  sweep-resume w = refl

  resume_nothing :
      (done : Map Text Process) (w : World)
      → resume done [] w ≡ (ok tt, record w { workers = done ++ [] })
  unfolding resume check_workers
  resume_nothing done w = refl

  resume_on :
      (done rest : Map Text Process) (key : Text) (q : Process) (w : World)
      → thread_end (is_running (q, w.os)).0 ≡ ok tt
      → resume done ((key, q) ∷ rest) w
        ≡ resume (done ++ (key, (is_running (q, w.os)).1.0) ∷ []) rest (turn done key q rest w)
  unfolding resume check_workers turn
  resume_on done rest key q w h =
      let (q', s) = (is_running (q, w.os)).1 in
      let (r, (m, s')) = check_workers rest s in
      rw (h, check_workers)
        (ap (λ ms. (r, record w { workers = ms; os = s' }))
          (sym (append_assoc done ((key, q') ∷ []) m)))

  resume_failed :
      (done rest : Map Text Process) (key : Text) (q : Process) (w : World) (o : Outcome (Unit {0}))
      → thread_end (is_running (q, w.os)).0 ≡ o
      → o ≢ ok tt
      → resume done ((key, q) ∷ rest) w ≡ (o, turn done key q rest w)
  unfolding resume check_workers turn
  resume_failed done rest key q w o h ne = go o h ne
    where
      go :
          (o : Outcome (Unit {0}))
          → thread_end (is_running (q, w.os)).0 ≡ o
          → o ≢ ok tt
          → resume done ((key, q) ∷ rest) w ≡ (o, turn done key q rest w)
      go (ok u) h ne = absurd (ne refl)
      go (throws e) h ne = rw (h, check_workers) refl
      go blocks h ne = rw (h, check_workers) refl
      go aborts h ne = rw (h, check_workers) refl

  -- A round does not depend on the jobs.
  sweep-beside :
      (a b : World)
      → sweep (beside b a.workers a.os) ≡ ((sweep a).0, record (sweep a).1 { jobs = b.jobs })
  unfolding sweep
  sweep-beside a b = refl

  resume-beside :
      (done rest : Map Text Process) (w b : World)
      → resume done rest (beside b w.workers w.os)
        ≡ ((resume done rest w).0, record (resume done rest w).1 { jobs = b.jobs })
  unfolding resume
  resume-beside done rest w b = refl

  -- A call that does without the mutex, in the middle of a round, is one in front of the round.
  answer-Agrees :
      (a w : World) (b : Background) (c : Entry)
      → IsAlive b
      → Agrees a w b
      → needs_workers c w.jobs ≡ false
      → ((perform c w).0 ≡ (perform c a).0) × Agrees (perform c a).1 (perform c w).1 b
  answer-Agrees a w sleeping c alive g h =
      (ap (λ x. (perform c x).0) (sym g), ap (λ x. (perform c x).1) g)
  answer-Agrees a w (ended o) c alive g h = elim alive [ ]
  answer-Agrees a w (checking done rest) c alive (same, split, g) h =
      let a' : World = (perform c a).1 in
      let w' : World = (perform c w).1 in
      let local = perform-IsLocal c a (sym (ap (λ x. needs_workers c x.jobs) same) ∙ h) in
      let at_w : perform c w ≡ ((perform c a).0, beside a' w.workers w.os) =
        ap (perform c) same ∙ local w.workers w.os in
      let left : w' ≡ beside a' w.workers w.os = ap (λ r. r.1) at_w in
      let kept : a' ≡ beside a' a.workers a.os = ap (λ r. r.1) (local a.workers a.os) in
      (
        ap (λ r. r.0) at_w,
        (
          left ∙ sym (ap (λ x. beside a' x.workers x.os) left),
          ap (λ x. x.workers) left ∙ split,
          ap sweep kept
              ∙ sweep-beside a a'
              ∙ ap (λ r. (r.0, record r.1 { jobs = a'.jobs })) g
              ∙ sym (resume-beside done rest w a')
              ∙ ap (resume done rest) (sym left),
        ),
      )

  -- The steps of the threads are whole calls and rounds, in an order.
  abbrev pub Refines : World → List Answer × Threads → Type 0
  Refines w0 (l, s) = (a : World) × Serial w0 l a × Agrees a s.world s.background

  Step-Refines :
      (w0 : World) {s s' : List Answer × Threads} → Step s s' → Refines w0 s → Refines w0 s'
  unfolding turn
  Step-Refines w0 (enters l w b c alive) r = r
  Step-Refines w0 (waits l w b c alive h) r = r
  Step-Refines w0 (answers l w b c alive h) (a, ser, g) =
      let (same, g') = answer-Agrees a w b c alive g h in
      (
        (perform c a).1,
        subst (λ o. Serial w0 (answered c o l) (perform c a).1) (sym same) (call c ser),
        g',
      )
  Step-Refines w0 (takes l w c) (a, ser, g) = (
    (perform c w).1,
    subst (λ x. Serial w0 (answered c (perform c x).0 l) (perform c x).1) g (call c ser),
    refl,
  )
  Step-Refines w0 (wakes l w f m) (a, ser, g) =
      (a, ser, (ap (λ x. beside x w.workers w.os) (sym g), refl, ap sweep g ∙ sweep-resume w))
  Step-Refines w0 (changes l w f g m) (a, ser, e) =
      let changed : World → World = λ x. record x { os = g x.os } in
      (changed a, change g ser, ap changed e)
  Step-Refines w0 (checks l w f done rest key q h) (a, ser, (same, split, g)) = (
    a,
    ser,
    (
      ap (λ x. record (turn done key q rest w) { jobs = x.jobs }) same,
      sym (append_assoc done ((key, (is_running (q, w.os)).1.0) ∷ []) rest),
      g ∙ resume_on done rest key q w h,
    ),
  )
  Step-Refines w0 (fails l w f done rest key q o h ne) (a, ser, (same, split, g)) =
      (a, ser, g ∙ resume_failed done rest key q w o h ne)
  Step-Refines w0 (rests l w f done) (a, ser, (same, split, g)) =
      let swept : sweep a ≡ (ok tt, w) =
        g ∙ resume_nothing done w ∙ ap (λ m. (ok tt, record w { workers = m })) (sym split) in
      ((sweep a).1, round ser (ap (λ r. r.0) swept), ap (λ r. r.1) swept)

  -- Whatever the two threads and, between rounds, the children do in whatever order: the answers are
  -- those of whole calls, whole rounds of the background thread and changes of the children that are
  -- made one after the other, each in the state that those before it left, and in which the rounds
  -- end. While the background thread sleeps, the state is the one that these have left; in the middle
  -- of a round, the rest of the round makes of it what a whole round makes of that one; and when the
  -- thread's function was left, a whole round ends so there.
  pub threads_serialize :
      (w0 : World) (l : List Answer) (s : Threads)
      → Steps ([], record { world = w0; foreground = idle; background = sleeping }) (l, s)
      → Refines w0 (l, s)
  threads_serialize w0 l s steps = go w0 steps refl
    where
      go :
          {s s' : List Answer × Threads} (w0 : World)
          → Steps s s'
          → s ≡ ([], record { world = w0; foreground = idle; background = sleeping })
          → Refines w0 s'
      go w0 (unmoved s) e = subst (Refines w0) (sym e) (w0, none_yet, refl)
      go w0 (moved steps step) e = Step-Refines w0 step (go w0 steps e)
