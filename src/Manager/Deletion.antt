-- ===== src/Manager/Deletion.antt =====
-- The loop of manager::delete_job in src/manager.C against one pass over the table: the loop starts
-- again from the first entry after each erased worker, and the pass meets each entry once.
use wye.Common.{
  ℕ, zero, suc, ◌<◌, ◌≡◌, refl, sym, ap, subst, ◌∙◌, inl, inr, true, false, some, [], ◌∷◌, ◌++◌,
  append_assoc, arith, All, length, Bool-cases,
}
use wye.OrderedMap.{Map}
use wye.OrderedMap.Laws.{IsSorted}
use wye.OrderedMap.Splits.{Fresh, IsSorted-split, find-split, erase-split}
use wye.Text.{Text, text_eq}
use wye.Text.Order.{text_order}
use wye.Outcome.{Outcome, ok, throws, blocks, aborts, continue, ◌>>◌}
use wye.Kernel.{Kernel}
use wye.Job.{Job}
use wye.Process.{Process, destroy}
use wye.Manager.State.{World, on_os}
use wye.Manager.Workers.{erase_worker, drop_worker}
use wye.Manager.Tables.{round_hit, round_miss}
use wye.Manager.Jobs.{first_of_job, erase_workers_of, erase_all_of}

module _ ⦃k : Kernel⦄ where
  open k use {Os}

  -- What is left of a table, and of the system, by a pass that ended so.
  abbrev pub Left : Type 0
  Left = Outcome (Unit {0}) × Map Text Process × Os

  unfoldable pub keep : Text × Process → Left → Left
  keep e (r, m, s) = (r, e ∷ m, s)

  -- The pass ends where a destructor does not return.
  unfoldable pub continue_pass : (Os → Left) → Map Text Process → Outcome (Unit {0}) × Os → Left
  continue_pass f m (ok u, s) = f s
  continue_pass f m (throws e, s) = (throws e, m, s)
  continue_pass f m (blocks, s) = (blocks, m, s)
  continue_pass f m (aborts, s) = (aborts, m, s)

  -- One pass: each worker of the job is destroyed, and the others stay.
  unfoldable pub destroy_job : Text → Map Text Process → Os → Left
  destroy_job id [] s = (ok tt, [], s)
  destroy_job id ((key, q) ∷ m) s = elim (text_eq q.job_id id) [
    | false ↦ keep (key, q) (destroy_job id m s)
    | true ↦ continue_pass (λ s'. destroy_job id m s') m (destroy q s)
  ]

  abbrev pub with_left : World → Left → Outcome (Unit {0}) × World
  with_left w (r, m, s) = (r, record w { workers = m; os = s })

  keep_all : Map Text Process → Left → Left
  keep_all pre (r, m, s) = (r, pre ++ m, s)

  abbrev OfOther : Text → Map Text Process → Type 0
  OfOther id m = All (λ e. text_eq e.1.job_id id ≡ false) m

  first-append :
      (id : Text) (pre m : Map Text Process)
      → OfOther id pre
      → first_of_job id (pre ++ m) ≡ first_of_job id m
  unfolding first_of_job
  first-append id [] m h = refl
  first-append id ((key, q) ∷ pre) m h = ground (arith, first-append id pre m h.1)

  first_here :
      (id key : Text) (q : Process) (m : Map Text Process)
      → text_eq q.job_id id ≡ true
      → first_of_job id ((key, q) ∷ m) ≡ some key
  unfolding first_of_job
  first_here id key q m h = rw h

  module _ (id key : Text) (q : Process) (m : Map Text Process) (s : Os) where
    pass_hit :
        text_eq q.job_id id ≡ true
        → destroy_job id ((key, q) ∷ m) s
          ≡ continue_pass (λ s'. destroy_job id m s') m (destroy q s)
    unfolding destroy_job
    pass_hit h = rw (h, destroy_job)

    pass_miss :
        text_eq q.job_id id ≡ false
        → destroy_job id ((key, q) ∷ m) s ≡ keep (key, q) (destroy_job id m s)
    unfolding destroy_job
    pass_miss h = rw (h, destroy_job)

  keep_all-keep :
      (pre : Map Text Process) (e : Text × Process) (l : Left)
      → keep_all (pre ++ e ∷ []) l ≡ keep_all pre (keep e l)
  unfolding keep_all keep
  keep_all-keep pre e (r, m, s) = ap (λ x. (r, x, s)) (append_assoc pre (e ∷ []) m)

  OfOther-snoc :
      (id key : Text) (q : Process) (pre : Map Text Process)
      → OfOther id pre
      → text_eq q.job_id id ≡ false
      → OfOther id (pre ++ (key, q) ∷ [])
  OfOther-snoc id key q [] h e = (e, tt)
  OfOther-snoc id key q ((j, p) ∷ pre) h e = (h.0, OfOther-snoc id key q pre h.1 e)

  abbrev at : Map Text Job → Map Text Process → Os → World
  at js m s = record { workers = m; jobs = js; os = s }

  module _ (id : Text) (js : Map Text Job) where
    erase_worker-split :
        (key : Text) (q : Process) (pre m : Map Text Process) (s : Os)
        → Fresh key pre
        → Fresh key m
        → erase_worker key (at js (pre ++ (key, q) ∷ m) s) ≡ on_os (destroy q) (at js (pre ++ m) s)
    unfolding erase_worker drop_worker
    erase_worker-split key q pre m s f g =
        rw (find-split key q pre m f, erase-split key q pre m f g)

    -- The first call of a round, and what the round makes of it.
    round_end :
        (n : ℕ) (q : Process) (pre m : Map Text Process) (s : Os)
        → ((s' : Os)
            → erase_workers_of n id (at js (pre ++ m) s')
              ≡ with_left (at js [] s') (keep_all pre (destroy_job id m s')))
        → (on_os (destroy q) >> erase_workers_of n id) (at js (pre ++ m) s)
          ≡ with_left (at js [] s) (keep_all pre (continue_pass (destroy_job id m) m (destroy q s)))
    unfolding continue_pass keep_all
    round_end n q pre m s rest = go (destroy q s)
      where
        go :
            (r : Outcome (Unit {0}) × Os)
            → continue (λ _. erase_workers_of n id) r.0 (at js (pre ++ m) r.1)
              ≡ with_left (at js [] s) (keep_all pre (continue_pass (destroy_job id m) m r))
        go (ok u, s') = rest s'
        go (throws e, s') = refl
        go (blocks, s') = refl
        go (aborts, s') = refl

    loop-eq-pass :
        (n : ℕ) (pre m : Map Text Process) (s : Os)
        → OfOther id pre
        → IsSorted (pre ++ m)
        → length m < n
        → erase_workers_of n id (at js (pre ++ m) s)
          ≡ with_left (at js [] s) (keep_all pre (destroy_job id m s))
    unfolding destroy_job keep_all
    loop-eq-pass zero pre m s o srt h = absurd (omega arith)
    loop-eq-pass (suc n) pre [] s o srt h =
        round_miss n id (at js (pre ++ []) s)
          (first-append id pre [] o ∙ (unfold first_of_job in refl))
    loop-eq-pass (suc n) pre ((key, q) ∷ m) s o srt h = elim (Bool-cases (text_eq q.job_id id)) [
      | inl hit ↦
          let (fp, fm, rest) = IsSorted-split key q pre m srt in
          round_hit n id key (at js (pre ++ (key, q) ∷ m) s)
            (first-append id pre ((key, q) ∷ m) o ∙ first_here id key q m hit)
          ∙ ap (λ r. continue (λ _. erase_workers_of n id) r.0 r.1)
              (erase_worker-split key q pre m s fp fm)
          ∙ round_end n q pre m s (λ s'. loop-eq-pass n pre m s' o rest (omega arith))
          ∙ ap (λ l. with_left (at js [] s) (keep_all pre l)) (sym (pass_hit id key q m s hit))
      | inr miss ↦
          let snoc = append_assoc pre ((key, q) ∷ []) m in
          subst
            (λ l.
              erase_workers_of (suc n) id (at js l s)
              ≡ with_left (at js [] s) (keep_all (pre ++ (key, q) ∷ []) (destroy_job id m s)))
            snoc
            (loop-eq-pass (suc n) (pre ++ (key, q) ∷ []) m s (OfOther-snoc id key q pre o miss)
              (subst (λ l. IsSorted l) (sym snoc) srt) (omega arith))
          ∙ ap (with_left (at js [] s)) (
              keep_all-keep pre (key, q) (destroy_job id m s)
              ∙ ap (keep_all pre) (sym (pass_miss id key q m s miss)))
    ]

  -- While the table is sorted, the loop of delete_job ends, and leaves the outcome, the table and
  -- the system that one pass over the table leaves: its rounds never run out.
  pub erase_all_of-eq-pass :
      (id : Text) (w : World)
      → IsSorted w.workers
      → erase_all_of id w ≡ with_left w (destroy_job id w.workers w.os)
  unfolding erase_all_of keep_all
  erase_all_of-eq-pass id w srt =
      loop-eq-pass id w.jobs (suc (length w.workers)) [] w.workers w.os tt srt (omega arith)
