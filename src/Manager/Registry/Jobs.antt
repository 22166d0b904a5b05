-- ===== src/Manager/Registry/Jobs.antt =====
-- create_job and delete_job of src/manager.C as changes of the registry.
use wye.Common.{
  suc, length, ◌≡◌, ◌≢◌, refl, sym, ap, subst, ◌∙◌, arith, Option, none, some, inl, inr,
  Option-cases,
}
use wye.OrderedMap.{find, insert, erase}
use wye.OrderedMap.Laws.{IsSorted, find-insert, find-erase}
use wye.Text.{Text, lit}
use wye.Text.Order.{text_order}
use wye.Outcome.{Outcome, ok, throws, blocks, aborts}
use wye.Ptree.{PropertyTree}
use wye.Kernel.{Kernel}
use wye.Job.{Job}
use wye.Manager.State.{World}
use wye.Manager.Jobs.{create_job, delete_job, erase_all_of}
use wye.Manager.Errors.{erase_workers_of-ne-throws}
use wye.Manager.Deletion.{destroy_job, with_left, erase_all_of-eq-pass}
use wye.Manager.DeleteJob.{others, delete_known_job}
use wye.Manager.Registry.{
  open_job, close_job, look, obey, close_known, view, view_lem, by_id, open_of,
}
use wye.Manager.Registry.Lookups.{owner-others}
use wye.Manager.Registry.Shows.{Shows, look-Shows, delete_nameless}

module _ ⦃k : Kernel⦄ ⦃t : PropertyTree⦄ where
  open k use {Os}
  open t use {Tree, get_string, empty}

  open_job-Shows :
      (j : Job) (w : World) → Shows (open_job j) w (record w { jobs = insert j.id j w.jobs })
  unfolding obey view
  open_job-Shows j w =
      view_lem (record w { jobs = insert j.id j w.jobs }) (obey (open_job j) (view w))
        (λ i. find-insert i j.id j w.jobs) (λ i. refl)

  pub create_job-Shows :
      (uuid : Text) (p : Tree) (w : World)
      → Shows
          (open_of uuid (get_string (lit "name") p) (get_string (lit "description") p))
          w
          (create_job uuid p w).1
  unfolding create_job open_of
  create_job-Shows uuid p w =
      go (get_string (lit "name") p) (get_string (lit "description") p) refl refl
    where
      go :
          (n d : Option Text)
          → get_string (lit "name") p ≡ n
          → get_string (lit "description") p ≡ d
          → Shows (open_of uuid n d) w (create_job uuid p w).1
      go none d h g = rw (h, create_job) (look-Shows w)
      go (some n) none h g = rw (h, g, create_job) (look-Shows w)
      go (some n) (some d) h g =
          rw (h, g, create_job) (open_job-Shows (record { id = uuid; name = n; description = d }) w)

  -- The request returned or threw: no destructor ended the program, and nothing waits for ever.
  abbrev pub Settles : Outcome Tree → Type 0
  Settles r = (r ≢ aborts) × (r ≢ blocks)

  closed-Shows :
      (id : Text) (j : Job) (w : World) (s : Os)
      → IsSorted w.workers
      → find id w.jobs ≡ some j
      → Shows
          (close_job id)
          w
          (record w { workers = others id w.workers; jobs = erase id w.jobs; os = s })
  unfolding obey view close_known
  closed-Shows id j w s srt f = rw f (
      view_lem (record w { workers = others id w.workers; jobs = erase id w.jobs; os = s })
        (close_known id (some j) (view w)) (λ i. find-erase i id w.jobs)
        (λ i. owner-others i id w.workers srt))

  unknown_job-Shows : (id : Text) (w : World) → find id w.jobs ≡ none → Shows (close_job id) w w
  unfolding obey view close_known
  unknown_job-Shows id w f = rw f refl

  delete_unknown_job :
      (p : Tree) (w : World) (id : Text)
      → get_string (lit "id") p ≡ some id
      → find id w.jobs ≡ none
      → (delete_job p w).1 ≡ w
  unfolding delete_job
  delete_unknown_job p w id h f = ground arith

  -- The deletion of a job that settles has destroyed each worker of the job.
  pass-Settles :
      (p : Tree) (w : World) (id : Text) (j : Job)
      → IsSorted w.workers
      → get_string (lit "id") p ≡ some id
      → find id w.jobs ≡ some j
      → Settles (delete_job p w).0
      → (destroy_job id w.workers w.os).0 ≡ ok tt
  unfolding delete_job
  pass-Settles p w id j srt h f st = sym (ap (λ r. r.0) pass) ∙ go (erase_all_of id w).0 refl
    where
      pass : erase_all_of id w ≡ with_left w (destroy_job id w.workers w.os)
      pass = erase_all_of-eq-pass id w srt

      go : (r : Outcome (Unit {0})) → (erase_all_of id w).0 ≡ r → r ≡ ok tt
      go (ok u) e = refl
      go (throws x) e =
          absurd
            (erase_workers_of-ne-throws (suc (length w.workers)) id w x (unfold erase_all_of in e))
      go blocks e = absurd (st.1 (ground arith))
      go aborts e = absurd (st.0 (ground arith))

  pub delete_job-Shows :
      (p : Tree) (w : World)
      → IsSorted w.workers
      → Settles (delete_job p w).0
      → Shows (by_id close_job (get_string (lit "id") p)) w (delete_job p w).1
  unfolding by_id
  delete_job-Shows p w srt st = go (get_string (lit "id") p) refl
    where
      go :
          (o : Option Text)
          → get_string (lit "id") p ≡ o
          → Shows (by_id close_job o) w (delete_job p w).1
      go none h = subst (Shows look w) (sym (delete_nameless p w h).1) (look-Shows w)
      go (some id) h = elim (Option-cases (find id w.jobs)) [
        | inl f ↦
            subst (Shows (close_job id) w) (sym (delete_unknown_job p w id h f))
              (unknown_job-Shows id w f)
        | inr (j, f) ↦
            let d = pass-Settles p w id j srt h f st in
            subst (λ r. Shows (close_job id) w r.1)
              (sym (delete_known_job p w id j h f (erase_all_of-eq-pass id w srt) d))
              (closed-Shows id j w (destroy_job id w.workers w.os).2 srt f)
      ]
