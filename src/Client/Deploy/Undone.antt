-- ===== src/Client/Deploy/Undone.antt =====
-- A job of python/wye that is deployed and then deleted.
use mathlib.Core.Path.{fun_ext}
use wye.Common.{
  ◌≡◌, ◌≢◌, refl, ap, ap₂, ◌∙◌, Option, none, some, List, [], ◌∷◌, ◌++◌, map, All, arith,
  Bool-cases, inl, inr,
}
use wye.OrderedMap.{same}
use wye.OrderedMap.Laws.{same_self, same→eq}
use wye.Text.{Text, text_eq, text_eq_iff, text_eq_refl}
use wye.Text.Order.{text_order}
use wye.Ptree.{PropertyTree}
use wye.Kernel.{Kernel}
use wye.Job.{Job}
use wye.Outcome.{ok}
use wye.Manager.State.{World}
use wye.Manager.{handle}
use wye.Manager.Invariant.{WellFormed}
use wye.Manager.Registry.{
  Registry, Command, hire, open_job, close_job, close_known, obey, view, set, without,
}
use wye.Client.Calls.{delete_job_call, intent, call_request, call_request-intent}
use wye.Client.Deploy.{Plan, implement_job}
use wye.Client.Deploy.Registered.{deployment, implement_job-Serves}
use wye.Client.Deploy.Rounds.{IsSound, hires}
use wye.Manager.Registry.Sequences.{obey_all, call-Serves}

-- Closing the job leads from the second registry back to the first.
record Undoes (id : Text) (r r' : Registry) : Type 0 where
  job : Job
  known : r'.jobs id ≡ some job
  jobs : (i : Text) → set id none r'.jobs i ≡ r.jobs i
  owners : (i : Text) → without id (r'.owners i) ≡ r.owners i

close_known-Undoes : (id : Text) (r r' : Registry) → Undoes id r r' → obey (close_job id) r' ≡ r
unfolding obey close_known
close_known-Undoes id r r' u =
    ap (λ j. close_known id j r') u.known
    ∙ ap₂ (λ a b. record { jobs = a; owners = b }) (fun_ext u.jobs) (fun_ext u.owners)

hire-Undoes :
    (id i : Text) (r r' : Registry)
    → r.owners i ≡ none
    → Undoes id r r'
    → Undoes id r (obey (hire i id) r')
unfolding obey
hire-Undoes id i r r' f u = record {
  job = u.job;
  known = u.known;
  jobs = u.jobs;
  owners = λ j. elim (Bool-cases (same j i)) [
    | inl h ↦ ground (arith, h, text_eq_refl id, f, same→eq j i h, ap r.owners (same→eq j i h))
    | inr h ↦ ground (arith, h, u.owners j)
  ];
}

-- None of the new workers' identifiers has an owner.
abbrev AreFresh : Registry → List Text → Type 0
AreFresh r us = All (λ u. r.owners u ≡ none) us

hire_all-Undoes :
    (id : Text) (us : List Text) (cs : List Command) (r r' : Registry)
    → AreFresh r us
    → Undoes id r r'
    → ((r'' : Registry) → Undoes id r r'' → Undoes id r (obey_all cs r''))
    → Undoes id r (obey_all (map (λ u. hire u id) us ++ cs) r')
unfolding obey_all
hire_all-Undoes id [] cs r r' f u rest = rest r' u
hire_all-Undoes id (i ∷ us) cs r r' (f, fs) u rest =
    hire_all-Undoes id us cs r (obey (hire i id) r') fs (hire-Undoes id i r r' f u) rest

hires-Undoes :
    (id : Text) (ps : List Plan) (r r' : Registry)
    → All (λ p. AreFresh r p.uuids) ps
    → Undoes id r r'
    → Undoes id r (obey_all (hires id ps) r')
unfolding hires obey_all
hires-Undoes id [] r r' f u = u
hires-Undoes id (p ∷ ps) r r' (f, fs) u =
    hire_all-Undoes id p.uuids (hires id ps) r r' f u (λ r'' u'. hires-Undoes id ps r r'' fs u')

-- The job's identifier is new: no job has it, and no worker belongs to it.
abbrev IsNew : Registry → Text → Type 0
IsNew r id = (r.jobs id ≡ none) × ((i : Text) → r.owners i ≢ some id)

open_job-Undoes : (j : Job) (r : Registry) → IsNew r j.id → Undoes j.id r (obey (open_job j) r)
unfolding obey
open_job-Undoes j r n = record {
  job = j;
  known = ground (arith, same_self j.id);
  jobs = λ i. elim (Bool-cases (same i j.id)) [
    | inl h ↦ ground (arith, h, n.0, ap r.jobs (same→eq i j.id h))
    | inr h ↦ ground (arith, h)
  ];
  owners = λ i. not_owned j.id (r.owners i) (n.1 i);
}
  where
    not_owned : (id : Text) (o : Option Text) → o ≢ some id → without id o ≡ o
    not_owned id none h = refl
    not_owned id (some x) h = elim (Bool-cases (text_eq x id)) [
      | inl e ↦ absurd (h (ap some ((text_eq_iff x id).0 e)))
      | inr e ↦ rw e refl
    ]

deployment-Undoes :
    (uuid name description : Text) (plans : List Plan) (r : Registry)
    → IsNew r uuid
    → All (λ p. AreFresh r p.uuids) plans
    → Undoes uuid r (obey_all (deployment uuid name description plans) r)
unfolding obey_all
deployment-Undoes uuid name description plans r n f =
    let j : Job = record { id = uuid; name = name; description = description } in
    hires-Undoes uuid plans r (obey (open_job j) r) f (open_job-Undoes j r n)

module _ ⦃k : Kernel⦄ ⦃t : PropertyTree⦄ where
  open t use {Tree}

  -- Deploying a job of the Python package and then deleting it by the identifier that `implement`
  -- returned leaves the registry of jobs and workers as it was, when both returned: every instance
  -- of every worker of the job is gone, and no other job or worker has changed. The tables were well
  -- formed, the identifiers that the service generates were not in use, each application is named
  -- by an absolute path, and the outputs of each worker are in the order of their names.
  pub deployed_then_deleted :
      (uuid v name description : Text) (plans : List Plan) (w : World) (id : Text) (res : Tree)
      → All IsSound plans
      → WellFormed w
      → IsNew (view w) uuid
      → All (λ p. AreFresh (view w) p.uuids) plans
      → (implement_job uuid name description plans w).0 ≡ ok id
      → (handle v
          (call_request (delete_job_call id))
          (implement_job uuid name description plans w).1).0
        ≡ ok res
      → view
          (handle v
            (call_request (delete_job_call id))
            (implement_job uuid name description plans w).1).1
        ≡ view w
  unfolding obey_all intent
  deployed_then_deleted uuid v name description plans w id res a g n f h d =
      let (same_id, served) = implement_job-Serves uuid name description plans w id a g h in
      let w' : World = (implement_job uuid name description plans w).1 in
      let gone = call-Serves v (call_request (delete_job_call id)) w' res served.good d in
      gone.shows
      ∙ ap (λ c. obey c (view w')) (call_request-intent v (delete_job_call id) ∙ closing same_id)
      ∙ ap (obey (close_job uuid)) served.shows
      ∙ close_known-Undoes uuid (view w) _
          (deployment-Undoes uuid name description plans (view w) n f)
    where
      closing : {x y : Text} → x ≡ y → intent (delete_job_call x) ≡ close_job y
      closing e = ap close_job e
