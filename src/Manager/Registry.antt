-- ===== src/Manager/Registry.antt =====
-- The view that clients have of src/manager.C, without its tables, its children and its order of
-- iteration: a registry, which knows the jobs and to which job each worker belongs, and the one
-- change of it that each request asks for.
pub mod Lookups
pub mod Shows
pub mod Workers
pub mod Jobs
pub mod Refinement
pub mod Sequences
use mathlib.Core.Option
use mathlib.Core.Path.{fun_ext}
use wye.Common.{◌≡◌, ap₂, Option, none, some, if◌then◌else◌}
use wye.OrderedMap.{find, same}
use wye.Text.{Text, lit, text_eq}
use wye.Text.Order.{text_order}
use wye.Outcome.{Outcome, ok, throws, blocks, aborts}
use wye.Ptree.{PropertyTree}
use wye.Kernel.{Kernel}
use wye.Job.{Job}
use wye.Process.{Process}
use wye.Manager.State.{World}
use wye.Manager.Workers.{prepare_worker}

pub record Registry : Type 0 where
  pub jobs : Text → Option Job
  -- the job of each worker
  pub owners : Text → Option Text

-- The changes that clients can ask for.
pub data Command : Type 0 where
  hire : Text → Text → Command
  fire : Text → Command
  open_job : Job → Command
  close_job : Text → Command
  look : Command

abbrev pub set : {A : Type 0} → Text → Option A → (Text → Option A) → Text → Option A
set k v f i = if same i k then v else f i

-- A worker of the job is nobody's any more.
abbrev pub without : Text → Option Text → Option Text
without id none = none
without id (some j) = if text_eq j id then none else some j

unfoldable pub close_known : Text → Option Job → Registry → Registry
close_known id none r = r
close_known id (some j) r = record {
  jobs = set id none r.jobs;
  owners = λ i. without id (r.owners i);
}

unfoldable pub obey : Command → Registry → Registry
unfolding close_known
obey (hire id job) r = record r { owners = set id (some job) r.owners }
obey (fire id) r = record r { owners = set id none r.owners }
obey (open_job j) r = record r { jobs = set j.id (some j) r.jobs }
obey (close_job id) r = close_known id (r.jobs id) r
obey look r = r

module _ ⦃k : Kernel⦄ where
  abbrev pub owner : World → Text → Option Text
  owner w i = Option.map (λ q. q.job_id) (find i w.workers)

  -- What the tables say, whatever their representation.
  unfoldable pub view : World → Registry
  view w = record { jobs = λ i. find i w.jobs; owners = owner w }

  pub view_lem :
      (w : World) (r : Registry)
      → ((i : Text) → find i w.jobs ≡ r.jobs i)
      → ((i : Text) → owner w i ≡ r.owners i)
      → view w ≡ r
  unfolding view
  view_lem w r f g = ap₂ (λ a b. record { jobs = a; owners = b }) (fun_ext f) (fun_ext g)

module _ ⦃k : Kernel⦄ ⦃t : PropertyTree⦄ where
  open t use {Tree, get_string}

  unfoldable pub hire_of : Text → Outcome Process → Command
  hire_of uuid (ok q) = hire uuid q.job_id
  hire_of uuid (throws e) = look
  hire_of uuid blocks = look
  hire_of uuid aborts = look

  unfoldable pub by_id : (Text → Command) → Option Text → Command
  by_id c none = look
  by_id c (some id) = c id

  unfoldable pub open_of : Text → Option Text → Option Text → Command
  open_of uuid none d = look
  open_of uuid (some n) none = look
  open_of uuid (some n) (some d) = open_job (record { id = uuid; name = n; description = d })

  -- The change that a request asks for, by the name of its operation.
  unfoldable pub named : Text → Text → Tree → Command
  named op uuid p =
      if text_eq op (lit "create-worker")
      then hire_of uuid (prepare_worker uuid p)
      else if text_eq op (lit "get-workers")
      then look
      else if text_eq op (lit "delete-worker")
      then by_id fire (get_string (lit "id") p)
      else if text_eq op (lit "create-job")
      then open_of uuid (get_string (lit "name") p) (get_string (lit "description") p)
      else if text_eq op (lit "get-job")
      then look
      else if text_eq op (lit "get-jobs")
      then look
      else if text_eq op (lit "delete-job")
      then by_id close_job (get_string (lit "id") p)
      else look

  unfoldable pub command_of : Text → Tree → Command
  command_of uuid p = elim (get_string (lit "operation") p) [
    | none ↦ look
    | some op ↦ named op uuid p
  ]
