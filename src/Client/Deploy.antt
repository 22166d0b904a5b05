-- ===== src/Client/Deploy.antt =====
-- python/wye/__init__.py: `Worker.implement` and `Job.implement`, which put their requests one after
-- the other. A response that is not a 200 raises, so a call that throws here raises there. Each
-- `uuid` is the identifier that the service generates for a request.
pub mod Rounds
pub mod Registered
pub mod Undone
pub mod Failed
use wye.Common.{ℕ, zero, suc, Option, none, some, List, [], ◌∷◌, ◌++◌}
use wye.OrderedMap.{Map, insert}
use wye.Text.{Text, lit}
use wye.Text.Order.{text_order}
use wye.Ptree.{PropertyTree}
use wye.Kernel.{Kernel}
use wye.Outcome.{Exec, other, lift, pure, or_throw, ◌>>=◌, ◌>>◌}
use wye.Worker.{AddressList}
use wye.Manager.State.{World}
use wye.Manager.{handle}
use wye.Client.Request.{Kind, Inputs, outputs_of, create_request, job_request}

-- A worker of a job: `outputs` names its targets by their places among the job's workers, and there
-- is one identifier for each of its instances.
pub record Plan : Type 0 where
  pub kind : Kind
  pub name : Text
  pub outputs : Map Text (List (ℕ × Text))
  pub uuids : List Text

module _ ⦃k : Kernel⦄ ⦃t : PropertyTree⦄ where
  open t use {Tree, get_string, get_child, children, get_value}

  unfoldable pub dictionary : List (Text × Tree) → Map Text Text → Map Text Text
  dictionary [] d = d
  dictionary ((key, c) ∷ l) d = dictionary l (insert key (get_value c) d)

  -- if res.has_key("inputs"): self.inputs[id] = res["inputs"]
  unfoldable pub add_inputs : Text → Tree → Inputs → Inputs
  unfolding dictionary
  add_inputs id res ins = elim (get_child (lit "inputs") res) [
    | none ↦ ins
    | some c ↦ insert id (dictionary (children c) []) ins
  ]

  -- res["id"]
  unfoldable pub response_id : Tree → Exec World Text
  response_id res = lift (or_throw (get_string (lit "id") res) (other (lit "KeyError")))

  -- for instance in range(0, self.parallelism): `made` are the inputs of the workers in front of
  -- this one in the job, and `ins` its own, so far.
  unfoldable pub implement_from :
      Plan → Text → List Inputs → List Text → ℕ → Inputs → Exec World Inputs
  unfolding add_inputs
  implement_from p job made [] i ins = pure ins
  implement_from p job made (u ∷ us) i ins = do
    outs ← lift (or_throw (outputs_of (made ++ ins ∷ []) p.outputs) (other (lit "no inputs")))
    res ← handle u (create_request p.kind p.name job i outs)
    id ← response_id res
    implement_from p job made us (suc i) (add_inputs id res ins)

  -- for v in self.workers: v.implement()
  unfoldable pub implement_workers : Text → List Plan → List Inputs → Exec World (Unit {0})
  implement_workers job [] made = pure tt
  implement_workers job (p ∷ ps) made = do
    ins ← implement_from p job made p.uuids 0 []
    implement_workers job ps (made ++ ins ∷ [])

  -- Job.implement
  unfoldable pub implement_job : Text → Text → Text → List Plan → Exec World Text
  implement_job uuid name description plans = do
    res ← handle uuid (job_request name description)
    id ← response_id res
    implement_workers id plans []
    pure id
