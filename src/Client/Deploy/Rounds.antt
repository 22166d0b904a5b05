-- ===== src/Client/Deploy/Rounds.antt =====
-- The rounds of `Worker.implement` of python/wye as changes of the registry of src/manager.C.
use wye.Common.{ℕ, suc, ◌≡◌, refl, sym, ap, subst, ◌∙◌, some, List, [], ◌∷◌, ◌++◌, map, All, arith}
use wye.OrderedMap.{Map, keys}
use wye.OrderedMap.Keys.{keys-IsSorted}
use wye.Worker.{AddressList}
use wye.OrderedMap.Laws.{IsSorted}
use wye.Text.{Text, lit}
use wye.Text.Order.{text_order}
use wye.Ptree.{PropertyTree}
use wye.Kernel.{Kernel}
use wye.Outcome.{ok, other, lift, or_throw}
use wye.Manager.State.{World}
use wye.Manager.{handle}
use wye.Manager.Invariant.{WellFormed}
use wye.Manager.Registry.{Command, hire}
use wye.Client.Request.{Inputs, outputs_of, create_request}
use wye.Client.Accepted.{create_request-hire}
use wye.Client.Classes.{IsAbsolute}
use wye.Client.Deploy.{Plan, add_inputs, response_id, implement_from, implement_workers}
use wye.Manager.Registry.Sequences.{Serves, bind_done, nothing-Serves, Serves-then, call-Serves}

-- The workers that a plan asks for, instance by instance.
unfoldable pub hires : Text → List Plan → List Command
hires job [] = []
hires job (p ∷ ps) = map (λ u. hire u job) p.uuids ++ hires job ps

-- What a plan must say: an absolute path, if its program is one, and outputs in order.
abbrev pub IsSound : Plan → Type 0
IsSound p = IsAbsolute p.kind × IsSorted p.outputs

pub outputs_keys :
    (made : List Inputs) (m : Map Text (List (ℕ × Text))) (outs : Map Text AddressList)
    → outputs_of made m ≡ some outs
    → keys outs ≡ keys m
unfolding outputs_of
outputs_keys made [] outs h = ground arith
outputs_keys made ((v, l) ∷ m) outs h = grind (arith, outputs_keys made m)

module _ ⦃k : Kernel⦄ ⦃t : PropertyTree⦄ where
  open t use {Tree, get_string, put, empty}

  pub response_id_same : (res : Tree) (w : World) → (response_id res w).1 ≡ w
  unfolding response_id
  response_id_same res w = refl

  -- One round of a worker's loop that returned, from the state before to the state after its call.
  round_done :
      (p : Plan) (job : Text) (made : List Inputs) (u : Text) (us : List Text) (i : ℕ)
      (ins : Inputs) (w : World) (b : Inputs)
      → (implement_from p job made (u ∷ us) i ins w).0 ≡ ok b
      → (outs : Map Text AddressList) × (res : Tree) × (ins' : Inputs) × (outputs_of
            (made ++ ins ∷ [])
            p.outputs
          ≡ some outs)
        × ((handle u (create_request p.kind p.name job i outs) w).0 ≡ ok res)
        × (implement_from p job made (u ∷ us) i ins w
            ≡ implement_from p job made us
                (suc i)
                ins'
                (handle u (create_request p.kind p.name job i outs) w).1)
  unfolding implement_from
  round_done p job made u us i ins w b h =
      let outputs = outputs_of (made ++ ins ∷ []) p.outputs in
      let (outs, e0, s0, h0) =
        bind_done (lift (or_throw outputs (other (lit "no inputs")))) _ w b h in
      let (res, e1, s1, h1) =
        bind_done (handle u (create_request p.kind p.name job i outs)) _ w b h0 in
      let w1 : World = (handle u (create_request p.kind p.name job i outs) w).1 in
      let (id, e2, s2, h2) = bind_done (response_id res) _ w1 b h1 in
      (
        outs,
        res,
        add_inputs id res ins,
        ground arith,
        e1,
        s0
            ∙ s1
            ∙ s2
            ∙ ap (λ v. implement_from p job made us (suc i) (add_inputs id res ins) v)
                (response_id_same res w1),
      )

  pub implement_from-Serves :
      (p : Plan) (job : Text) (made : List Inputs)
      → IsSound p
      → (us : List Text) (i : ℕ) (ins : Inputs) (w : World) (b : Inputs) → WellFormed w
      → (implement_from p job made us i ins w).0 ≡ ok b
      → Serves (map (λ u. hire u job) us) w (implement_from p job made us i ins w).1
  unfolding implement_from
  implement_from-Serves p job made a [] i ins w b v h = nothing-Serves w v
  implement_from-Serves p job made a (u ∷ us) i ins w b v h =
      let (outs, res, ins', eo, e, s) = round_done p job made u us i ins w b h in
      let req = create_request p.kind p.name job i outs in
      let w1 : World = (handle u req w).1 in
      let sorted : IsSorted outs =
        keys-IsSorted p.outputs outs (outputs_keys (made ++ ins ∷ []) p.outputs outs eo) a.1 in
      let first : Serves (hire u job ∷ []) w w1 =
        subst (λ c. Serves (c ∷ []) w w1)
          (create_request-hire p.name job i outs sorted u p.kind a.0)
          (call-Serves u req w res v e) in
      let rest =
        implement_from-Serves p job made a us (suc i) ins' w1 b first.good
          (sym (ap (λ r. r.0) s) ∙ h) in
      subst (λ r. Serves (map (λ u. hire u job) (u ∷ us)) w r.1) (sym s) (Serves-then first rest)

  pub implement_workers-Serves :
      (job : Text) (ps : List Plan) (made : List Inputs) (w : World)
      → All IsSound ps
      → WellFormed w
      → (implement_workers job ps made w).0 ≡ ok tt
      → Serves (hires job ps) w (implement_workers job ps made w).1
  unfolding implement_workers hires
  implement_workers-Serves job [] made w a v h = nothing-Serves w v
  implement_workers-Serves job (p ∷ ps) made w (sound, a) v h =
      let (ins, e, s, g) = bind_done (implement_from p job made p.uuids 0 []) _ w tt h in
      let first : Serves (map (λ u. hire u job) p.uuids) w
          (implement_from p job made p.uuids 0 [] w).1 =
        implement_from-Serves p job made sound p.uuids 0 [] w ins v e in
      let rest = implement_workers-Serves job ps (made ++ ins ∷ []) _ a first.good g in
      subst (λ r. Serves (hires job (p ∷ ps)) w r.1) (sym s) (Serves-then first rest)
