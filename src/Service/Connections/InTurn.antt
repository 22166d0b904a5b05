-- ===== src/Service/Connections/InTurn.antt =====
-- The turns that the connections of src/main.C take, and the events of the service.
use wye.Common.{
  ℕ, ◌≡◌, refl, sym, ap, subst, ◌∙◌, List, [], ◌∷◌, ◌++◌, map, ◌⊎◌, ◌≢◌, inl, inr, Bool-cases,
}
use wye.Text.{Text}
use wye.Outcome.{Outcome}
use wye.Ptree.{PropertyTree}
use wye.Kernel.{Kernel}
use wye.Http.{Http, Json}
use wye.Manager.State.{World}
use wye.Connection.{make_connection}
use wye.Connection.Steps.{over}
use wye.Connection.Steps.Rest.{reaches_manager, advance_apart}
use wye.Service.Connections.Places.{
  IsInTurn-later, IsLate-deciding, IsLate-next, IsEarly-next, IsInTurn, Absent, served, event_of,
  whole, next,
}
use wye.Service.Connections.Turns.{resumes-apart, replace_each, deciding_only, undecided, unnoted}
use wye.Service.{step}
use wye.Service.Connections.{
  Turn, resumes, ticks, moves, Coroutine, Connections, note, take_turn, take_turns, all_accepted,
}

module _ ⦃h : Http⦄ ⦃k : Kernel⦄ ⦃t : PropertyTree⦄ ⦃j : Json⦄ where
  open h use {Socket}

  module _ (sockets : ℕ → Socket) (uuids : ℕ → Text) (start : World) where
    record Serial (l : Connections) : Type 0 where
      order : List (Turn × ℕ)
      numbers : map (λ e. e.0) order ≡ l.handled
      state : served sockets uuids start order ≡ l.world
      each : (i : ℕ) → IsInTurn sockets uuids start order i (l.coroutine i)

    resumes-Serial : (i : ℕ) (l : Connections) → Serial l → Serial (take_turn uuids (resumes i) l)
    unfolding take_turn
    resumes-Serial i l v = elim (Bool-cases (reaches_manager x.point)) [
      | inl e ↦ elim (v.each i) [
        | inl (early, abs) ↦
            let (m, late, sv) =
              IsLate-deciding sockets uuids start v.order i x l.world (deciding_only x.point e)
                v.state early abs in
            record {
              order = (resumes i, m) ∷ v.order;
              numbers =
                  ap (λ t. resumes i ∷ t) v.numbers
                  ∙ ap (λ p. note p i l.handled) (sym (deciding_only x.point e));
              state = sv;
              each =
                  replace_each (IsInTurn sockets uuids start ((resumes i, m) ∷ v.order)) i
                    (next sockets uuids start i x l.world) l.coroutine (inr late)
                    (λ n other.
                      IsInTurn-later sockets uuids start v.order (resumes i, m) n (l.coroutine n)
                        (resumes-apart i n other) (v.each n));
            }
        | inr late ↦ absurd (undecided x.point e late.decided)
      ]
      | inr e ↦ record {
        order = v.order;
        numbers = v.numbers ∙ sym (unnoted x.point i l.handled e);
        state =
            v.state
            ∙ sym
                (ap (λ r. r.1.world) (advance_apart (uuids i) x.point x.socket l.world l.world e));
        each =
            replace_each (IsInTurn sockets uuids start v.order) i
              (next sockets uuids start i x l.world) l.coroutine
              (elim (v.each i) [
                | inl (early, abs) ↦ inl (IsEarly-next sockets uuids start i x l.world e early, abs)
                | inr late ↦ inr (IsLate-next sockets uuids start v.order i x l.world e late)
              ])
              (λ n _. v.each n);
      }
    ]
      where
        x : Coroutine
        x = l.coroutine i

    -- A round or a change of the children takes the next place.
    beside-Serial :
        (x : Turn) (l l' : Connections)
        → ((i : ℕ) → x ≢ resumes i)
        → l'.coroutine ≡ l.coroutine
        → l'.handled ≡ x ∷ l.handled
        → l'.world ≡ (step (event_of sockets uuids start (x, 0)) l.world).1
        → Serial l
        → Serial l'
    beside-Serial x l l' other same_lines noted moved v = record {
      order = (x, 0) ∷ v.order;
      numbers = ap (λ t. x ∷ t) v.numbers ∙ sym noted;
      state = ap (λ w. (step (event_of sockets uuids start (x, 0)) w).1) v.state ∙ sym moved;
      each = λ i.
          subst (λ f. IsInTurn sockets uuids start ((x, 0) ∷ v.order) i (f i)) (sym same_lines)
            (IsInTurn-later sockets uuids start v.order (x, 0) i (l.coroutine i) (other i)
              (v.each i));
    }

    take_turn-Serial : (x : Turn) (l : Connections) → Serial l → Serial (take_turn uuids x l)
    unfolding take_turn step
    take_turn-Serial (resumes i) l v = resumes-Serial i l v
    take_turn-Serial ticks l v =
        beside-Serial ticks l (take_turn uuids ticks l) (λ i e. cc) refl refl refl v
    take_turn-Serial (moves f) l v =
        beside-Serial (moves f) l (take_turn uuids (moves f) l) (λ i e. cc) refl refl refl v

    take_turns-Serial :
        (turns : List Turn) (l : Connections) → Serial l → Serial (take_turns uuids turns l)
    unfolding take_turns
    take_turns-Serial [] l v = v
    take_turns-Serial (x ∷ turns) l v =
        take_turns-Serial turns (take_turn uuids x l) (take_turn-Serial x l v)

    accepted-Serial : Serial (all_accepted sockets start)
    accepted-Serial = record {
      order = [];
      numbers = refl;
      state = refl;
      each = λ i. inl ((λ n. (n, λ w. refl)), tt);
    }

    -- How a connection that has ended was served: it was left before it called the manager, as it
    -- leaves any state alone; or it has one place in the order.
    abbrev pub EndsInTurn : List (Turn × ℕ) → ℕ → Outcome (Unit {0}) → Socket → Type 0
    EndsInTurn order i o c =
        (((n : ℕ) × ((w : World) → whole sockets uuids start i n w ≡ (o, make_connection c w)))
          × Absent sockets uuids start i order)
        ⊎ ((n : ℕ) × (before : List (Turn × ℕ)) × (after : List (Turn × ℕ)) × (order
              ≡ after ++ (resumes i, n) ∷ before)
            × Absent sockets uuids start i (after ++ before)
            × (whole sockets uuids start i n (served sockets uuids start before)
                ≡ (o, make_connection c (served sockets uuids start ((resumes i, n) ∷ before)))))

    ended-EndsInTurn :
        (order : List (Turn × ℕ)) (i : ℕ) (o : Outcome (Unit {0})) (c : Socket)
        → IsInTurn sockets uuids start order i (record { point = over o; socket = c })
        → EndsInTurn order i o c
    ended-EndsInTurn order i o c (inl (f, abs)) = inl (f 0, abs)
    ended-EndsInTurn order i o c (inr f) =
        inr (f.rounds, f.before, f.after, f.place, f.once, f.same)

    -- Whatever turns the connections, the background thread and the children take, there is an order,
    -- that of the connections' calls of the manager, the rounds and the changes of the children, such
    -- that the state is the one that the events of the service leave in this order: each connection
    -- is served whole, one after the other. A connection that has ended has the outcome and the
    -- socket that it has when it is served whole in its place, which is its only one; or, if it has
    -- none, in any state, which it leaves alone.
    pub connections_in_turn :
        (turns : List Turn) (i : ℕ) (o : Outcome (Unit {0})) (c : Socket)
        → (take_turns uuids turns (all_accepted sockets start)).coroutine i
          ≡ record { point = over o; socket = c }
        → let l = take_turns uuids turns (all_accepted sockets start) in
          (order : List (Turn × ℕ)) × (map (λ e. e.0) order ≡ l.handled)
          × (served sockets uuids start order ≡ l.world)
          × EndsInTurn order i o c
    connections_in_turn turns i o c e =
        let v = take_turns-Serial turns (all_accepted sockets start) accepted-Serial in
        (
          v.order,
          v.numbers,
          v.state,
          ended-EndsInTurn v.order i o c
              (subst (IsInTurn sockets uuids start v.order i) e (v.each i)),
        )
