-- ===== src/Service/Connections/Places.antt =====
-- A connection of src/main.C that takes turns with others, and its place among the events of the
-- service.
use wye.Common.{
  ℕ, ◌≡◌, refl, sym, ap, subst, ◌∙◌, true, false, List, [], ◌∷◌, ◌++◌, ◌⊎◌, ◌≢◌, All, inl, inr,
}
use wye.Text.{Text}
use wye.Outcome.{Outcome}
use wye.Ptree.{PropertyTree}
use wye.Kernel.{Kernel}
use wye.Http.{Http, Json}
use wye.Manager.State.{World}
use wye.Connection.{Session, make_connection, serve}
use wye.Connection.Steps.{Point, deciding, advance}
use wye.Connection.Steps.Rest.{
  rest, fuel_at, rest-advance, reaches_manager, advance_apart, has_decided, advance_decided,
  deciding_decides, decided_rest, decided_fuel,
}
use wye.Service.{Event, connection, tick, children, step}
use wye.Service.Connections.{Turn, resumes, ticks, moves, Coroutine}

module _ ⦃h : Http⦄ ⦃k : Kernel⦄ ⦃t : PropertyTree⦄ ⦃j : Json⦄ where
  open h use {Socket}

  module _ (sockets : ℕ → Socket) (uuids : ℕ → Text) (start : World) where
    -- One connection served whole, with the rounds of the loop on its body, in this state.
    abbrev pub whole : ℕ → ℕ → World → Outcome (Unit {0}) × Session
    whole i n w = serve n (uuids i) (make_connection (sockets i) w)

    -- The event of the service that a turn which reached the manager or the children stands for.
    abbrev pub event_of : Turn × ℕ → Event
    event_of (resumes i, n) = connection n (uuids i) (sockets i)
    event_of (ticks, n) = tick
    event_of (moves f, n) = children f

    -- The state after these events, one after the other, the last one first.
    abbrev pub served : List (Turn × ℕ) → World
    served [] = start
    served (e ∷ order) = (step (event_of e) (served order)).1

    abbrev pub left_at : ℕ → ℕ → Coroutine → World → Outcome (Unit {0}) × Session
    left_at n i x w = rest n (uuids i) x.point (make_connection x.socket w)

    -- The connection has no place in the order.
    abbrev pub Absent : ℕ → List (Turn × ℕ) → Type 0
    Absent i order = All (λ e. e.0 ≢ resumes i) order

    -- It has not called the manager: what is left of it is what was left at its start, in any state.
    abbrev pub IsEarly : ℕ → Coroutine → Type 0
    IsEarly i x = (n : ℕ) → (m : ℕ) × ((w : World) → whole i m w ≡ left_at n i x w)

    -- It has called the manager, in its place in the order.
    pub record IsLate (order : List (Turn × ℕ)) (i : ℕ) (x : Coroutine) : Type 0 where
      pub rounds : ℕ
      pub before : List (Turn × ℕ)
      pub after : List (Turn × ℕ)
      pub place : order ≡ after ++ (resumes i, rounds) ∷ before
      pub once : Absent i (after ++ before)
      pub decided : has_decided x.point ≡ true
      pub same :
          whole i rounds (served before) ≡ left_at 0 i x (served ((resumes i, rounds) ∷ before))

    abbrev pub IsInTurn : List (Turn × ℕ) → ℕ → Coroutine → Type 0
    IsInTurn order i x = (IsEarly i x × Absent i order) ⊎ IsLate order i x

    -- One step of a connection on its own.
    abbrev pub next : ℕ → Coroutine → World → Coroutine
    next i x w =
        let (p, s) = advance (uuids i) x.point (make_connection x.socket w) in
        record { point = p; socket = s.socket }

    left_after :
        (n i : ℕ) (x : Coroutine) (v w : World)
        → reaches_manager x.point ≡ false
        → left_at (fuel_at x.point n) i x w ≡ left_at n i (next i x v) w
    left_after n i x v w e =
        rest-advance n (uuids i) x.point (make_connection x.socket w)
        ∙ ap (λ r. rest n (uuids i) r.0 r.1) (advance_apart (uuids i) x.point x.socket v w e)

    pub IsEarly-next :
        (i : ℕ) (x : Coroutine) (v : World)
        → reaches_manager x.point ≡ false
        → IsEarly i x
        → IsEarly i (next i x v)
    IsEarly-next i x v e f n =
        let (m, eq) = f (fuel_at x.point n) in (m, λ w. eq w ∙ left_after n i x v w e)

    pub IsLate-next :
        (order : List (Turn × ℕ)) (i : ℕ) (x : Coroutine) (v : World)
        → reaches_manager x.point ≡ false
        → IsLate order i x
        → IsLate order i (next i x v)
    IsLate-next order i x v e f = record {
      rounds = f.rounds;
      before = f.before;
      after = f.after;
      place = f.place;
      once = f.once;
      decided = advance_decided (uuids i) x.point (make_connection x.socket v) f.decided;
      same =
          let w = served ((resumes i, f.rounds) ∷ f.before) in
          f.same
          ∙ ap (λ n. left_at n i x w) (sym (decided_fuel x.point 0 f.decided))
          ∙ left_after 0 i x v w e;
    }

    -- It calls the manager, and takes the next place.
    pub IsLate-deciding :
        (order : List (Turn × ℕ)) (i : ℕ) (x : Coroutine) (w : World)
        → x.point ≡ deciding
        → served order ≡ w
        → IsEarly i x
        → Absent i order
        → (m : ℕ) × IsLate ((resumes i, m) ∷ order) i (next i x w)
          × (served ((resumes i, m) ∷ order)
              ≡ (advance (uuids i) x.point (make_connection x.socket w)).1.world)
    IsLate-deciding order i x w e sv f abs = (
      m,
      record {
        rounds = m;
        before = order;
        after = [];
        place = refl;
        once = abs;
        decided = dec;
        same = on ∙ ap (λ v. rest 0 (uuids i) out.0 (make_connection out.1.socket v)) (sym left);
      },
      left,
    )
      where
        out : Point × Session
        out = advance (uuids i) x.point (make_connection x.socket w)

        m : ℕ
        m = (f (fuel_at x.point 0)).0

        dec : has_decided out.0 ≡ true
        dec =
            subst (λ p. has_decided (advance (uuids i) p (make_connection x.socket w)).0 ≡ true)
              (sym e) (deciding_decides (uuids i) (make_connection x.socket w))

        on : whole i m (served order) ≡ rest 0 (uuids i) out.0 out.1
        on =
            ap (whole i m) sv
            ∙ (f (fuel_at x.point 0)).1 w
            ∙ rest-advance 0 (uuids i) x.point (make_connection x.socket w)

        left : served ((resumes i, m) ∷ order) ≡ out.1.world
        left = unfold step in ap (λ r. r.1.world) on ∙ decided_rest 0 (uuids i) out.0 out.1 dec

    pub IsInTurn-later :
        (order : List (Turn × ℕ)) (e : Turn × ℕ) (i : ℕ) (x : Coroutine)
        → e.0 ≢ resumes i
        → IsInTurn order i x
        → IsInTurn (e ∷ order) i x
    IsInTurn-later order e i x other (inl (f, abs)) = inl (f, (other, abs))
    IsInTurn-later order e i x other (inr f) = inr (record {
      rounds = f.rounds;
      before = f.before;
      after = e ∷ f.after;
      place = ap (λ l. e ∷ l) f.place;
      once = (other, f.once);
      decided = f.decided;
      same = f.same;
    })
