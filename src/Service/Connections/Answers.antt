-- ===== src/Service/Connections/Answers.antt =====
-- How many responses the connections of src/main.C that take turns get.
use wye.Common.{ℕ, ◌≡◌, subst, inl, inr, List}
use wye.Text.{Text}
use wye.Outcome.{Outcome}
use wye.Ptree.{PropertyTree}
use wye.Kernel.{Kernel}
use wye.Http.{Http, Json}
use wye.Manager.State.{World}
use wye.Connection.{Session, make_connection, serve}
use wye.Connection.Steps.{over}
use wye.Connection.AtMostOnce.{AtMostOnce, serve-AtMostOnce}
use wye.Service.Connections.{Turn, take_turns, all_accepted}
use wye.Service.Connections.Places.{served}
use wye.Service.Connections.InTurn.{EndsInTurn, connections_in_turn}

module _ ⦃h : Http⦄ ⦃k : Kernel⦄ ⦃t : PropertyTree⦄ ⦃j : Json⦄ where
  open h use {Socket}

  module _ (sockets : ℕ → Socket) (uuids : ℕ → Text) (start : World) where
    whole-AtMostOnce :
        (i n : ℕ) (w : World) (o : Outcome (Unit {0})) (s : Session)
        → serve n (uuids i) (make_connection (sockets i) w) ≡ (o, s)
        → AtMostOnce (sockets i) s.socket
    whole-AtMostOnce i n w o s e =
        subst (λ x. AtMostOnce (sockets i) x.1.socket) e
          (serve-AtMostOnce n (uuids i) (make_connection (sockets i) w))

    ends-AtMostOnce :
        (order : List (Turn × ℕ)) (i : ℕ) (o : Outcome (Unit {0})) (c : Socket)
        → EndsInTurn sockets uuids start order i o c
        → AtMostOnce (sockets i) c
    ends-AtMostOnce order i o c (inl ((n, e), _)) =
        whole-AtMostOnce i n start o (make_connection c start) (e start)
    ends-AtMostOnce order i o c (inr (n, before, after, _, _, e)) =
        whole-AtMostOnce i n (served sockets uuids start before) o _ e

    -- Whatever turns the connections, the background thread and the children take, and however a
    -- connection ends, it has put at most one response on the wire.
    pub answered-AtMostOnce :
        (turns : List Turn) (i : ℕ) (o : Outcome (Unit {0})) (c : Socket)
        → (take_turns uuids turns (all_accepted sockets start)).coroutine i
          ≡ record { point = over o; socket = c }
        → AtMostOnce (sockets i) c
    answered-AtMostOnce turns i o c e =
        let (order, _, _, ends) = connections_in_turn sockets uuids start turns i o c e in
        ends-AtMostOnce order i o c ends
