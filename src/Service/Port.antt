-- ===== src/Service/Port.antt =====
-- The port of `main` of src/main.C.
use wye.Common.{
  ℕ, ◌+◌, ◌*◌, ◌/◌, ◌%◌, ◌^◌, ◌<◌, ◌≡◌, ◌↔◌, refl, Bool, true, Option, none, some, arith,
  Bool-cases, inl, inr,
}
use wye.Service.{CommandLine, malformed, parsed, Listening, listen_on, start, serving}

-- The port that the command line asks for: 8080 if it names none.
abbrev pub Asks : CommandLine → ℕ → Type 0
Asks malformed n = ⊥
Asks (parsed none) n = n ≡ 8080
Asks (parsed (some port)) n = n ≡ port

-- Where a program listens that was asked for a port.
abbrev pub Listens : (ℕ → Bool) → ℕ → Option Listening → Type 0
Listens can_bind asked o =
    (l : Listening) × (o ≡ some l)
    × (l.announced ≡ asked)
    × (can_bind l.port ≡ true)
    × (l.port < 2 ^ 16)
    × ((n : ℕ) × (asked ≡ l.port + n * 2 ^ 16))
    × ((l.port ≡ asked) ↔ (asked < 2 ^ 16))

listen_on-Listens :
    (can_bind : ℕ → Bool) (port : ℕ)
    → (listen_on can_bind port).1 ≡ serving
    → Listens can_bind port (listen_on can_bind port).0
unfolding listen_on
listen_on-Listens can_bind port h = elim (Bool-cases (can_bind (port % 2 ^ 16))) [
  | inl e ↦ rw e (
    record { port = port % 2 ^ 16; announced = port },
    refl,
    refl,
    e,
    omega arith,
    (port / 2 ^ 16, omega arith),
    ((λ s. omega (arith, s)), (λ s. omega (arith, s))),
  )
  | inr e ↦ absurd (cc (e, h))
]

-- A program that has come to serve was asked for a port, 8080 if the command line names none. The
-- first line of its output names that port. The endpoint has a port below 2^16 that the system lets
-- it bind and that differs from the one asked for by a multiple of 2^16, so it is the one asked for
-- exactly when that is below 2^16.
pub start-Listens :
    (can_bind : ℕ → Bool) (c : CommandLine)
    → (start can_bind c).1 ≡ serving
    → (asked : ℕ) × Asks c asked × Listens can_bind asked (start can_bind c).0
unfolding start
start-Listens can_bind malformed h = absurd (cc h)
start-Listens can_bind (parsed none) h = (8080, refl, listen_on-Listens can_bind 8080 h)
start-Listens can_bind (parsed (some port)) h = (port, refl, listen_on-Listens can_bind port h)
