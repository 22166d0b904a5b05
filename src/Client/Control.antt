-- ===== src/Client/Control.antt =====
-- python/wye/func.py: what the two kinds of lambda worker write on descriptor 3 before they serve.
use wye.Common.{
  ℕ, ◌^◌, ◌<◌, ◌≡◌, refl, sym, subst, ap, ◌∙◌, List, [], ◌∷◌, ◌++◌, arith, length, length-append,
  All,
}
use wye.OrderedMap.{Map, insert}
use wye.Text.{Text, lit}
use wye.Text.Order.{text_order}
use wye.Text.Search.{Lacks, Lacks-append}
use wye.Outcome.{ok}
use wye.Kernel.{Ending}
use wye.Process.Startup.{read_lines}
use wye.Process.Startup.Channel.{stream_of, split_lines, lines-stream_of}
use wye.Process.Startup.Protocol.{IsShort, Starts, runs, says, init, input}
use wye.Process.Startup.Acceptance.{read_lines-iff-Starts}
use wye.Client.Decimal.{decimal, length-decimal, decimal-Lacks}

-- ctrl.write(line)
unfoldable pub line : Text → Text → Text
line s behind = s ++ b'\n' ∷ behind

-- "tcp://%s:%d" % (fqdn, port)
unfoldable pub bound_address : Text → ℕ → Text
bound_address fqdn port = lit "tcp://" ++ (fqdn ++ (b':' ∷ decimal port))

-- run_lambda
unfoldable pub lambda_control : Text → ℕ → Text
unfolding line
lambda_control fqdn port =
    line (lit "INIT")
      (line (lit "INPUT:input:" ++ bound_address fqdn port) (line (lit "RUNNING") []))

-- run_generator
unfoldable pub generator_control : Text
unfolding line
generator_control = line (lit "INIT") (line (lit "RUNNING") [])

-- The name of a host, as the resolver gives it.
pub record HostName (fqdn : Text) : Type 0 where
  pub one_line : Lacks b'\n' fqdn
  pub bounded : length fqdn < 2 ^ 30

address-Lacks : (fqdn : Text) (port : ℕ) → HostName fqdn → Lacks b'\n' (bound_address fqdn port)
unfolding bound_address lit
address-Lacks fqdn port h =
    Lacks-append b'\n' (lit "tcp://") (fqdn ++ (b':' ∷ decimal port)) (ground arith) (
      Lacks-append b'\n' fqdn (b':' ∷ decimal port) h.one_line
        (refl, decimal-Lacks b'\n' port (omega arith)))

address-IsShort :
    (fqdn : Text) (port : ℕ)
    → HostName fqdn
    → port < 2 ^ 16
    → IsShort (lit "INPUT:input:" ++ bound_address fqdn port)
unfolding bound_address lit
address-IsShort fqdn port h p =
    omega (arith, h.bounded, length-decimal port, length-append fqdn (b':' ∷ decimal port))

abbrev input_line : Text → ℕ → Text
input_line fqdn port = lit "INPUT:input:" ++ bound_address fqdn port

lines-lambda :
    (fqdn : Text) (port : ℕ) (e : Ending)
    → HostName fqdn
    → (stream_of (lambda_control fqdn port) e).lines
      ≡ lit "INIT" ∷ input_line fqdn port ∷ lit "RUNNING" ∷ []
unfolding lambda_control line
lines-lambda fqdn port e h =
    lines-stream_of (lit "INIT") _ e (unfold lit in ground arith)
    ∙ ap (λ l. lit "INIT" ∷ l)
        (lines-stream_of (input_line fqdn port) _ e (
            Lacks-append b'\n' (lit "INPUT:input:") _ (unfold lit in ground arith)
              (address-Lacks fqdn port h))
          ∙ ap (λ l. input_line fqdn port ∷ l)
              (lines-stream_of (lit "RUNNING") [] e (unfold lit in ground arith)
                ∙ (unfold stream_of split_lines in refl)))

lines-generator :
    (e : Ending) → (stream_of generator_control e).lines ≡ lit "INIT" ∷ lit "RUNNING" ∷ []
unfolding generator_control line
lines-generator e =
    lines-stream_of (lit "INIT") _ e (unfold lit in ground arith)
    ∙ ap (λ l. lit "INIT" ∷ l)
        (lines-stream_of (lit "RUNNING") [] e (unfold lit in ground arith)
          ∙ (unfold stream_of split_lines in refl))

abbrev pub announced_by : Text → ℕ → Map Text Text
announced_by fqdn port = insert (lit "input") (bound_address fqdn port) []

lambda-Starts :
    (fqdn : Text) (port : ℕ)
    → Starts (lit "INIT" ∷ input_line fqdn port ∷ lit "RUNNING" ∷ []) [] (announced_by fqdn port)
unfolding lit
lambda-Starts fqdn port = says (init []) (
    says (input (lit "input") (bound_address fqdn port) [] (ground arith))
      (runs [] (announced_by fqdn port)))

init-IsShort : IsShort (lit "INIT")
unfolding lit
init-IsShort = omega arith

running-IsShort : IsShort (lit "RUNNING")
unfolding lit
running-IsShort = omega arith

generator-Starts : Starts (lit "INIT" ∷ lit "RUNNING" ∷ []) [] []
generator-Starts = says (init []) (runs [] [])

-- What a lambda worker writes before it serves is accepted by the service, which then holds its
-- one input, under the name `input`, with the address that the worker has bound; what a generator
-- writes is accepted without an input. The host's name has no newline and is shorter than 2^30
-- bytes, and the port is one of TCP.
pub lambda_workers_start :
    (fqdn : Text) (port : ℕ) (e : Ending)
    → HostName fqdn
    → port < 2 ^ 16
    → (read_lines (stream_of (lambda_control fqdn port) e) [] ≡ (ok tt, announced_by fqdn port))
      × (read_lines (stream_of generator_control e) [] ≡ (ok tt, []))
lambda_workers_start fqdn port e h p = (
  accepted (lambda_control fqdn port) (lines-lambda fqdn port e h)
      (init-IsShort, (address-IsShort fqdn port h p, (running-IsShort, tt)))
      (lambda-Starts fqdn port),
  accepted generator_control (lines-generator e) (init-IsShort, (running-IsShort, tt))
      generator-Starts,
)
  where
    accepted :
        {ls : List Text} {ins : Map Text Text} (s : Text)
        → (stream_of s e).lines ≡ ls
        → All IsShort ls
        → Starts ls [] ins
        → read_lines (stream_of s e) [] ≡ (ok tt, ins)
    accepted {ins} s eq short starts =
        (read_lines-iff-Starts (stream_of s e) [] ins (subst (All IsShort) (sym eq) short)).1
          (subst (λ l. Starts l [] ins) (sym eq) starts)
