-- ===== src/Process/Startup.antt =====
-- process::run_process of src/process.C: the protocol that a child speaks on descriptor 3 while it
-- starts.
pub mod Protocol
pub mod Channel
pub mod Acceptance
pub mod Refusal
use wye.Common.{ℕ, ◌+◌, ◌-◌, ◌^◌, none, some, List, [], ◌∷◌, ◌++◌, ◌==◌, if◌then◌else◌, take, drop}
use wye.OrderedMap.{Map, insert}
use wye.Text.{Text, lit, text_eq, substr_from, find_from, to_int, to_size}
use wye.Text.Order.{text_order}
use wye.Outcome.{Outcome, Fault, ok, throws, blocks, runtime_error, other}
use wye.Kernel.{Ending, closed, broken, silent, Stream}

-- What one line makes of the loop: go on, `break`, or a throw.
pub data Reply : Type 0 where
  more : Map Text Text → Reply
  up : Reply
  bad : Fault → Reply

-- The two calls of `substr` on the text behind `INPUT:`; `pos` is the `int` of the source.
unfoldable pub split_input : ℕ → Text → Map Text Text → Reply
split_input pos body ins =
    if pos == 2 ^ 32 - 1
    then bad (runtime_error (lit "Did not interpret process output INPUT:" ++ body))
    else elim (substr_from (to_size (to_int (pos + 1))) body) [
      | none ↦ bad (other (lit "basic_string::substr"))
      | some input ↦ more (insert (take (to_size pos) body) input ins)
    ]

unfoldable pub read_input : Text → Map Text Text → Reply
read_input body ins = split_input (to_int (find_from b':' 0 body)) body ins

-- The body of the loop. Where a prefix was found, `substr` from its end is in range.
unfoldable pub read_line : Text → Map Text Text → Reply
read_line line ins =
    if text_eq line (lit "INIT")
    then more ins
    else if text_eq (take 6 line) (lit "INPUT:")
    then read_input (drop 6 line) ins
    else if text_eq (take 6 line) (lit "ERROR:")
    then bad (runtime_error (lit "Process failed to start: " ++ drop 6 line))
    else if text_eq (take 7 line) (lit "NOTICE:")
    then more ins
    else if text_eq line (lit "RUNNING")
    then up
    else bad (runtime_error (lit "Bad return string: " ++ line))

abbrev pub not_running : Fault
not_running = runtime_error (lit "Process didn't send RUNNING")

-- A last line without a newline is read with the end-of-file mark set, which the test behind the
-- loop then sees. A read that fails is no different: the buffer of the stream makes an end of file
-- of it.
after_rest : Map Text Text → Reply → Outcome (Unit {0}) × Map Text Text
after_rest ins (more ins') = (throws not_running, ins')
after_rest ins up = (throws not_running, ins)
after_rest ins (bad e) = (throws e, ins)

unfoldable pub read_rest : Text → Ending → Map Text Text → Outcome (Unit {0}) × Map Text Text
unfolding after_rest
read_rest rest silent ins = (blocks, ins)
read_rest [] closed ins = (throws not_running, ins)
read_rest [] broken ins = (throws not_running, ins)
read_rest (c ∷ cs) closed ins = after_rest ins (read_line (c ∷ cs) ins)
read_rest (c ∷ cs) broken ins = after_rest ins (read_line (c ∷ cs) ins)

-- while (std::getline(out, line)), and the tests of the stream behind it
unfoldable pub read_loop :
    List Text → Text → Ending → Map Text Text → Outcome (Unit {0}) × Map Text Text
read_loop [] rest e ins = read_rest rest e ins
read_loop (l ∷ ls) rest e ins = elim (read_line l ins) [
  | more ins' ↦ read_loop ls rest e ins'
  | up ↦ (ok tt, ins)
  | bad f ↦ (throws f, ins)
]

unfoldable pub read_lines : Stream → Map Text Text → Outcome (Unit {0}) × Map Text Text
unfolding read_loop
read_lines out ins = read_loop out.lines out.rest out.ending ins
