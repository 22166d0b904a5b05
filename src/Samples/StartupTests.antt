-- ===== src/Samples/StartupTests.antt =====
-- The theorems on the start-up protocol at concrete channels.
use wye.Common.{◌≡◌, ◌↔◌, refl, [], ◌∷◌, ◌++◌, arith, All}
use wye.Text.{lit, text_eq, find_from, to_int, to_size, substr_from}
use wye.OrderedMap.{insert}
use wye.Outcome.{ok, runtime_error}
use wye.Kernel.{Stream, closed}
use wye.Process.Startup.{read_lines, read_line, read_input, split_input}
use wye.Process.Startup.Protocol.{Starts, IsShort}
use wye.Process.Startup.Acceptance.{read_lines-iff-Starts}
use wye.Process.Startup.Refusal.{Refusal, read_lines-Refusal}
use wye.Samples.Data.{good_output, announced}

good-IsShort : All IsShort good_output.lines
unfolding lit
good-IsShort = omega arith

good_accepted : read_lines good_output [] ≡ (ok tt, announced)
unfolding read_lines read_line read_input split_input lit text_eq find_from to_int to_size
    substr_from insert
good_accepted = refl

read_lines-iff-Starts_example :
    (read_lines good_output [] ≡ (ok tt, announced)) ↔ Starts good_output.lines [] announced
read_lines-iff-Starts_example = read_lines-iff-Starts good_output [] announced good-IsShort

-- The second line has no colon behind `INPUT:`.
abbrev unnamed_output : Stream
unnamed_output = record { lines = lit "INIT" ∷ lit "INPUT:in" ∷ []; rest = []; ending = closed }

unnamed-IsShort : All IsShort unnamed_output.lines
unfolding lit
unnamed-IsShort = omega arith

read_lines-Refusal_example :
    Refusal
      (lit "INIT" ∷ lit "INPUT:in" ∷ [] ∷ [])
      (runtime_error (lit "Did not interpret process output INPUT:" ++ lit "in"))
unfolding read_lines read_line read_input split_input lit text_eq find_from to_int
read_lines-Refusal_example =
    read_lines-Refusal unnamed_output [] _ unnamed-IsShort (omega arith) refl
