-- ===== src/Process/Startup/Channel.antt =====
-- The bytes that a child writes on descriptor 3, cut into lines by `std::getline` as
-- process::run_process of src/process.C reads them.
use wye.Common.{◌≡◌, refl, ap, List, [], ◌∷◌, ◌++◌, arith, ◌==◌, if◌then◌else◌, ℕ}
use wye.Text.{Text}
use wye.Text.Search.{Lacks}
use wye.Kernel.{Stream, Ending}

-- A byte in front of what was cut.
unfoldable pub push_byte : ℕ → List Text × Text → List Text × Text
push_byte c ([], rest) = ([], c ∷ rest)
push_byte c (l ∷ ls, rest) = ((c ∷ l) ∷ ls, rest)

-- The lines that end in a newline, and the bytes behind the last one.
unfoldable pub split_lines : Text → List Text × Text
unfolding push_byte
split_lines [] = ([], [])
split_lines (c ∷ s) =
    let (ls, rest) = split_lines s in if c == b'\n' then ([] ∷ ls, rest) else push_byte c (ls, rest)

unfoldable pub stream_of : Text → Ending → Stream
unfolding split_lines
stream_of s e = let (ls, rest) = split_lines s in record { lines = ls; rest = rest; ending = e }

-- A line without a newline of its own is cut off as it was written.
pub split_lines-line :
    (line s : Text)
    → Lacks b'\n' line
    → split_lines (line ++ b'\n' ∷ s) ≡ (line ∷ (split_lines s).0, (split_lines s).1)
unfolding split_lines push_byte
split_lines-line [] s h = refl
split_lines-line (c ∷ line) s h = ground (arith, split_lines-line line s h.1)

pub lines-stream_of :
    (line s : Text) (e : Ending)
    → Lacks b'\n' line
    → (stream_of (line ++ b'\n' ∷ s) e).lines ≡ line ∷ (stream_of s e).lines
unfolding stream_of
lines-stream_of line s e h = ap (λ r. r.0) (split_lines-line line s h)
