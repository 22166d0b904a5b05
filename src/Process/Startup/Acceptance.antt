-- ===== src/Process/Startup/Acceptance.antt =====
-- The loop of process::run_process of src/process.C on a whole status channel: which channels it
-- accepts, and when it ends.
use wye.Common.{◌≡◌, ◌≢◌, ◌↔◌, refl, sym, ◌∙◌, ap, ◌⊎◌, inl, inr, List, [], ◌∷◌, arith, All}
use wye.OrderedMap.{Map}
use wye.Text.{Text, lit, text_eq, text_eq_iff}
use wye.Outcome.{Fault, ok, throws, blocks, aborts}
use wye.Kernel.{Ending, silent, broken, closed, Stream}
use wye.Process.Startup.{
  Reply, more, up, bad, split_input, read_input, read_line, read_rest, read_loop, read_lines,
  after_rest,
}
use wye.Process.Startup.Protocol.{IsShort, Starts, runs, says, read_line_iff}

pub Reply-cases :
    (r : Reply) → ((mid : Map Text Text) × (r ≡ more mid)) ⊎ (r ≡ up) ⊎ ((f : Fault) × (r ≡ bad f))
Reply-cases (more mid) = inl (mid, refl)
Reply-cases up = inr (inl refl)
Reply-cases (bad f) = inr (inr (f, refl))

read_input-ne-up : (body : Text) (ins : Map Text Text) → read_input body ins ≢ up
unfolding read_input split_input
read_input-ne-up body ins h = ground arith

read_line-up : (line : Text) (ins : Map Text Text) → read_line line ins ≡ up → line ≡ lit "RUNNING"
unfolding read_line
read_line-up line ins h = grind (arith, text_eq_iff line (lit "RUNNING"), read_input-ne-up)

pub read_line-running : (ins : Map Text Text) → read_line (lit "RUNNING") ins ≡ up
unfolding read_line lit text_eq
read_line-running ins = refl

module _ (rest : Text) (e : Ending) where
  read_rest-ne-ok : (ins ins' : Map Text Text) → read_rest rest e ins ≢ (ok tt, ins')
  unfolding read_rest
  read_rest-ne-ok ins ins' h = ground arith

  read_rest-blocks : (ins : Map Text Text) → (read_rest rest e ins).0 ≡ blocks → e ≡ silent
  unfolding read_rest
  read_rest-blocks ins h = ground arith

  pub loop_more :
      (l : Text) (ls : List Text) (ins mid : Map Text Text)
      → read_line l ins ≡ more mid
      → read_loop (l ∷ ls) rest e ins ≡ read_loop ls rest e mid
  unfolding read_loop
  loop_more l ls ins mid h = rw (h, read_loop)

  pub loop_up :
      (l : Text) (ls : List Text) (ins : Map Text Text)
      → read_line l ins ≡ up
      → read_loop (l ∷ ls) rest e ins ≡ (ok tt, ins)
  unfolding read_loop
  loop_up l ls ins h = rw (h, read_loop)

  pub loop_bad :
      (l : Text) (ls : List Text) (ins : Map Text Text) (f : Fault)
      → read_line l ins ≡ bad f
      → read_loop (l ∷ ls) rest e ins ≡ (throws f, ins)
  unfolding read_loop
  loop_bad l ls ins f h = rw (h, read_loop)

  loop-Starts :
      (ls : List Text) (ins ins' : Map Text Text)
      → All IsShort ls
      → read_loop ls rest e ins ≡ (ok tt, ins')
      → Starts ls ins ins'
  loop-Starts [] ins ins' short h = absurd (read_rest-ne-ok ins ins' (unfold read_loop in h))
  loop-Starts (l ∷ ls) ins ins' short h = elim (Reply-cases (read_line l ins)) [
    | inl (mid, r) ↦
        says ((read_line_iff l ins mid short.0).0 r)
          (loop-Starts ls mid ins' short.1 (sym (loop_more l ls ins mid r) ∙ h))
    | inr (inl r) ↦
        let same : ins' ≡ ins = cc (loop_up l ls ins r) in
        rw (same, read_line-up l ins r) (runs ls ins)
    | inr (inr (f, r)) ↦ absurd (cc (loop_bad l ls ins f r))
  ]

  Starts-loop :
      {ls : List Text} {ins ins' : Map Text Text}
      → Starts ls ins ins'
      → All IsShort ls
      → read_loop ls rest e ins ≡ (ok tt, ins')
  Starts-loop (runs ls ins) short = loop_up (lit "RUNNING") ls ins (read_line-running ins)
  Starts-loop (says {line} {lines} {ins} {mid} {ins'} s r) short =
      loop_more line lines ins mid ((read_line_iff line ins mid short.0).1 s)
      ∙ Starts-loop r short.1

  loop-blocks :
      (ls : List Text) (ins : Map Text Text) → (read_loop ls rest e ins).0 ≡ blocks → e ≡ silent
  loop-blocks [] ins h = read_rest-blocks ins (unfold read_loop in h)
  loop-blocks (l ∷ ls) ins h = elim (Reply-cases (read_line l ins)) [
    | inl (mid, r) ↦ loop-blocks ls mid (ap (λ o. o.0) (sym (loop_more l ls ins mid r)) ∙ h)
    | inr (inl r) ↦ absurd (cc (ap (λ o. o.0) (loop_up l ls ins r)))
    | inr (inr (f, r)) ↦ absurd (cc (ap (λ o. o.0) (loop_bad l ls ins f r)))
  ]

-- For a status channel whose lines are shorter than 2 ^ 31 bytes: the start-up loop returns with
-- the inputs ins' exactly when the whole lines are, up to a `RUNNING`, each `INIT`, a `NOTICE:` or
-- an `INPUT:name:value` whose name holds no colon, and ins' is what these inputs make of ins. So
-- a `RUNNING` without its newline is not accepted.
pub read_lines-iff-Starts :
    (out : Stream) (ins ins' : Map Text Text)
    → All IsShort out.lines
    → (read_lines out ins ≡ (ok tt, ins')) ↔ Starts out.lines ins ins'
unfolding read_lines
read_lines-iff-Starts out ins ins' short = (
  loop-Starts out.rest out.ending out.lines ins ins' short,
  λ s. Starts-loop out.rest out.ending s short,
)

-- The start-up loop waits for ever only on a channel that the child keeps open and silent; on any
-- other it returns or throws.
pub read_lines-blocks :
    (out : Stream) (ins : Map Text Text) → (read_lines out ins).0 ≡ blocks → out.ending ≡ silent
unfolding read_lines
read_lines-blocks out ins h = loop-blocks out.rest out.ending out.lines ins h

-- One of the lines is `RUNNING`.
abbrev pub SaysRunning : List Text → Type 0
SaysRunning [] = ⊥
SaysRunning (l ∷ ls) = (l ≡ lit "RUNNING") ⊎ SaysRunning ls

running-up : (ins : Map Text Text) → read_line (lit "RUNNING") ins ≡ up
unfolding read_line lit text_eq
running-up ins = refl

says_later :
    (l : Text) (ls : List Text) (ins mid : Map Text Text)
    → read_line l ins ≡ more mid
    → SaysRunning (l ∷ ls)
    → SaysRunning ls
says_later l ls ins mid r (inr s) = s
says_later l ls ins mid r (inl e) =
    absurd (up-ne-more (sym (running-up ins) ∙ ap (λ x. read_line x ins) (sym e) ∙ r))
  where
    up-ne-more : up ≢ more mid
    up-ne-more h = cc

loop-ne-blocks :
    (rest : Text) (e : Ending) (ls : List Text) (ins : Map Text Text)
    → SaysRunning ls
    → (read_loop ls rest e ins).0 ≢ blocks
loop-ne-blocks rest e [] ins s h = s
loop-ne-blocks rest e (l ∷ ls) ins s h = elim (Reply-cases (read_line l ins)) [
  | inl (mid, r) ↦
      loop-ne-blocks rest e ls mid (says_later l ls ins mid r s)
        (ap (λ o. o.0) (sym (loop_more rest e l ls ins mid r)) ∙ h)
  | inr (inl r) ↦ absurd (cc (ap (λ o. o.0) (loop_up rest e l ls ins r)))
  | inr (inr (f, r)) ↦ absurd (cc (ap (λ o. o.0) (loop_bad rest e l ls ins f r)))
]

-- Once a child has said that it runs, the loop returns or throws, although the channel stays open.
pub read_lines-ne-blocks :
    (out : Stream) (ins : Map Text Text) → SaysRunning out.lines → (read_lines out ins).0 ≢ blocks
unfolding read_lines
read_lines-ne-blocks out ins s = loop-ne-blocks out.rest out.ending out.lines ins s

rest-ne-aborts :
    (rest : Text) (e : Ending) (ins : Map Text Text) → (read_rest rest e ins).0 ≢ aborts
unfolding read_rest after_rest
rest-ne-aborts [] silent ins h = cc
rest-ne-aborts (c ∷ cs) silent ins h = cc
rest-ne-aborts [] broken ins h = cc
rest-ne-aborts (c ∷ cs) broken ins h = ground arith
rest-ne-aborts [] closed ins h = cc
rest-ne-aborts (c ∷ cs) closed ins h = ground arith

loop-ne-aborts :
    (ls : List Text) (rest : Text) (e : Ending) (ins : Map Text Text)
    → (read_loop ls rest e ins).0 ≢ aborts
unfolding read_loop
loop-ne-aborts [] rest e ins h = rest-ne-aborts rest e ins h
loop-ne-aborts (l ∷ ls) rest e ins h = grind (arith, loop-ne-aborts ls rest e)

-- The loop on the status channel never ends the program by itself.
pub read_lines-ne-aborts : (out : Stream) (ins : Map Text Text) → (read_lines out ins).0 ≢ aborts
unfolding read_lines
read_lines-ne-aborts out ins h = loop-ne-aborts out.lines out.rest out.ending ins h
