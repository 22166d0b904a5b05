-- ===== src/Process/Startup/Refusal.antt =====
-- What the start-up loop of process::run_process of src/process.C throws, and at which lines.
use wye.Common.{
  ◌≡◌, sym, ◌∙◌, ap, subst, false, ◌⊎◌, inl, inr, List, [], ◌∷◌, ◌++◌, arith, All, take, drop,
}
use wye.OrderedMap.{Map}
use wye.Text.{Text, lit, text_eq}
use wye.Text.Search.{Lacks, prefix_split, find_from-cases}
use wye.Outcome.{Outcome, Fault, throws, runtime_error}
use wye.Kernel.{Ending, silent, broken, closed, Stream}
use wye.Process.Startup.{
  bad, read_input, read_line, read_rest, read_loop, read_lines, after_rest, not_running,
}
use wye.Process.Startup.Protocol.{IsShort, read_input-found, read_input-missing, length-drop-le}
use wye.Process.Startup.Acceptance.{Reply-cases, loop_more, loop_up, loop_bad}

-- None of the words of the protocol.
abbrev pub IsUnknown : Text → Type 0
IsUnknown line =
    (text_eq line (lit "INIT") ≡ false)
    × (text_eq (take 6 line) (lit "INPUT:") ≡ false)
    × (text_eq (take 6 line) (lit "ERROR:") ≡ false)
    × (text_eq (take 7 line) (lit "NOTICE:") ≡ false)
    × (text_eq line (lit "RUNNING") ≡ false)

-- A line that ends the loop, and what it throws.
pub data Refuses : Text → Fault → Type 0 where
  failed :
      (text : Text)
      → Refuses (lit "ERROR:" ++ text) (runtime_error (lit "Process failed to start: " ++ text))
  unnamed :
      (body : Text)
      → Lacks b':' body
      → Refuses
          (lit "INPUT:" ++ body)
          (runtime_error (lit "Did not interpret process output INPUT:" ++ body))
  unknown :
      (line : Text)
      → IsUnknown line
      → Refuses line (runtime_error (lit "Bad return string: " ++ line))

-- The loop ends without a `RUNNING`, or at a line.
pub data Refusal : List Text → Fault → Type 0 where
  none_runs : (ls : List Text) → Refusal ls not_running
  here : {l : Text} {e : Fault} (ls : List Text) → Refuses l e → Refusal (l ∷ ls) e
  later : {ls : List Text} {e : Fault} (l : Text) → Refusal ls e → Refusal (l ∷ ls) e

read_line-bad :
    (line : Text) (ins : Map Text Text) (e : Fault)
    → read_line line ins ≡ bad e
    → ((line ≡ lit "INPUT:" ++ drop 6 line) × (read_input (drop 6 line) ins ≡ bad e))
      ⊎ ((line ≡ lit "ERROR:" ++ drop 6 line)
          × (e ≡ runtime_error (lit "Process failed to start: " ++ drop 6 line)))
      ⊎ (IsUnknown line × (e ≡ runtime_error (lit "Bad return string: " ++ line)))
unfolding read_line
read_line-bad line ins e h =
    ground (arith, prefix_split 6 line (lit "INPUT:"), prefix_split 6 line (lit "ERROR:"))

read_input-Refuses :
    (body : Text) (ins : Map Text Text) (e : Fault)
    → IsShort body
    → read_input body ins ≡ bad e
    → Refuses (lit "INPUT:" ++ body) e
read_input-Refuses body ins e h r = elim (find_from-cases b':' 0 body) [
  | inl (lacks, missing) ↦
      let same : e ≡ runtime_error (lit "Did not interpret process output INPUT:" ++ body) =
        cc (read_input-missing body ins missing) in
      rw same (unnamed body lacks)
  | inr (name, value, split, lacks) ↦
      let short : IsShort (name ++ b':' ∷ value) = rw split at h in
      absurd (cc (read_input-found name value ins short lacks, ap (λ b. read_input b ins) split))
]

read_line-Refuses :
    (line : Text) (ins : Map Text Text) (e : Fault)
    → IsShort line
    → read_line line ins ≡ bad e
    → Refuses line e
read_line-Refuses line ins e short h = elim (read_line-bad line ins e h) [
  | inl (split, r) ↦
      rw split (read_input-Refuses (drop 6 line) ins e (omega (arith, length-drop-le 6 line)) r)
  | inr (inl (split, same)) ↦ rw (split, same) (failed (drop 6 line))
  | inr (inr (a, same)) ↦ rw same (unknown line a)
]

none_more : (f : Fault) (ls : List Text) → not_running ≡ f → Refusal ls f
none_more f ls e = subst (Refusal ls) e (none_runs ls)

-- What a throw throws.
thrown : {A : Type 0} (g f : Fault) → ◌≡◌ {A = Outcome A} (throws g) (throws f) → g ≡ f
thrown g f h = ap (λ o. elim o [ throws e ↦ e | _ ↦ g ]) h

read_rest-Refusal :
    (rest : Text) (ins : Map Text Text) (f : Fault)
    → IsShort rest
    → (after_rest ins (read_line rest ins)).0 ≡ throws f
    → Refusal (rest ∷ []) f
unfolding after_rest
read_rest-Refusal rest ins f short h = elim (Reply-cases (read_line rest ins)) [
  | inl (mid, r) ↦ none_more f (rest ∷ []) (thrown _ f (sym (ap (λ r. (after_rest ins r).0) r) ∙ h))
  | inr (inl r) ↦ none_more f (rest ∷ []) (thrown _ f (sym (ap (λ r. (after_rest ins r).0) r) ∙ h))
  | inr (inr (g, r)) ↦
      subst (Refusal (rest ∷ [])) (thrown g f (sym (ap (λ r. (after_rest ins r).0) r) ∙ h))
        (here [] (read_line-Refuses rest ins g short r))
]

rest-Refusal :
    (rest : Text) (e : Ending) (ins : Map Text Text) (f : Fault)
    → IsShort rest
    → (read_rest rest e ins).0 ≡ throws f
    → Refusal (rest ∷ []) f
unfolding read_rest after_rest
rest-Refusal rest silent ins f short h = absurd (cc h)
rest-Refusal [] broken ins f short h = none_more f ([] ∷ []) (thrown _ f h)
rest-Refusal (c ∷ cs) broken ins f short h = read_rest-Refusal (c ∷ cs) ins f short h
rest-Refusal [] closed ins f short h = none_more f ([] ∷ []) (thrown _ f h)
rest-Refusal (c ∷ cs) closed ins f short h = read_rest-Refusal (c ∷ cs) ins f short h

module _ (rest : Text) (e : Ending) (short_rest : IsShort rest) where
  loop-Refusal :
      (ls : List Text) (ins : Map Text Text) (f : Fault)
      → All IsShort ls
      → (read_loop ls rest e ins).0 ≡ throws f
      → Refusal (ls ++ rest ∷ []) f
  loop-Refusal [] ins f short h = rest-Refusal rest e ins f short_rest (unfold read_loop in h)
  loop-Refusal (l ∷ ls) ins f short h = elim (Reply-cases (read_line l ins)) [
    | inl (mid, r) ↦
        later l (
          loop-Refusal ls mid f short.1 (ap (λ o. o.0) (sym (loop_more rest e l ls ins mid r)) ∙ h))
    | inr (inl r) ↦ absurd (cc (ap (λ o. o.0) (loop_up rest e l ls ins r)))
    | inr (inr (g, r)) ↦
        subst (Refusal (l ∷ (ls ++ rest ∷ [])))
          (thrown g f (sym (ap (λ o. o.0) (loop_bad rest e l ls ins g r)) ∙ h))
          (here (ls ++ rest ∷ []) (read_line-Refuses l ins g short.0 r))
  ]

-- On lines shorter than 2^31 bytes, a last one without a newline included, the start-up loop throws
-- only what the protocol gives as a reason: that no `RUNNING` came, or the message for a line of the
-- channel that is an `ERROR:`, an `INPUT:` without a colon behind it, or none of the words of the
-- protocol. So no position that it computes, in `int`, is out of the range of its `substr`.
pub read_lines-Refusal :
    (out : Stream) (ins : Map Text Text) (f : Fault)
    → All IsShort out.lines
    → IsShort out.rest
    → (read_lines out ins).0 ≡ throws f
    → Refusal (out.lines ++ out.rest ∷ []) f
unfolding read_lines
read_lines-Refusal out ins f short short_rest h =
    loop-Refusal out.rest out.ending short_rest out.lines ins f short h
