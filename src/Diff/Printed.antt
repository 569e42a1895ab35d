-- ===== src/Diff/Printed.antt =====
-- What the printed difference shows.
use text.Mathlib.TextLemmas.{nil-append, cons-append, append_assoc}
use helm_operator_plugins.Diff.{
  Operation, insert_op, delete_op, equal_op, Difference, DiffLib, without_last, prefix_each,
  prefix_lines, write_diff, write_diffs, generate,
}
use helm_operator_plugins.Prelude.{
  All, split, Lacks, split_whole, split_at, String, ◌<>◌, ◌≡◌, refl, sym, ap, ◌∙◌, false, List, [],
  ◌∷◌, ◌++◌, map,
}

-- Lines with their ends, and what follows the last of them.
abbrev pub text_of : List String → String → String
text_of [] rest = rest
text_of (line ∷ lines) rest = line <> ("\n" <> text_of lines rest)

-- A part of the difference as the library gives it: its complete lines, and what follows them.
pub record Part : Type 0 where
  pub operation : Operation
  pub lines : List String
  pub unfinished : String

abbrev pub IsPart : Part → Type 0
IsPart p = All (Lacks 10) p.lines × Lacks 10 p.unfinished

abbrev pub as_difference : Part → Difference
as_difference p = record { type = p.operation; text = text_of p.lines p.unfinished }

-- How the complete lines are shown.
abbrev pub marked : String → List String → String
marked mark lines = text_of (map (λ line. mark <> line) lines) ""

abbrev pub shown : Part → String
shown p = elim p.operation [
  | insert_op ↦ "\u{1b}[32m" <> (marked "+" p.lines <> "\u{1b}[0m")
  | delete_op ↦ "\u{1b}[31m" <> (marked "-" p.lines <> "\u{1b}[0m")
  | equal_op ↦ marked " " p.lines
]

abbrev pub all_shown : List Part → String
all_shown [] = ""
all_shown (p ∷ ps) = shown p <> all_shown ps

split-text_of :
    (lines : List String) (rest : String)
    → All (Lacks 10) lines
    → Lacks 10 rest
    → split 10 (text_of lines rest) ≡ lines ++ (rest ∷ [])
split-text_of [] rest hs h = split_whole 10 rest h
split-text_of (line ∷ lines) rest (k, hs) h =
    ap (λ t. split 10 (line <> t))
      (cons-append "\n" "" (text_of lines rest)
        ∙ ap (String.◌∷◌ "\n") (nil-append (text_of lines rest)))
    ∙ split_at 10 line "\n" (text_of lines rest) refl k
    ∙ ap (λ ls. line ∷ ls) (split-text_of lines rest hs h)

without_last-append :
    (lines : List String) (line : String) → without_last (lines ++ (line ∷ [])) ≡ lines
unfolding without_last
without_last-append [] line = refl
without_last-append (first ∷ []) line = refl
without_last-append (first ∷ second ∷ lines) line =
    ap (λ ls. first ∷ ls) (without_last-append (second ∷ lines) line)

prefix_each-marked :
    (mark : String) (lines : List String) → prefix_each mark lines ≡ marked mark lines
unfolding prefix_each
prefix_each-marked mark [] = refl
prefix_each-marked mark (line ∷ lines) =
    ap (λ t. mark <> (line <> ("\n" <> t))) (prefix_each-marked mark lines)
    ∙ sym (append_assoc mark line ("\n" <> marked mark lines))

prefix_lines-text_of :
    (lines : List String) (rest mark : String)
    → All (Lacks 10) lines
    → Lacks 10 rest
    → prefix_lines (text_of lines rest) mark ≡ marked mark lines
unfolding prefix_lines
prefix_lines-text_of lines rest mark hs h =
    ap (λ ls. prefix_each mark (without_last ls)) (split-text_of lines rest hs h)
    ∙ ap (prefix_each mark) (without_last-append lines rest)
    ∙ prefix_each-marked mark lines

write_diff-shown :
    (op : Operation) (lines : List String) (rest : String)
    → All (Lacks 10) lines
    → Lacks 10 rest
    → let p : Part = record { operation = op; lines = lines; unfinished = rest } in
      write_diff (as_difference p) ≡ shown p
unfolding write_diff
write_diff-shown insert_op lines rest hs h =
    ap (λ t. "\u{1b}[32m" <> (t <> "\u{1b}[0m")) (prefix_lines-text_of lines rest "+" hs h)
write_diff-shown delete_op lines rest hs h =
    ap (λ t. "\u{1b}[31m" <> (t <> "\u{1b}[0m")) (prefix_lines-text_of lines rest "-" hs h)
write_diff-shown equal_op lines rest hs h = prefix_lines-text_of lines rest " " hs h

write_diffs-all_shown :
    (ps : List Part) → All IsPart ps → write_diffs (map as_difference ps) ≡ all_shown ps
unfolding write_diffs
write_diffs-all_shown [] parts = refl
write_diffs-all_shown (p ∷ ps) ((hs, h), parts) =
    ap (λ t. t <> write_diffs (map as_difference ps))
      (write_diff-shown p.operation p.lines p.unfinished hs h)
    ∙ ap (λ t. shown p <> t) (write_diffs-all_shown ps parts)

-- Where the library finds a difference in parts, each of complete lines and of what follows the
-- last line end, Generate prints the complete lines of each part, in order, behind the mark and in
-- the colour of their operation; what follows the last line end of a part is not printed.
pub generate-all_shown :
    (dmp : DiffLib) (a b : String) (ps : List Part)
    → All IsPart ps
    → let (w_src, w_dst, warray) = dmp.diff_lines_to_runes a b in
      dmp.diff_chars_to_lines (dmp.diff_main_runes w_src w_dst false) warray ≡ map as_difference ps
      → generate dmp a b ≡ all_shown ps
unfolding generate
generate-all_shown dmp a b ps parts found = ap write_diffs found ∙ write_diffs-all_shown ps parts
