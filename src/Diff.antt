-- ===== src/Diff.antt =====
-- pkg/reconciler/internal/diff/diff.go: the difference of two manifests, as it is printed.
pub mod Printed
mod Examples
use helm_operator_plugins.Prelude.{split, String, ◌<>◌, Bool, false, List, [], ◌∷◌}

-- diffmatchpatch.Diff
pub data Operation : Type 0 where
  insert_op delete_op equal_op : Operation

pub record Difference : Type 0 where
  pub type : Operation
  pub text : String

-- diffmatchpatch, on lines that it numbers: DiffLinesToRunes, DiffMainRunes and DiffCharsToLines.
pub record DiffLib : Type 1 where
  pub Runes : Type 0
  pub LineArray : Type 0
  pub diff_lines_to_runes : String → String → Runes × Runes × LineArray
  pub diff_main_runes : Runes → Runes → Bool → List Difference
  pub diff_chars_to_lines : List Difference → LineArray → List Difference

-- `lines[:len(lines)-1]`; strings.Split gives at least one line.
unfoldable pub without_last : List String → List String
without_last [] = []
without_last (line ∷ lines) =
    let rest = without_last lines in elim lines [ [] ↦ [] | _ ∷ _ ↦ line ∷ rest ]

-- The loop of prefixLines: "^" is found at the start of the line only.
unfoldable pub prefix_each : String → List String → String
prefix_each prefix [] = ""
prefix_each prefix (line ∷ lines) = prefix <> (line <> ("\n" <> prefix_each prefix lines))

unfoldable pub prefix_lines : String → String → String
unfolding prefix_each without_last
prefix_lines s prefix = prefix_each prefix (without_last (split 10 s))

-- The body of the loop of Generate.
unfoldable pub write_diff : Difference → String
unfolding prefix_lines
write_diff d = elim d.type [
  | insert_op ↦ "\u{1b}[32m" <> (prefix_lines d.text "+" <> "\u{1b}[0m")
  | delete_op ↦ "\u{1b}[31m" <> (prefix_lines d.text "-" <> "\u{1b}[0m")
  | equal_op ↦ prefix_lines d.text " "
]

unfoldable pub write_diffs : List Difference → String
unfolding write_diff
write_diffs [] = ""
write_diffs (d ∷ ds) = write_diff d <> write_diffs ds

unfoldable pub generate : DiffLib → String → String → String
unfolding write_diffs
generate dmp a b =
    let (w_src, w_dst, warray) = dmp.diff_lines_to_runes a b in
    write_diffs (dmp.diff_chars_to_lines (dmp.diff_main_runes w_src w_dst false) warray)
