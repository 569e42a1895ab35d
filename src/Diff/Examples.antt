-- ===== src/Diff/Examples.antt =====
-- A difference at two manifests, one of them without an end of its last line.
use helm_operator_plugins.Diff.{insert_op, delete_op, equal_op, DiffLib, generate}
use helm_operator_plugins.Diff.Printed.{Part, as_difference, generate-all_shown}
use helm_operator_plugins.Prelude.{String, ◌≡◌, refl, List, [], ◌∷◌, map, arith}

-- A library that finds one line in common, and one that is replaced.
abbrev parts : List Part
parts =
    record { operation = equal_op; lines = "kind: Web" ∷ []; unfinished = "" }
    ∷ record { operation = delete_op; lines = "size: 1" ∷ []; unfinished = "" }
    ∷ record { operation = insert_op; lines = []; unfinished = "size: 2" }
    ∷ []

abbrev finding : DiffLib
finding = record {
  Runes = String;
  LineArray = Unit {0};
  diff_lines_to_runes = λ a b. (a, b, tt);
  diff_main_runes = λ a b check. map as_difference parts;
  diff_chars_to_lines = λ ds lines. ds;
}

generate-all_shown_example :
    generate finding "kind: Web\nsize: 1\n" "kind: Web\nsize: 2"
    ≡ " kind: Web\n\u{1b}[31m-size: 1\n\u{1b}[0m\u{1b}[32m\u{1b}[0m"
generate-all_shown_example =
    generate-all_shown finding "kind: Web\nsize: 1\n" "kind: Web\nsize: 2" parts (ground arith) refl
