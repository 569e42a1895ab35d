-- ===== src/Storage/Labels.antt =====
-- pkg/storage/labels.go
pub mod System
use helm_operator_plugins.Release.{Release}
use helm_operator_plugins.Prelude.{
  ltb, if◌then◌else◌, keep, Dict, panic, Result, ok, err, ℕ, zero, suc, ◌/◌, ◌%◌, String, ◌<>◌,
  Bool, false, ◌||◌, not, none, some, List, [], ◌∷◌, ◌==◌,
}

-- strconv.Itoa on a number that is not negative
digit : ℕ → String
digit n =
    if ltb n 1
    then "0"
    else if ltb n 2
    then "1"
    else if ltb n 3
    then "2"
    else if ltb n 4
    then "3"
    else if ltb n 5
    then "4"
    else if ltb n 6
    then "5"
    else if ltb n 7
    then "6"
    else if ltb n 8
    then "7"
    else if ltb n 9
    then "8"
    else "9"

itoa_loop : ℕ → ℕ → String → String
itoa_loop zero n text = text
itoa_loop (suc fuel) n text =
    let longer = digit (n % 10) <> text in
    let rest = itoa_loop fuel (n / 10) longer in if ltb n 10 then longer else rest

-- A number has fewer digits than the fuel.
unfoldable pub itoa : ℕ → String
unfolding digit itoa_loop
itoa n = itoa_loop (suc n) n ""

unfoldable pub new_index_labels : String → String → Release → Result (Dict String)
new_index_labels owner key rls = elim rls.info [
  | none ↦ err (panic "nil pointer dereference")
  | some info ↦ ok (
      ("name", rls.name)
      ∷ ("owner", owner)
      ∷ ("status", info.status)
      ∷ ("version", itoa rls.version)
      ∷ ("key", key)
      ∷ ("type", "index")
      ∷ [])
]

unfoldable pub new_chunk_labels : String → String → Dict String
new_chunk_labels owner key = ("owner", owner) ∷ ("key", key) ∷ ("type", "chunk") ∷ []

unfoldable pub new_list_indices_label_selector : String → Dict String
new_list_indices_label_selector owner = ("owner", owner) ∷ ("type", "index") ∷ []

unfoldable pub new_list_all_for_key_selector : String → String → Dict String
new_list_all_for_key_selector owner key = ("owner", owner) ∷ ("key", key) ∷ []

unfoldable pub new_list_chunks_for_key_selector : String → String → Dict String
new_list_chunks_for_key_selector owner key =
    ("owner", owner) ∷ ("key", key) ∷ ("type", "chunk") ∷ []

abbrev pub system_labels : List String
system_labels =
    "name" ∷ "owner" ∷ "status" ∷ "version" ∷ "key" ∷ "type" ∷ "createdAt" ∷ "modifiedAt" ∷ []

-- sets.Set.Has
abbrev has : List String → String → Bool
has [] key = false
has (x ∷ xs) key = x == key || has xs key

unfoldable pub is_system_label : String → Bool
is_system_label key = has system_labels key

unfoldable pub filter_system_labels : Dict String → Dict String
filter_system_labels lbs = keep (λ (k, _). not (is_system_label k)) lbs
