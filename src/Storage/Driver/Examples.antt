-- ===== src/Storage/Driver/Examples.antt =====
-- The storage theorems at concrete data, over the API in memory.
use helm_operator_plugins.Storage.Driver.Data.{
  info, rls, driver, strict, first, extra, codec, index, chunk_secret, stored, short, before,
  first_j, extra_j,
}
use helm_operator_plugins.Storage.{wrap_release}
use helm_operator_plugins.Storage.Api.{DecodesBack}
use helm_operator_plugins.Storage.Memory.{Memory, nothing, memory_api, memory_healthy}
use helm_operator_plugins.Storage.Chunks.{cut, encode_release_as_chunks}
use helm_operator_plugins.Storage.Chunks.Cutting.{
  joined, Fits, cut_ends, encode_release_as_chunks_lem,
}
use helm_operator_plugins.Storage.Labels.{
  new_chunk_labels, new_list_indices_label_selector, new_list_chunks_for_key_selector,
  is_system_label, filter_system_labels,
}
use helm_operator_plugins.Storage.Hash.{hash_for_data}
use helm_operator_plugins.Storage.Driver.{create, update, decode_release, get, query}
use helm_operator_plugins.Storage.Driver.Chunking.{named, Free}
use helm_operator_plugins.Storage.Driver.Saving.{visible, get-create}
use helm_operator_plugins.Storage.Driver.Reading.{update_loses_chunks}
use helm_operator_plugins.Storage.Driver.Updating.{Freed, get-update}
use helm_operator_plugins.Storage.Driver.Framing.{listed, Untouched}
use helm_operator_plugins.Prelude.{
  length, All, message, wrap, ok, err, ◌+◌, ◌*◌, ◌≤◌, ◌<◌, ◌≡◌, refl, ◌⊎◌, inr, false, none, some,
  [], ◌∷◌, arith,
}

fnv_of_a : hash_for_data (97 ∷ []) ≡ "v4r4ytegahwiy"
unfolding hash_for_data
fnv_of_a = refl

pieces : encode_release_as_chunks codec driver "k" rls ≡ ok (first ∷ extra)
unfolding encode_release_as_chunks hash_for_data
pieces = refl

back : DecodesBack codec (wrap_release rls)
unfolding wrap_release
back = record { decodes = λ d e. (d, refl, refl) }

apart : named "k" extra ≡ false
unfolding hash_for_data
apart = refl

encode_release_as_chunks_lem_example :
    (joined (first ∷ extra) ≡ 1 ∷ 2 ∷ 3 ∷ [])
    × All (Fits 2) (first ∷ extra)
    × (3 ≤ 2 * 2)
    × (2 * 2 < 3 + 2)
    × ((driver.config.max_write_chunks ≡ 0) ⊎ (2 ≤ 5))
encode_release_as_chunks_lem_example =
    encode_release_as_chunks_lem codec driver "k" rls (1 ∷ 2 ∷ 3 ∷ []) (first ∷ extra) (omega arith)
      refl pieces

get-create_example :
    (t : Memory) × (create memory_api codec driver 7 "k" rls nothing ≡ (ok tt, t))
    × (get memory_api codec driver "k" t ≡ (ok (visible rls), t))
get-create_example =
    get-create memory_healthy codec driver 7 "k" rls info (1 ∷ 2 ∷ 3 ∷ []) first extra nothing refl
      (omega arith) refl pieces back refl (inr (omega arith)) refl (refl, tt) apart (refl, tt)

decoded : decode_release memory_api short driver index stored ≡ (ok (visible rls), stored)
unfolding decode_release filter_system_labels
decoded = refl

too_large : encode_release_as_chunks codec strict "k" rls ≡ err (message "release too large")
unfolding encode_release_as_chunks
too_large = refl

chunk_labels : chunk_secret.labels ≡ new_chunk_labels "op" "k"
unfolding new_chunk_labels
chunk_labels = refl

update_loses_chunks_example :
    (t : Memory) × (update memory_api codec strict 7 "k" rls stored
      ≡ (err (wrap "create: failed to encode release" (message "release too large")), t))
    × (t.table "k" ≡ some index)
    × (t.table "k-2" ≡ none)
update_loses_chunks_example =
    update_loses_chunks memory_healthy codec strict 7 "k" "k-2" rls index chunk_secret
      (message "release too large") stored refl refl refl refl chunk_labels too_large

query_finds :
    (query memory_api short driver (("owner", "helm") ∷ ("team", "a") ∷ []) stored).0
    ≡ ok (visible rls ∷ [])
unfolding query filter_system_labels is_system_label new_list_indices_label_selector
query_finds = refl

freed : Freed memory_healthy codec driver "k" before extra
unfolding hash_for_data new_list_chunks_for_key_selector
freed = (refl, tt)

get-update_example :
    (t : Memory) × (update memory_api codec driver 9 "k" rls before ≡ (ok tt, t))
    × (get memory_api codec driver "k" t ≡ (ok (visible rls), t))
get-update_example =
    get-update memory_healthy codec driver 9 "k" rls info (1 ∷ 2 ∷ 3 ∷ []) first extra index before
      refl (omega arith) refl pieces back refl (inr (omega arith)) refl refl refl freed apart
      (refl, tt)

pieces_j : encode_release_as_chunks codec driver "j" rls ≡ ok (first_j ∷ extra_j)
unfolding encode_release_as_chunks hash_for_data
pieces_j = refl

j_is_Free : Free memory_healthy before extra_j
unfolding hash_for_data
j_is_Free = (refl, tt)

apart_j : named "j" extra_j ≡ false
unfolding hash_for_data
apart_j = refl

untouched :
    Untouched memory_healthy codec driver "j" extra_j "k"
    × All
        (Untouched memory_healthy codec driver "j" extra_j)
        (listed memory_healthy codec driver index)
unfolding hash_for_data
untouched = ((refl, refl), ((refl, refl), tt))

fresh_j : before.table "j" ≡ none
unfolding hash_for_data
fresh_j = refl

cut_ends_example :
    (cut 9 "k" 2 (1 ∷ 2 ∷ 3 ∷ []) ≡ cut 3 "k" 2 (1 ∷ 2 ∷ 3 ∷ []))
    × (length (cut 9 "k" 2 (1 ∷ 2 ∷ 3 ∷ [])) ≤ 3)
cut_ends_example = cut_ends "k" 2 9 (1 ∷ 2 ∷ 3 ∷ []) (omega arith) (omega arith)
