-- ===== src/Storage/Driver.antt =====
-- The methods of chunkedSecrets (pkg/storage/chunked.go). The wall clock is the argument `now`, in
-- seconds; log lines are left out.
pub mod Chunking
pub mod Saving
pub mod Reading
pub mod Updating
pub mod Framing
pub mod Store
mod Data
mod Examples
use helm_operator_plugins.Storage.{Secret, SecretInterface, Stream, Codec, ChunkedSecrets}
use helm_operator_plugins.Storage.Chunks.{
  Chunk, encode_release_as_chunks, index_secret_from_chunks, chunk_secret_from_chunk,
}
use helm_operator_plugins.Storage.Labels.{
  itoa, new_list_indices_label_selector, new_list_all_for_key_selector,
  new_list_chunks_for_key_selector, is_system_label, filter_system_labels,
}
use helm_operator_plugins.Exec.{Exec, pure, fail, lift, on_error, ◌>>=◌, ◌>>◌}
use helm_operator_plugins.Release.{Release}
use helm_operator_plugins.Prelude.{
  ltb, if◌then◌else◌, length, keep, Dict, lookup, insert, api, release_not_found, release_exists,
  message, wrap, ok, err, is_not_found, is_already_exists, is_release_not_found, ℕ, ◌+◌, String,
  ◌<>◌, Bool, ◌&&◌, not, none, some, List, [], ◌∷◌, ◌++◌, ◌==◌,
}

-- `chunks[1:]`, which `indexSecretFromChunks` has sliced before
abbrev extra_chunks : List Chunk → List Chunk
extra_chunks [] = []
extra_chunks (_ ∷ chunks) = chunks

abbrev pub created_at : ℕ → Dict String → Dict String
created_at now = insert "createdAt" (itoa now)

-- A missing label reads as the empty text.
abbrev pub label_of : String → Dict String → String
label_of k labels = elim (lookup k labels) [ none ↦ "" | some v ↦ v ]

module _ (api : SecretInterface) (codec : Codec) (c : ChunkedSecrets) where
  open api use {State}

  -- The loop over `chunks[1:]`; `Create` adds the time to the labels and `Update` does not.
  unfoldable pub create_chunks :
      (Dict String → Dict String) → Secret → List Chunk → Exec State (Unit {0})
  create_chunks stamp index [] = pure tt
  create_chunks stamp index (ch ∷ chunks) =
      let secret = chunk_secret_from_chunk c index ch in
      do
        on_error (wrap "create: failed to create chunk secret")
            (api.create (record secret { labels = stamp secret.labels }))
        create_chunks stamp index chunks

  unfoldable pub create : ℕ → String → Release → Exec State (Unit {0})
  unfolding create_chunks is_already_exists
  create now key rls = do
    chunks ←
        on_error (wrap "create: failed to encode release")
          (lift (encode_release_as_chunks codec c key rls))
    index ← lift (index_secret_from_chunks codec c key rls chunks)
    created ←
        on_error
          (λ e.
            if is_already_exists e
            then release_exists
            else wrap "create: failed to create index and chunk" e)
          (api.create (record index { labels = created_at now index.labels }))
    create_chunks (created_at now) created (extra_chunks chunks)

  unfoldable pub get_index : String → Exec State Secret
  unfolding is_not_found
  get_index key =
      on_error
        (λ e. if is_not_found e then release_not_found else wrap "failed to get secret for key" e)
        (api.get key)

  unfoldable pub update : ℕ → String → Release → Exec State (Unit {0})
  unfolding create_chunks get_index
  update now key rls = do
    existing ← on_error (wrap "update") (get_index key)
    on_error (wrap "update: failed to delete previous chunk secrets for key")
        (api.delete_collection (new_list_chunks_for_key_selector c.owner existing.name))
    chunks ←
        on_error (wrap "create: failed to encode release")
          (lift (encode_release_as_chunks codec c key rls))
    index ← lift (index_secret_from_chunks codec c key rls chunks)
    updated ← on_error (wrap "create: failed to create index and chunk") (
        api.update (record index {
          labels =
              insert "modifiedAt" (itoa now)
                (insert "createdAt" (label_of "createdAt" existing.labels) index.labels);
        }))
    create_chunks (λ labels. labels) updated (extra_chunks chunks)

  -- The goroutine of `decodeRelease`, past the first chunk.
  unfoldable pub read_extra : List String → State → Stream × State
  read_extra [] s = (record { bytes = []; failure = none }, s)
  read_extra (name ∷ names) s =
      let (found, t) = api.get name s in
      elim found [
        | err e ↦ (record { bytes = []; failure = some (wrap "failed to get chunk secret" e) }, t)
        | ok secret ↦ elim (lookup "chunk" secret.payload) [
          | none ↦
              (record { bytes = []; failure = some (message "chunk secret missing chunk data") }, t)
          | some bs ↦
              let (stream, u) = read_extra names t in
              (record stream { bytes = bs ++ stream.bytes }, u)
        ]
      ]

  unfoldable pub read_stream : Secret → List String → State → Stream × State
  unfolding read_extra
  read_stream index names s = elim (lookup "chunk" index.payload) [
    | none ↦ (record { bytes = []; failure = some (message "index secret missing chunk data") }, s)
    | some bs ↦
        let (stream, t) = read_extra names s in (record stream { bytes = bs ++ stream.bytes }, t)
  ]

  unfoldable pub decode_release : Secret → Exec State Release
  unfolding read_stream
  decode_release index s = elim (lookup "extraChunks" index.payload) [
    | none ↦ (err (message "index secret missing chunks data"), s)
    | some names_data ↦ elim (codec.unmarshal_names names_data) [
      | err e ↦ (err (wrap "failed to parse chunk names from index" e), s)
      | ok names ↦
          if ltb 0 c.config.max_read_chunks && ltb c.config.max_read_chunks (1 + length names)
          then (err (message "release too large"), s)
          else let (stream, t) = read_stream index names s in
            elim (codec.new_reader stream) [
              | err e ↦ (err (wrap "failed to create gzip reader" e), t)
              | ok reader ↦ elim (codec.decode reader) [
                | err e ↦ (err (wrap "failed to decode release" e), t)
                | ok wrapped ↦ (
                  ok (record (wrapped.release) { labels = filter_system_labels wrapped.labels }),
                  t,
                )
              ]
            ]
    ]
  ]

  unfoldable pub get_index_and_release : String → Exec State (Secret × Release)
  unfolding get_index decode_release
  get_index_and_release key = do
    index ← get_index key
    rls ← on_error (wrap "failed to decode release from index secret") (decode_release index)
    pure (index, rls)

  unfoldable pub get : String → Exec State Release
  unfolding get_index_and_release
  get key = do (_, rls) ← on_error (wrap "get") (get_index_and_release key); pure rls

  unfoldable pub delete : String → Exec State Release
  unfolding get_index_and_release is_release_not_found
  delete key = do
    (_, rls) ←
        on_error (λ e. if is_release_not_found e then release_not_found else wrap "delete" e)
          (get_index_and_release key)
    on_error (wrap "delete: failed to delete index secret")
        (api.delete_collection (new_list_all_for_key_selector c.owner key))
    pure rls

  -- The loop of `List`, which shows a release with the labels of its index secret.
  unfoldable pub list_loop : (Release → Bool) → List Secret → Exec State (List Release)
  unfolding decode_release
  list_loop filter [] = pure []
  list_loop filter (index ∷ indices) = do
    decoded ← on_error (wrap "list: failed to decode release for key") (decode_release index)
    rest ← list_loop filter indices
    let rls = record decoded { labels = index.labels }
    pure (if filter rls then rls ∷ rest else rest)

  unfoldable pub list : (Release → Bool) → Exec State (List Release)
  unfolding list_loop
  list filter = do
    indices ← on_error (wrap "list") (api.list (new_list_indices_label_selector c.owner))
    list_loop filter indices

  -- Helm asks with owner=helm; the driver puts its own owner there.
  unfoldable pub own_query : Dict String → Dict String
  own_query [] = []
  own_query ((k, v) ∷ labels) =
      (k, if k == "owner" && v == "helm" then c.owner else v) ∷ own_query labels

  -- The loop of pass 2 of `Query`.
  unfoldable pub query_loop : Dict String → List Secret → Exec State (List Release)
  unfolding decode_release
  query_loop selector [] = pure []
  query_loop selector (index ∷ indices) = do
    rls ← on_error (wrap "query: failed to decode release") (decode_release index)
    rest ← query_loop selector indices
    pure (if codec.matches selector rls.labels then rls ∷ rest else rest)

  abbrev pub or_not_found : List Release → Exec State (List Release)
  or_not_found [] = fail release_not_found
  or_not_found (rls ∷ results) = pure (rls ∷ results)

  unfoldable pub query : Dict String → Exec State (List Release)
  unfolding own_query query_loop
  query labels = do
    let own = own_query labels
    indices ← on_error (wrap "query") (
        api.list
          (new_list_indices_label_selector c.owner ++ keep (λ (k, _). is_system_label k) own))
    results ← query_loop (keep (λ (k, _). not (is_system_label k)) own) indices
    or_not_found results

unfoldable pub name : ChunkedSecrets → String
name c = c.owner <> "/chunkedSecrets"
