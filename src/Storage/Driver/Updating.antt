-- ===== src/Storage/Driver/Updating.antt =====
-- What is updated can be read back.
use helm_operator_plugins.Storage.{
  Bytes, Secret, SecretInterface, wrap_release, Codec, ChunkedSecrets,
}
use helm_operator_plugins.Storage.Api.{surviving, HealthyApi, DecodesBack}
use helm_operator_plugins.Storage.Chunks.{Chunk, encode_release_as_chunks, index_secret_from_chunks}
use helm_operator_plugins.Storage.Chunks.Cutting.{encode_release_as_chunks_lem}
use helm_operator_plugins.Storage.Labels.{itoa, new_index_labels, new_list_chunks_for_key_selector}
use helm_operator_plugins.Storage.Driver.{label_of, create_chunks, update, get}
use helm_operator_plugins.Storage.Driver.Chunking.{
  names, named, Distinct, Free, Free-create, create_chunks_lem,
}
use helm_operator_plugins.Storage.Driver.Saving.{
  index_of, visible, decode_release_lem, get_of_stored,
}
use helm_operator_plugins.Storage.Driver.Reading.{index_stays}
use helm_operator_plugins.Release.{Info, Release}
use helm_operator_plugins.Prelude.{
  length, lookup, insert, ok, ℕ, ◌+◌, ◌≤◌, ◌<◌, String, ◌≡◌, ap, ◌∙◌, ◌⊎◌, false, none, some, List,
  [], ◌∷◌, arith, eq_iff,
}

-- The index secret that `Update` writes.
abbrev pub updated_index_of :
    Codec → ChunkedSecrets → ℕ → String → Release → Info → Secret → Chunk → List Chunk → Secret
updated_index_of codec c now key rls info existing first extra =
    record (index_of codec c now key rls info first extra) {
      labels = insert "modifiedAt" (itoa now) (
          insert "createdAt" (label_of "createdAt" existing.labels) (
            ("name", rls.name)
            ∷ ("owner", c.owner)
            ∷ ("status", info.status)
            ∷ ("version", itoa rls.version)
            ∷ ("key", key)
            ∷ ("type", "index")
            ∷ []));
    }

module _ {api : SecretInterface} (h : HealthyApi api) (codec : Codec) (c : ChunkedSecrets) where
  -- The names of the chunks are free once the chunk secrets of the key are gone.
  abbrev pub Freed : String → api.State → List Chunk → Type 0
  Freed key s [] = Unit
  Freed key s (ch ∷ chunks) =
      (surviving (new_list_chunks_for_key_selector c.owner key) (h.find s ch.name) ≡ none)
      × Freed key s chunks

  Freed-Free :
      (key : String) (s t : api.State) (chunks : List Chunk)
      → ((n : String)
          → h.find t n ≡ surviving (new_list_chunks_for_key_selector c.owner key) (h.find s n))
      → Freed key s chunks
      → Free h t chunks
  Freed-Free key s t [] after freed = tt
  Freed-Free key s t (ch ∷ chunks) after (gone, freed) =
      (after ch.name ∙ gone, Freed-Free key s t chunks after freed)

  pub updated :
      (now : ℕ) (key : String) (rls : Release) (info : Info) (existing : Secret) (first : Chunk)
      (extra : List Chunk) (s t u v : api.State) (y : Secret)
      → rls.info ≡ some info
      → encode_release_as_chunks codec c key rls ≡ ok (first ∷ extra)
      → api.get key s ≡ (ok existing, s)
      → api.delete_collection (new_list_chunks_for_key_selector c.owner existing.name) s
        ≡ (ok tt, t)
      → api.update (updated_index_of codec c now key rls info existing first extra) t ≡ (ok y, u)
      → create_chunks api codec c (λ labels. labels) y extra u ≡ (ok tt, v)
      → update api codec c now key rls s ≡ (ok tt, v)
  unfolding update index_secret_from_chunks new_index_labels
  updated now key rls info existing first extra s t u v y known pieces found gone made done =
      ground (arith, known, pieces, found, gone, made, done)

  -- Against a healthy API, Update of a key with an index secret succeeds, if the names of the new
  -- chunks are distinct, other than the key, and free once the old chunk secrets of the key are
  -- gone; Get of the key then returns the new release with its system labels removed. As for
  -- Create, the release has an Info, the chunk size is positive, MaxReadChunks does not forbid the
  -- number of chunks, and gzip and JSON give back what they encoded.
  pub get-update :
      (now : ℕ) (key : String) (rls : Release) (info : Info) (d : Bytes) (first : Chunk)
      (extra : List Chunk) (existing : Secret) (s : api.State)
      → rls.info ≡ some info
      → 0 < c.config.chunk_size
      → codec.encode (wrap_release rls) ≡ ok d
      → encode_release_as_chunks codec c key rls ≡ ok (first ∷ extra)
      → DecodesBack codec (wrap_release rls)
      → codec.unmarshal_names (codec.marshal_names (names extra)) ≡ ok (names extra)
      → (c.config.max_read_chunks ≡ 0) ⊎ (1 + length extra ≤ c.config.max_read_chunks)
      → h.find s key ≡ some existing
      → existing.name ≡ key
      → lookup "type" existing.labels ≡ some "index"
      → Freed existing.name s extra
      → named key extra ≡ false
      → Distinct extra
      → (t : api.State) × (update api codec c now key rls s ≡ (ok tt, t))
        × (get api codec c key t ≡ (ok (visible rls), t))
  get-update now key rls info d first extra existing s known positive encoded pieces back parsed
        room there same_name kind freed apart distinct =
      let whole =
        (encode_release_as_chunks_lem codec c key rls d (first ∷ extra) positive encoded
          pieces).0 in
      let index : Secret = updated_index_of codec c now key rls info existing first extra in
      let (t, gone, after) = h.deleted (new_list_chunks_for_key_selector c.owner existing.name) s in
      let kept : h.find t key ≡ some existing =
        after key ∙ ap (surviving _) there ∙ index_stays h codec c existing.name existing kind in
      let (y, u, made, same, frame) = h.update_found index existing t kept in
      let (v, done, held, frame') =
        create_chunks_lem h codec c (λ labels. labels) y extra u
          (Free-create h t u extra key (some y) frame apart
            (Freed-Free existing.name s t extra after freed))
          distinct in
      let found : h.find v key ≡ some y =
        frame' key apart ∙ frame key ∙ ground (arith, eq_iff key key) in
      (
        v,
        updated now key rls info existing first extra s t u v y known pieces
            (h.get_found key s existing there) gone made done,
        get_of_stored h codec c key y (visible rls) v found (
            decode_release_lem h codec c y rls d (codec.marshal_names (names extra)) first extra v
              (ap (λ (z : Secret). lookup "chunk" z.payload) same)
              (ap (λ (z : Secret). lookup "extraChunks" z.payload) same) parsed room encoded whole
              back held),
      )
