-- ===== src/Storage/Driver/Saving.antt =====
-- What is created can be read back, and what is there is not overwritten.
use helm_operator_plugins.Storage.{
  Bytes, Secret, SecretInterface, wrap_release, Codec, ChunkedSecrets,
}
use helm_operator_plugins.Storage.Api.{HealthyApi, DecodesBack}
use helm_operator_plugins.Storage.Chunks.{
  Chunk, encode_release_as_chunks, secret_type_chunked_index, index_secret_from_chunks,
}
use helm_operator_plugins.Storage.Chunks.Cutting.{joined, encode_release_as_chunks_lem}
use helm_operator_plugins.Storage.Labels.{itoa, new_index_labels, filter_system_labels}
use helm_operator_plugins.Storage.Driver.{
  created_at, create_chunks, create, read_stream, decode_release, get,
}
use helm_operator_plugins.Storage.Driver.Chunking.{
  names, named, length-names, Distinct, Free, Holds, Free-create, create_chunks_lem, read_extra_lem,
}
use helm_operator_plugins.Release.{Info, Release}
use helm_operator_plugins.Prelude.{
  length, lookup, release_exists, ok, err, ℕ, ◌+◌, ◌≤◌, ◌<◌, String, ◌≡◌, ap, ◌⊎◌, false, none,
  some, List, [], ◌∷◌, arith, eq_iff,
}

-- The index secret that `Create` writes.
abbrev pub index_of :
    Codec → ChunkedSecrets → ℕ → String → Release → Info → Chunk → List Chunk → Secret
index_of codec c now key rls info first extra = record {
  type = secret_type_chunked_index;
  name = key;
  uid = "";
  labels = created_at now (
      ("name", rls.name)
      ∷ ("owner", c.owner)
      ∷ ("status", info.status)
      ∷ ("version", itoa rls.version)
      ∷ ("key", key)
      ∷ ("type", "index")
      ∷ []);
  owner_references = [];
  immutable = false;
  payload = ("extraChunks", codec.marshal_names (names extra)) ∷ ("chunk", first.bytes) ∷ [];
}

abbrev pub visible : Release → Release
visible rls = record rls { labels = filter_system_labels rls.labels }

module _ {api : SecretInterface} (h : HealthyApi api) (codec : Codec) (c : ChunkedSecrets) where
  -- The bytes that the pipe delivers for an index with stored chunks.
  read_stream_lem :
      (y : Secret) (first : Chunk) (extra : List Chunk) (t : api.State)
      → lookup "chunk" y.payload ≡ some first.bytes
      → Holds h t extra
      → read_stream api codec c y (names extra) t
        ≡ (record { bytes = joined (first ∷ extra); failure = none }, t)
  unfolding read_stream
  read_stream_lem y first extra t stored held =
      ground (arith, read_extra_lem h codec c extra t held)

  pub decode_release_lem :
      (y : Secret) (rls : Release) (d names_data : Bytes) (first : Chunk) (extra : List Chunk)
      (t : api.State)
      → lookup "chunk" y.payload ≡ some first.bytes
      → lookup "extraChunks" y.payload ≡ some names_data
      → codec.unmarshal_names names_data ≡ ok (names extra)
      → (c.config.max_read_chunks ≡ 0) ⊎ (1 + length extra ≤ c.config.max_read_chunks)
      → codec.encode (wrap_release rls) ≡ ok d
      → joined (first ∷ extra) ≡ d
      → DecodesBack codec (wrap_release rls)
      → Holds h t extra
      → decode_release api codec c y t ≡ (ok (visible rls), t)
  unfolding decode_release wrap_release
  decode_release_lem y rls d names_data first extra t stored listed parsed room encoded whole back
        held =
      let (reader, opened, decoded) = back.decodes d encoded in
      ground
        (arith, read_stream_lem y first extra t stored held, length-names extra, opened, decoded)

  pub created :
      (now : ℕ) (key : String) (rls : Release) (info : Info) (first : Chunk) (extra : List Chunk)
      (s t u : api.State) (y : Secret)
      → rls.info ≡ some info
      → encode_release_as_chunks codec c key rls ≡ ok (first ∷ extra)
      → api.create (index_of codec c now key rls info first extra) s ≡ (ok y, t)
      → create_chunks api codec c (created_at now) y extra t ≡ (ok tt, u)
      → create api codec c now key rls s ≡ (ok tt, u)
  unfolding create index_secret_from_chunks new_index_labels
  created now key rls info first extra s t u y known pieces made done =
      ground (arith, known, pieces, made, done)

  pub get_of_stored :
      (key : String) (y : Secret) (rls : Release) (t : api.State)
      → h.find t key ≡ some y
      → decode_release api codec c y t ≡ (ok rls, t)
      → get api codec c key t ≡ (ok rls, t)
  unfolding get
  get_of_stored key y rls t found decoded = ground (arith, h.get_found key t y found, decoded)

  -- Against a healthy API, Create of a release under a key that is free, whose chunks have names
  -- that are free, distinct and other than the key, succeeds; Get of the key then returns the
  -- release with its system labels removed. The release has an Info, the chunk size is positive,
  -- MaxReadChunks does not forbid the number of chunks, and gzip and JSON give back what they
  -- encoded.
  pub get-create :
      (now : ℕ) (key : String) (rls : Release) (info : Info) (d : Bytes) (first : Chunk)
      (extra : List Chunk) (s : api.State)
      → rls.info ≡ some info
      → 0 < c.config.chunk_size
      → codec.encode (wrap_release rls) ≡ ok d
      → encode_release_as_chunks codec c key rls ≡ ok (first ∷ extra)
      → DecodesBack codec (wrap_release rls)
      → codec.unmarshal_names (codec.marshal_names (names extra)) ≡ ok (names extra)
      → (c.config.max_read_chunks ≡ 0) ⊎ (1 + length extra ≤ c.config.max_read_chunks)
      → h.find s key ≡ none
      → Free h s extra
      → named key extra ≡ false
      → Distinct extra
      → (t : api.State) × (create api codec c now key rls s ≡ (ok tt, t))
        × (get api codec c key t ≡ (ok (visible rls), t))
  get-create now key rls info d first extra s known positive encoded pieces back parsed room fresh
        free apart distinct =
      let whole =
        (encode_release_as_chunks_lem codec c key rls d (first ∷ extra) positive encoded
          pieces).0 in
      let index : Secret = index_of codec c now key rls info first extra in
      let (y, t, made, same, frame) = h.create_free index s fresh in
      let (u, done, held, frame') =
        create_chunks_lem h codec c (created_at now) y extra t
          (Free-create h s t extra key (some y) frame apart free) distinct in
      let found : h.find u key ≡ some y = ground (arith, frame' key, frame key, eq_iff key key) in
      (
        u,
        created now key rls info first extra s t u y known pieces made done,
        get_of_stored key y (visible rls) u found (
            decode_release_lem y rls d (codec.marshal_names (names extra)) first extra u
              (ap (λ (z : Secret). lookup "chunk" z.payload) same)
              (ap (λ (z : Secret). lookup "extraChunks" z.payload) same) parsed room encoded whole
              back held),
      )

  -- Against a healthy API, Create of a key that is taken returns ErrReleaseExists and changes
  -- nothing, for a release with an Info that can be encoded.
  pub create_taken :
      (now : ℕ) (key : String) (rls : Release) (info : Info) (first : Chunk) (extra : List Chunk)
      (s : api.State) (y : Secret)
      → rls.info ≡ some info
      → encode_release_as_chunks codec c key rls ≡ ok (first ∷ extra)
      → h.find s key ≡ some y
      → create api codec c now key rls s ≡ (err release_exists, s)
  unfolding create index_secret_from_chunks new_index_labels
  create_taken now key rls info first extra s y known pieces taken = ground (
    arith,
    known,
    pieces,
    h.create_taken (index_of codec c now key rls info first extra) y s taken,
  )
