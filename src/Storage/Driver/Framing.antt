-- ===== src/Storage/Driver/Framing.antt =====
-- What is stored under one key is not changed by a Create under another.
use helm_operator_plugins.Storage.{Secret, SecretInterface, Codec, ChunkedSecrets}
use helm_operator_plugins.Storage.Api.{HealthyApi}
use helm_operator_plugins.Storage.Chunks.{Chunk, encode_release_as_chunks}
use helm_operator_plugins.Storage.Driver.{
  created_at, create, read_extra, read_stream, decode_release, get,
}
use helm_operator_plugins.Storage.Driver.Chunking.{
  named, Distinct, Free, Free-create, create_chunks_lem,
}
use helm_operator_plugins.Storage.Driver.Saving.{index_of, created}
use helm_operator_plugins.Prelude.{
  if◌then◌else◌, Option-cases, All, lookup, ok, err, Result-cases, ℕ, String, ◌≡◌, refl, sym, ap,
  subst, ◌∙◌, inl, inr, false, none, some, List, [], ◌∷◌, arith, ◌==◌,
}
use helm_operator_plugins.Release.{Info, Release}

module _ {api : SecretInterface} (h : HealthyApi api) (codec : Codec) (c : ChunkedSecrets) where
  -- The two states have the same secret under the name.
  abbrev Same : api.State → api.State → String → Type 0
  Same s t n = h.find t n ≡ h.find s n

  get-Same :
      (n : String) (s t : api.State)
      → Same s t n
      → ((api.get n t).0 ≡ (api.get n s).0) × ((api.get n t).1 ≡ t) × ((api.get n s).1 ≡ s)
  get-Same n s t e = elim (Option-cases (h.find s n)) [
    | inl m ↦
        let a = h.get_missing n s m in
        let b = h.get_missing n t (e ∙ m) in
        (ap (λ q. q.0) b ∙ sym (ap (λ q. q.0) a), ap (λ q. q.1) b, ap (λ q. q.1) a)
    | inr (x, f) ↦
        let a = h.get_found n s x f in
        let b = h.get_found n t x (e ∙ f) in
        (ap (λ q. q.0) b ∙ sym (ap (λ q. q.0) a), ap (λ q. q.1) b, ap (λ q. q.1) a)
  ]

  read_extra-Same :
      (ns : List String) (s t : api.State)
      → All (Same s t) ns
      → (read_extra api codec c ns t).0 ≡ (read_extra api codec c ns s).0
  unfolding read_extra
  read_extra-Same [] s t e = refl
  read_extra-Same (n ∷ ns) s t (e, es) =
      let (found, at_t, at_s) = get-Same n s t e in
      ground (arith, found, at_t, at_s, read_extra-Same ns s t es)

  -- The names of the further chunks that an index secret lists.
  abbrev pub listed : Secret → List String
  listed index = elim (lookup "extraChunks" index.payload) [
    | none ↦ []
    | some d ↦ elim (codec.unmarshal_names d) [ err e ↦ [] | ok ns ↦ ns ]
  ]

  decode_release-Same :
      (index : Secret) (s t : api.State)
      → All (Same s t) (listed index)
      → (decode_release api codec c index t).0 ≡ (decode_release api codec c index s).0
  unfolding decode_release read_stream
  decode_release-Same index s t same = elim (Option-cases (lookup "extraChunks" index.payload)) [
    | inl e ↦ ground (arith, e)
    | inr (d, e) ↦ elim (Result-cases (codec.unmarshal_names d)) [
      | inr (x, p) ↦ ground (arith, e, p)
      | inl (ns, p) ↦
          let names_listed : listed index ≡ ns = ground (arith, e, p) in
          let stream = read_extra-Same ns s t (subst (All (Same s t)) names_listed same) in
          ground (arith, e, p, stream)
    ]
  ]

  get-Same_index :
      (key : String) (index : Secret) (s t : api.State)
      → h.find s key ≡ some index
      → Same s t key
      → All (Same s t) (listed index)
      → (get api codec c key t).0 ≡ (get api codec c key s).0
  unfolding get
  get-Same_index key index s t found here same =
      let decoded = decode_release-Same index s t same in
      ground (arith, h.get_found key s index found, h.get_found key t index (here ∙ found), decoded)

  -- A name that the Create of a key with these chunks does not write.
  abbrev pub Untouched : String → List Chunk → String → Type 0
  Untouched key extra n = ((key == n) ≡ false) × (named n extra ≡ false)

  All-map :
      {P Q : String → Type 0} (ns : List String) → ((n : String) → P n → Q n) → All P ns → All Q ns
  All-map [] f a = tt
  All-map (n ∷ ns) f (p, a) = (f n p, All-map ns f a)

  -- Against a healthy API, a Create that succeeds as in get-create leaves what Get of another key
  -- returns, be it a release or an error, if neither the key nor the names of the chunks is the
  -- other key or a name of a chunk that the other index lists.
  pub get-create_other :
      (now : ℕ) (key other_key : String) (rls : Release) (info : Info) (first : Chunk)
      (extra : List Chunk) (index : Secret) (s : api.State)
      → rls.info ≡ some info
      → encode_release_as_chunks codec c key rls ≡ ok (first ∷ extra)
      → h.find s key ≡ none
      → Free h s extra
      → named key extra ≡ false
      → Distinct extra
      → h.find s other_key ≡ some index
      → Untouched key extra other_key
      → All (Untouched key extra) (listed index)
      → (t : api.State) × (create api codec c now key rls s ≡ (ok tt, t))
        × ((get api codec c other_key t).0 ≡ (get api codec c other_key s).0)
  get-create_other now key other_key rls info first extra index s known pieces fresh free apart
        distinct there away aways =
      let (y, t, made, same, frame) =
        h.create_free (index_of codec c now key rls info first extra) s fresh in
      let (u, done, held, frame') =
        create_chunks_lem h codec c (created_at now) y extra t
          (Free-create h s t extra key (some y) frame apart free) distinct in
      let kept : (n : String) → Untouched key extra n → Same s u n =
        λ n (p, q). frame' n q ∙ frame n ∙ ap (λ b. if b then some y else h.find s n) p in
      (
        u,
        created h codec c now key rls info first extra s t u y known pieces made done,
        get-Same_index other_key index s u there (kept other_key away)
            (All-map (listed index) kept aways),
      )
