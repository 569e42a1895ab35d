-- ===== src/Storage/Driver/Chunking.antt =====
-- The loops of the driver over chunk secrets, against a healthy API: what `Create` and `Update`
-- write there is what the goroutine of `decodeRelease` reads.
use helm_operator_plugins.Storage.{Secret, SecretInterface, Codec, ChunkedSecrets}
use helm_operator_plugins.Storage.Api.{HealthyApi}
use helm_operator_plugins.Storage.Chunks.{Chunk, chunk_secret_from_chunk}
use helm_operator_plugins.Storage.Chunks.Cutting.{joined}
use helm_operator_plugins.Storage.Driver.{create_chunks, read_extra}
use helm_operator_plugins.Prelude.{
  if◌then◌else◌, length, Dict, lookup, ok, suc, String, ◌≡◌, refl, ap, ◌∙◌, Bool, false, ◌||◌,
  Option, none, some, List, [], ◌∷◌, map, arith, ◌==◌, eq_iff,
}

abbrev pub names : List Chunk → List String
names chunks = map (λ (ch : Chunk). ch.name) chunks

abbrev pub named : String → List Chunk → Bool
named n [] = false
named n (ch ∷ chunks) = ch.name == n || named n chunks

pub length-names : (chunks : List Chunk) → length (names chunks) ≡ length chunks
length-names [] = refl
length-names (ch ∷ chunks) = ap suc (length-names chunks)

-- No two chunks share a name.
abbrev pub Distinct : List Chunk → Type 0
Distinct [] = Unit
Distinct (ch ∷ chunks) = (named ch.name chunks ≡ false) × Distinct chunks

module _ {api : SecretInterface} (h : HealthyApi api) where
  -- No secret has the name of a chunk.
  abbrev pub Free : api.State → List Chunk → Type 0
  Free s [] = Unit
  Free s (ch ∷ chunks) = (h.find s ch.name ≡ none) × Free s chunks

  -- Each chunk is stored under its name.
  abbrev pub Holds : api.State → List Chunk → Type 0
  Holds t [] = Unit
  Holds t (ch ∷ chunks) =
      ((y : Secret) × (h.find t ch.name ≡ some y) × (lookup "chunk" y.payload ≡ some ch.bytes))
      × Holds t chunks

  pub Free-create :
      (s t : api.State) (chunks : List Chunk) (n : String) (o : Option Secret)
      → ((m : String) → h.find t m ≡ (if n == m then o else h.find s m))
      → named n chunks ≡ false
      → Free s chunks
      → Free t chunks
  Free-create s t [] n o frame apart free = tt
  Free-create s t (ch ∷ chunks) n o frame apart (here, free) = (
    ground (arith, frame ch.name, eq_iff n ch.name, eq_iff ch.name n),
    Free-create s t chunks n o frame (ground arith) free,
  )

  module _ (codec : Codec) (c : ChunkedSecrets) where
    -- The chunk secrets are written, and all other secrets stay.
    pub create_chunks_lem :
        (stamp : Dict String → Dict String) (index : Secret) (chunks : List Chunk) (s : api.State)
        → Free s chunks
        → Distinct chunks
        → (t : api.State) × (create_chunks api codec c stamp index chunks s ≡ (ok tt, t))
          × Holds t chunks
          × ((n : String) → named n chunks ≡ false → h.find t n ≡ h.find s n)
    unfolding create_chunks chunk_secret_from_chunk
    create_chunks_lem stamp index [] s free apart = (s, refl, tt, λ n e. refl)
    create_chunks_lem stamp index (ch ∷ chunks) s (here, free) (fresh, apart) =
        let x : Secret = chunk_secret_from_chunk c index ch in
        let x' : Secret = record x { labels = stamp x.labels } in
        let (y, t, created, same, frame) = h.create_free x' s here in
        let (u, done, held, frame') =
          create_chunks_lem stamp index chunks t
            (Free-create s t chunks ch.name (some y) frame fresh free) apart in
        (
          u,
          rw created done,
          (
            (
              y,
              frame' ch.name fresh ∙ ground (arith, frame ch.name, eq_iff ch.name ch.name),
              ap (λ (z : Secret). lookup "chunk" z.payload) same,
            ),
            held,
          ),
          λ n e. ground (arith, frame' n, frame n),
        )

    pub read_extra_lem :
        (chunks : List Chunk) (t : api.State)
        → Holds t chunks
        → read_extra api codec c (names chunks) t
          ≡ (record { bytes = joined chunks; failure = none }, t)
    unfolding read_extra
    read_extra_lem [] t held = refl
    read_extra_lem (ch ∷ chunks) t ((y, found, stored), held) =
        ground (arith, h.get_found ch.name t y found, read_extra_lem chunks t held)
