-- ===== src/Storage/Driver/Store/Writing.antt =====
-- What a write under one key makes of the secrets, where those of the other keys are in order.
use helm_operator_plugins.Storage.{Secret, SecretInterface, Codec, ChunkedSecrets}
use helm_operator_plugins.Storage.Api.{HealthyApi}
use helm_operator_plugins.Storage.Chunks.{Chunk, chunk_secret_from_chunk}
use helm_operator_plugins.Storage.Labels.{new_chunk_labels}
use helm_operator_plugins.Storage.Driver.{create_chunks}
use helm_operator_plugins.Storage.Driver.Chunking.{named, Distinct, Free, Free-create}
use helm_operator_plugins.Storage.Driver.Saving.{created}
use helm_operator_plugins.Storage.Driver.Store.{
  Entry, Store, put, IsStorable, IsLabelled, StoresChunk, Stores, Represents, IsApart,
}
use helm_operator_plugins.Prelude.{
  Bool-cases, Option-cases, true-false, some-none, All, Dict, lookup, ok, String, ◌≡◌, refl, sym,
  ap, subst, ◌∙◌, ◌⊎◌, inl, inr, true, false, none, some, List, [], ◌∷◌, arith, ◌==◌, eq_iff,
}

module _ {api : SecretInterface} (h : HealthyApi api) (codec : Codec) (c : ChunkedSecrets)
    (IsKey : String → Type 0) where
  -- The name of a secret of another key.
  abbrev pub IsOthers : Store → String → String → Type 0
  IsOthers m key n =
      (other_key : String) × (e : Entry) × (m other_key ≡ some e)
      × ((key == other_key) ≡ false)
      × ((n ≡ other_key) ⊎ (named n e.extra ≡ true))

  -- All keys but one are stored, and there are no other secrets but that of the key.
  pub record RepresentsOthers (s : api.State) (m : Store) (key : String) : Type 0 where
    pub stored :
        (other_key : String) (e : Entry)
        → m other_key ≡ some e
        → (key == other_key) ≡ false
        → Stores h codec c IsKey s other_key e
    pub used :
        (n : String) (y : Secret) → h.find s n ≡ some y → ((key == n) ≡ true) ⊎ IsOthers m key n

  pub Represents-same :
      (s : api.State) (m m' : Store)
      → ((n : String) → m' n ≡ m n)
      → Represents h codec c IsKey s m
      → Represents h codec c IsKey s m'
  Represents-same s m m' same old = record {
    stored = λ key e p. old.stored key e (sym (same key) ∙ p);
    used = λ n y f. elim (old.used n y f) [
      | inl (e, p) ↦ inl (e, same n ∙ p)
      | inr (key, e, p, q) ↦ inr (key, e, same key ∙ p, q)
    ];
  }

  pub absent-RepresentsOthers :
      (s : api.State) (m : Store) (key : String)
      → m key ≡ none
      → Represents h codec c IsKey s m
      → RepresentsOthers s m key
  absent-RepresentsOthers s m key absent old = record {
    stored = λ other_key e p _. old.stored other_key e p;
    used = λ n y f. elim (old.used n y f) [
      | inl (e, p) ↦ elim (Bool-cases (key == n)) [
        | inl q ↦ inl q
        | inr q ↦ inr (n, e, p, q, inl refl)
      ]
      | inr (k, e, p, q) ↦ elim (Bool-cases (key == k)) [
        | inl r ↦
            let same : key ≡ k = ground (arith, r, eq_iff key k) in
            absurd (some-none (sym p ∙ ap m (sym same) ∙ absent))
        | inr r ↦ inr (k, e, p, r, inr q)
      ]
    ];
  }

  -- The name of a chunk that is to be written is free.
  name_free :
      (s : api.State) (m : Store) (key n : String) (e : Entry)
      → IsKey key
      → IsStorable h codec c IsKey key e
      → IsApart h codec c IsKey m key e
      → RepresentsOthers s m key
      → named n e.extra ≡ true
      → h.find s n ≡ none
  name_free s m key n e is_key sound apart others mine = elim (Option-cases (h.find s n)) [
    | inl free ↦ free
    | inr (y, f) ↦ elim (others.used n y f) [
      | inl q ↦
          let same : key ≡ n = ground (arith, q, eq_iff key n) in
          absurd (true-false (sym mine ∙ sound.no_key n (subst IsKey same is_key)))
      | inr (k, old, p, q, inl same) ↦
          let (k_is_key, _, _, _) = others.stored k old p q in
          absurd (true-false (sym mine ∙ sound.no_key n (subst IsKey (sym same) k_is_key)))
      | inr (k, old, p, q, inr theirs) ↦ absurd (true-false (sym mine ∙ apart k n old p q theirs))
    ]
  ]

  part-Free :
      (s : api.State) (part : List Chunk)
      → ((n : String) → named n part ≡ true → h.find s n ≡ none)
      → Free h s part
  part-Free s [] free = tt
  part-Free s (ch ∷ part) free = (
    free ch.name (ground (arith, eq_iff ch.name ch.name)),
    part-Free s part (λ n e. free n (ground (arith, e))),
  )

  pub chunks-Free :
      (s : api.State) (m : Store) (key : String) (e : Entry)
      → IsKey key
      → IsStorable h codec c IsKey key e
      → IsApart h codec c IsKey m key e
      → RepresentsOthers s m key
      → Free h s e.extra
  chunks-Free s m key e is_key sound apart others =
      part-Free s e.extra (λ n mine. name_free s m key n e is_key sound apart others mine)

  pub chunks_stay :
      (s t : api.State) (key : String) (part : List Chunk)
      → ((n : String) (y : Secret)
          → named n part ≡ true
          → h.find s n ≡ some y
          → IsLabelled h codec c IsKey "chunk" y.labels key
          → h.find t n ≡ some y)
      → All (StoresChunk h codec c IsKey s key) part
      → All (StoresChunk h codec c IsKey t key) part
  chunks_stay s t key [] stay held = tt
  chunks_stay s t key (ch ∷ part) stay ((y, found, bytes, labels), held) = (
    (y, stay ch.name y (ground (arith, eq_iff ch.name ch.name)) found labels, bytes, labels),
    chunks_stay s t key part (λ n z e. stay n z (ground (arith, e))) held,
  )

  pub create_chunks-StoresChunk :
      (stamp : Dict String → Dict String) (index : Secret) (chunks : List Chunk) (s : api.State)
      → IsLabelled h codec c IsKey "chunk" (stamp (new_chunk_labels c.owner index.name)) index.name
      → Free h s chunks
      → Distinct chunks
      → (t : api.State) × (create_chunks api codec c stamp index chunks s ≡ (ok tt, t))
        × All (StoresChunk h codec c IsKey t index.name) chunks
        × ((n : String) → named n chunks ≡ false → h.find t n ≡ h.find s n)
  unfolding create_chunks chunk_secret_from_chunk
  create_chunks-StoresChunk stamp index [] s labelled free apart = (s, refl, tt, λ n e. refl)
  create_chunks-StoresChunk stamp index (ch ∷ chunks) s labelled (here, free) (fresh, apart) =
      let x : Secret = chunk_secret_from_chunk c index ch in
      let x' : Secret = record x { labels = stamp x.labels } in
      let (y, t, created, same, frame) = h.create_free x' s here in
      let (u, done, held, frame') =
        create_chunks-StoresChunk stamp index chunks t labelled
          (Free-create h s t chunks ch.name (some y) frame fresh free) apart in
      (
        u,
        rw created done,
        (
          (
            y,
            frame' ch.name fresh ∙ ground (arith, frame ch.name, eq_iff ch.name ch.name),
            ap (λ (z : Secret). lookup "chunk" z.payload) same,
            subst (λ (z : Secret). IsLabelled h codec c IsKey "chunk" z.labels index.name)
                (sym same) labelled,
          ),
          held,
        ),
        λ n e. ground (arith, frame' n, frame n),
      )

  not_key :
      (key n : String) (e : Entry) (k : String)
      → IsKey key
      → IsStorable h codec c IsKey k e
      → named n e.extra ≡ true
      → (key == n) ≡ false
  not_key key n e k is_key sound mine = elim (Bool-cases (key == n)) [
    | inr q ↦ q
    | inl q ↦
        let same : key ≡ n = ground (arith, q, eq_iff key n) in
        absurd (true-false (sym mine ∙ sound.no_key n (subst IsKey same is_key)))
  ]

  -- The secrets after a write, which leaves those of the other keys.
  pub written-Represents :
      (s t : api.State) (m : Store) (key : String) (e : Entry)
      → RepresentsOthers s m key
      → IsApart h codec c IsKey m key e
      → Stores h codec c IsKey t key e
      → ((n : String) → (key == n) ≡ false → named n e.extra ≡ false → h.find t n ≡ h.find s n)
      → Represents h codec c IsKey t (put key (some e) m)
  written-Represents s t m key e others apart mine frame = record {
    stored = λ k old p. elim (Bool-cases (key == k)) [
      | inl q ↦
          let same : key ≡ k = ground (arith, q, eq_iff key k) in
          let same' : e ≡ old = ground (arith, q, p) in
          subst (λ z. Stores h codec c IsKey t z old) same
            (subst (Stores h codec c IsKey t key) same' mine)
      | inr q ↦
          let at_k : m k ≡ some old = ground (arith, q, p) in
          let (k_is_key, sound, index, held) = others.stored k old at_k q in
          let still = frame k q (mine.1.no_key k k_is_key) ∙ index.1 in
          (
            k_is_key,
            sound,
            (index.0, still, index.2, index.3, index.4, index.5),
            chunks_stay s t k old.extra
                (λ n z named_there here _.
                  let no : (key == n) ≡ false = not_key key n old k mine.0 sound named_there in
                  frame n no (apart k n old at_k q named_there) ∙ here)
                held,
          )
    ];
    used = λ n y f. elim (Bool-cases (key == n)) [
      | inl q ↦ inl (e, ground (arith, q))
      | inr q ↦ elim (Bool-cases (named n e.extra)) [
        | inl r ↦ inr (key, e, ground (arith, eq_iff key key), r)
        | inr r ↦ elim (others.used n y (sym (frame n q r) ∙ f)) [
          | inl q' ↦ absurd (true-false (sym q' ∙ q))
          | inr (k, old, p, q', inl same) ↦
              inl (
                old,
                subst (λ z. put key (some e) m z ≡ some old) (sym same) (ground (arith, q', p)),
              )
          | inr (k, old, p, q', inr theirs) ↦ inr (k, old, ground (arith, q', p), theirs)
        ]
      ]
    ];
  }
