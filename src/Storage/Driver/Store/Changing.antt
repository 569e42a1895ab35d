-- ===== src/Storage/Driver/Store/Changing.antt =====
-- Create and Update against the secrets of a map of releases.
use helm_operator_plugins.Storage.{Secret, SecretInterface, Codec, ChunkedSecrets}
use helm_operator_plugins.Storage.Api.{surviving, HealthyApi}
use helm_operator_plugins.Storage.Labels.{new_chunk_labels, new_list_chunks_for_key_selector}
use helm_operator_plugins.Storage.Driver.{created_at, create_chunks, create, update}
use helm_operator_plugins.Storage.Driver.Chunking.{names, Free-create}
use helm_operator_plugins.Storage.Driver.Saving.{index_of, created}
use helm_operator_plugins.Storage.Driver.Reading.{index_stays}
use helm_operator_plugins.Storage.Driver.Updating.{updated_index_of, updated}
use helm_operator_plugins.Storage.Driver.Store.{
  Entry, Store, put, Op, create_op, update_op, spec_step, perform, IsStorable, IsLabelled,
  StoresChunk, Represents, IsApart, IsAllowed,
}
use helm_operator_plugins.Storage.Driver.Store.Writing.{
  RepresentsOthers, absent-RepresentsOthers, chunks-Free, create_chunks-StoresChunk,
  written-Represents,
}
use helm_operator_plugins.Storage.Driver.Store.Erasing.{
  Erases, chunks_for_key-Erases, erased-RepresentsOthers,
}
use helm_operator_plugins.Prelude.{
  if◌then◌else◌, Option-cases, true-false, some-none, All, Dict, lookup, ok, ℕ, String, ◌≡◌, refl,
  sym, ap, subst, ◌∙◌, inl, inr, none, some, arith, ◌==◌, eq_iff,
}

module _ {api : SecretInterface} (h : HealthyApi api) (codec : Codec) (c : ChunkedSecrets)
    (IsKey : String → Type 0) where
  pub key_free :
      (s : api.State) (m : Store) (key : String)
      → Represents h codec c IsKey s m
      → IsKey key
      → m key ≡ none
      → h.find s key ≡ none
  key_free s m key old is_key absent = elim (Option-cases (h.find s key)) [
    | inl free ↦ free
    | inr (y, f) ↦ elim (old.used key y f) [
      | inl (e, p) ↦ absurd (some-none (sym p ∙ absent))
      | inr (k, e, p, q) ↦ absurd (true-false (sym q ∙ (old.stored k e p).1.no_key key is_key))
    ]
  ]

  -- The chunk secrets of Create, with the time among their labels, and those of Update.
  stamped_chunk :
      (now : ℕ) (key : String)
      → IsLabelled h codec c IsKey "chunk" (created_at now (new_chunk_labels c.owner key)) key
  unfolding new_chunk_labels
  stamped_chunk now key = (refl, refl, refl)

  plain_chunk :
      (key : String) → IsLabelled h codec c IsKey "chunk" (new_chunk_labels c.owner key) key
  unfolding new_chunk_labels
  plain_chunk key = (refl, refl, refl)

  -- The operation answers as the map does, and what it leaves are the secrets of the new map.
  abbrev pub Follows : Op → api.State → Store → Type 0
  Follows op s m =
      (t : api.State) × (perform h codec c IsKey op s ≡ ((spec_step op m).0, t))
      × Represents h codec c IsKey t (spec_step op m).1

  -- A write that has stored the index secret and goes on with the chunks.
  write_chunks :
      (s t : api.State) (m : Store) (key : String) (e : Entry) (y : Secret)
      (stamp : Dict String → Dict String)
      → IsKey key
      → IsStorable h codec c IsKey key e
      → IsApart h codec c IsKey m key e
      → RepresentsOthers h codec c IsKey s m key
      → ((n : String) → h.find t n ≡ (if key == n then some y else h.find s n))
      → y.name ≡ key
      → lookup "chunk" y.payload ≡ some e.first.bytes
      → lookup "extraChunks" y.payload ≡ some (codec.marshal_names (names e.extra))
      → IsLabelled h codec c IsKey "index" y.labels key
      → ((k : String) → IsLabelled h codec c IsKey "chunk" (stamp (new_chunk_labels c.owner k)) k)
      → (u : api.State) × (create_chunks api codec c stamp y e.extra t ≡ (ok tt, u))
        × Represents h codec c IsKey u (put key (some e) m)
  write_chunks s t m key e y stamp is_key sound apart others frame same_name bytes listed labels
        labelled =
      let no_key = sound.no_key key is_key in
      let free =
        Free-create h s t e.extra key (some y) frame no_key
          (chunks-Free h codec c IsKey s m key e is_key sound apart others) in
      let (u, done, held, frame') =
        create_chunks-StoresChunk h codec c IsKey stamp y e.extra t (labelled y.name) free
          sound.distinct in
      let held' = subst (λ k. All (StoresChunk h codec c IsKey u k) e.extra) same_name held in
      let found : h.find u key ≡ some y =
        frame' key no_key ∙ frame key ∙ ground (arith, eq_iff key key) in
      (
        u,
        done,
        written-Represents h codec c IsKey s u m key e others apart
            (is_key, sound, (y, found, same_name, bytes, listed, labels), held')
            (λ n q r. frame' n r ∙ frame n ∙ ap (λ b. if b then some y else h.find s n) q),
      )

  pub create-Follows :
      (now : ℕ) (key : String) (e : Entry) (s : api.State) (m : Store)
      → Represents h codec c IsKey s m
      → IsAllowed h codec c IsKey (create_op now key e) m
      → m key ≡ none
      → (t : api.State) × (create api codec c now key e.rls s ≡ (ok tt, t))
        × Represents h codec c IsKey t (put key (some e) m)
  create-Follows now key e s m old (is_key, sound, apart) absent =
      let index : Secret = index_of codec c now key e.rls e.info e.first e.extra in
      let fresh = key_free s m key old is_key absent in
      let (y, t, made, same, frame) = h.create_free index s fresh in
      let labels =
        subst (λ (z : Secret). IsLabelled h codec c IsKey "index" z.labels key) (sym same)
          (refl, refl, refl) in
      let (u, done, last) =
        write_chunks s t m key e y (created_at now) is_key sound apart
          (absent-RepresentsOthers h codec c IsKey s m key absent old) frame
          (ap (λ (z : Secret). z.name) same) (ap (λ (z : Secret). lookup "chunk" z.payload) same)
          (ap (λ (z : Secret). lookup "extraChunks" z.payload) same) labels (stamped_chunk now) in
      (
        u,
        created h codec c now key e.rls e.info e.first e.extra s t u y sound.known sound.pieces made
            done,
        last,
      )

  pub update-Follows :
      (now : ℕ) (key : String) (e before : Entry) (s : api.State) (m : Store)
      → Represents h codec c IsKey s m
      → IsAllowed h codec c IsKey (update_op now key e) m
      → m key ≡ some before
      → (t : api.State) × (update api codec c now key e.rls s ≡ (ok tt, t))
        × Represents h codec c IsKey t (put key (some e) m)
  update-Follows now key e before s m old (is_key, sound, apart) there =
      let (_, _, index, _) = old.stored key before there in
      let existing = index.0 in
      let sel = new_list_chunks_for_key_selector c.owner existing.name in
      let (t, gone, after) = h.deleted sel s in
      let erases =
        subst (λ k. Erases h codec c IsKey (new_list_chunks_for_key_selector c.owner k) key)
          (sym index.2) (chunks_for_key-Erases h codec c IsKey key) in
      let others = erased-RepresentsOthers h codec c IsKey s t m key sel erases old after in
      let kept : h.find t key ≡ some existing =
        after key
        ∙ ap (surviving sel) index.1
        ∙ index_stays h codec c existing.name existing index.5.2 in
      let written : Secret =
        updated_index_of codec c now key e.rls e.info existing e.first e.extra in
      let (y, u, made, same, frame) = h.update_found written existing t kept in
      let labels =
        subst (λ (z : Secret). IsLabelled h codec c IsKey "index" z.labels key) (sym same)
          (refl, refl, refl) in
      let (w, done, last) =
        write_chunks t u m key e y (λ labels. labels) is_key sound apart others frame
          (ap (λ (z : Secret). z.name) same) (ap (λ (z : Secret). lookup "chunk" z.payload) same)
          (ap (λ (z : Secret). lookup "extraChunks" z.payload) same) labels plain_chunk in
      (
        w,
        updated h codec c now key e.rls e.info existing e.first e.extra s t u w y sound.known
            sound.pieces (h.get_found key s existing index.1) gone made done,
        last,
      )
