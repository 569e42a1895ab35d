-- ===== src/Storage/Driver/Store/Refining.antt =====
-- The driver does what the map of releases does, operation by operation.
use helm_operator_plugins.Storage.{SecretInterface, Codec, ChunkedSecrets}
use helm_operator_plugins.Storage.Api.{surviving, HealthyApi}
use helm_operator_plugins.Storage.Chunks.{Chunk}
use helm_operator_plugins.Storage.Chunks.Cutting.{encode_release_as_chunks_lem}
use helm_operator_plugins.Storage.Labels.{new_list_all_for_key_selector}
use helm_operator_plugins.Storage.Driver.{decode_release}
use helm_operator_plugins.Storage.Driver.Chunking.{names, Holds}
use helm_operator_plugins.Storage.Driver.Saving.{
  visible, decode_release_lem, get_of_stored, create_taken,
}
use helm_operator_plugins.Storage.Driver.Reading.{
  get_missing_lem, delete_missing_lem, update_missing_lem, owned_index_goes, get-delete,
}
use helm_operator_plugins.Storage.Driver.Store.{
  Entry, Store, put, Op, create_op, update_op, delete_op, get_op, key_of, spec_entry, spec_step,
  perform, StoresChunk, Stores, Represents, IsAllowed, AreAllowed, perform_all, spec_all,
}
use helm_operator_plugins.Storage.Driver.Store.Writing.{Represents-same}
use helm_operator_plugins.Storage.Driver.Store.Erasing.{
  all_for_key-Erases, erased-RepresentsOthers, gone-Represents,
}
use helm_operator_plugins.Storage.Driver.Store.Changing.{
  key_free, Follows, create-Follows, update-Follows,
}
use helm_operator_plugins.Prelude.{
  if◌then◌else◌, Bool-cases, Option-cases, All, ok, ◌<◌, String, ◌≡◌, refl, sym, ap, subst, ◌∙◌,
  inl, inr, Option, none, some, List, [], ◌∷◌, arith, ◌==◌, eq_iff,
}

module _ {api : SecretInterface} (h : HealthyApi api) (codec : Codec) (c : ChunkedSecrets)
    (IsKey : String → Type 0) where
  put_same : (m : Store) (key n : String) → put key (m key) m n ≡ m n
  put_same m key n = elim (Bool-cases (key == n)) [
    | inr q ↦ ground (arith, q)
    | inl q ↦
        let same : key ≡ n = ground (arith, q, eq_iff key n) in
        ap (λ b. if b then m key else m n) q ∙ ap m same
  ]

  -- An operation that changes nothing.
  kept-Follows :
      (op : Op) (s : api.State) (m : Store)
      → Represents h codec c IsKey s m
      → spec_entry op (m (key_of op)) ≡ m (key_of op)
      → perform h codec c IsKey op s ≡ ((spec_step op m).0, s)
      → Follows h codec c IsKey op s m
  kept-Follows op s m old same done = (
    s,
    done,
    Represents-same h codec c IsKey s m (spec_step op m).1
        (λ n. ap (λ o. put (key_of op) o m n) same ∙ put_same m (key_of op) n) old,
  )

  All-Holds :
      (s : api.State) (key : String) (part : List Chunk)
      → All (StoresChunk h codec c IsKey s key) part
      → Holds h s part
  All-Holds s key [] held = tt
  All-Holds s key (ch ∷ part) ((y, found, bytes, _), held) =
      ((y, found, bytes), All-Holds s key part held)

  decode_stored :
      (s : api.State) (key : String) (e : Entry)
      → 0 < c.config.chunk_size
      → (stored : Stores h codec c IsKey s key e)
      → decode_release api codec c stored.2.0 s ≡ (ok (visible e.rls), s)
  decode_stored s key e positive (is_key, sound, index, held) =
      let whole =
        (encode_release_as_chunks_lem codec c key e.rls e.encoded (e.first ∷ e.extra) positive
          sound.encodes sound.pieces).0 in
      decode_release_lem h codec c index.0 e.rls e.encoded (codec.marshal_names (names e.extra))
        e.first e.extra s index.3 index.4 sound.parsed sound.room sound.encodes whole sound.back
        (All-Holds s key e.extra held)

  at_key :
      (op : Op) (t : api.State) (m : Store) (o : Option Entry)
      → m (key_of op) ≡ o
      → Represents h codec c IsKey t (put (key_of op) (spec_entry op o) m)
      → Represents h codec c IsKey t (spec_step op m).1
  at_key op t m o at_o last =
      subst (λ x. Represents h codec c IsKey t (put (key_of op) (spec_entry op x) m)) (sym at_o)
        last

  perform-Follows :
      (op : Op) (s : api.State) (m : Store)
      → 0 < c.config.chunk_size
      → Represents h codec c IsKey s m
      → IsAllowed h codec c IsKey op m
      → Follows h codec c IsKey op s m
  perform-Follows (create_op now key e) s m positive old allowed = elim (Option-cases (m key)) [
    | inl absent ↦
        let (t, done, last) = create-Follows h codec c IsKey now key e s m old allowed absent in
        (t, ground (arith, absent, done), at_key (create_op now key e) t m none absent last)
    | inr (before, there) ↦
        let stored = old.stored key before there in
        let taken =
          create_taken h codec c now key e.rls e.info e.first e.extra s stored.2.0 allowed.1.known
            allowed.1.pieces stored.2.1 in
        kept-Follows (create_op now key e) s m old (ground (arith, there))
          (ground (arith, there, taken))
  ]
  perform-Follows (update_op now key e) s m positive old allowed = elim (Option-cases (m key)) [
    | inl absent ↦
        let gone = key_free h codec c IsKey s m key old allowed.0 absent in
        let missing = update_missing_lem h codec c now key e.rls s gone in
        kept-Follows (update_op now key e) s m old (ground (arith, absent))
          (ground (arith, absent, missing))
    | inr (before, there) ↦
        let (t, done, last) =
          update-Follows h codec c IsKey now key e before s m old allowed there in
        (t, ground (arith, there, done), at_key (update_op now key e) t m (some before) there last)
  ]
  perform-Follows (delete_op key) s m positive old allowed = elim (Option-cases (m key)) [
    | inl absent ↦
        let gone = key_free h codec c IsKey s m key old allowed absent in
        let missing = delete_missing_lem h codec c key s gone in
        kept-Follows (delete_op key) s m old (sym absent) (ground (arith, absent, missing))
    | inr (e, there) ↦
        let stored = old.stored key e there in
        let (t, _, done, _, after) =
          get-delete h codec c key stored.2.0 (visible e.rls) s stored.2.1
            (stored.2.5.0, stored.2.5.1) (decode_stored s key e positive stored) in
        let erases = all_for_key-Erases h codec c IsKey key in
        let others =
          erased-RepresentsOthers h codec c IsKey s t m key
            (new_list_all_for_key_selector c.owner key) erases old after in
        let gone : h.find t key ≡ none =
          after key
          ∙ ap (surviving (new_list_all_for_key_selector c.owner key)) stored.2.1
          ∙ owned_index_goes h codec c key stored.2.0 (stored.2.5.0, stored.2.5.1) in
        (t, ground (arith, there, done), gone-Represents h codec c IsKey t m key others gone)
  ]
  perform-Follows (get_op key) s m positive old is_key = elim (Option-cases (m key)) [
    | inl absent ↦
        let gone = key_free h codec c IsKey s m key old is_key absent in
        let missing = get_missing_lem h codec c key s gone in
        kept-Follows (get_op key) s m old refl (ground (arith, absent, missing))
    | inr (e, there) ↦
        let stored = old.stored key e there in
        let found =
          get_of_stored h codec c key stored.2.0 (visible e.rls) s stored.2.1
            (decode_stored s key e positive stored) in
        kept-Follows (get_op key) s m old refl (ground (arith, there, found))
  ]

-- Against a healthy API and with a positive chunk size, the driver refines the map of releases: if
-- the secrets are those of a map, and each operation of a sequence is on a key, its writes being of
-- releases that can be kept there, with chunks whose names are no keys and no names of chunks of
-- other keys, then the answers of the driver, errors included, are those of the map, one after the
-- other, and the secrets afterwards are those of the map afterwards.
pub perform_all-refines :
    {api : SecretInterface} (h : HealthyApi api) (codec : Codec) (c : ChunkedSecrets)
    (IsKey : String → Type 0) (ops : List Op) (s : api.State) (m : Store)
    → 0 < c.config.chunk_size
    → Represents h codec c IsKey s m
    → AreAllowed h codec c IsKey ops m
    → let (answers, t) = perform_all h codec c IsKey ops s in
      let (spec_answers, m') = spec_all ops m in
      (answers ≡ spec_answers) × Represents h codec c IsKey t m'
perform_all-refines h codec c IsKey [] s m positive old allowed = (refl, old)
perform_all-refines h codec c IsKey (op ∷ ops) s m positive old (now, later) =
    let (t, done, last) = perform-Follows h codec c IsKey op s m positive old now in
    let m' = (spec_step op m).1 in
    let answer = (spec_step op m).0 in
    let rest = perform_all-refines h codec c IsKey ops t m' positive last later in
    let first : (perform h codec c IsKey op s).1 ≡ t = ap (λ q. q.1) done in
    (
      ap (λ q. q.0 ∷ (perform_all h codec c IsKey ops q.1).0) done
          ∙ ap (λ more. answer ∷ more) rest.0,
      subst
          (λ u.
            Represents h codec c IsKey (perform_all h codec c IsKey ops u).1 (spec_all ops m').1)
          (sym first) rest.1,
    )
