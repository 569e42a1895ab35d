-- ===== src/Storage/Driver/Store.antt =====
-- The driver as a store of releases: a map from keys to releases, what its operations do to the
-- map and answer, and when the secrets of a state are those of a map.
pub mod Writing
pub mod Erasing
pub mod Changing
pub mod Refining
mod Examples
use helm_operator_plugins.Storage.{
  Bytes, Secret, SecretInterface, wrap_release, Codec, ChunkedSecrets,
}
use helm_operator_plugins.Storage.Api.{HealthyApi, DecodesBack}
use helm_operator_plugins.Storage.Chunks.{Chunk, encode_release_as_chunks}
use helm_operator_plugins.Storage.Driver.{create, update, get, delete}
use helm_operator_plugins.Storage.Driver.Chunking.{names, named, Distinct}
use helm_operator_plugins.Storage.Driver.Saving.{visible}
use helm_operator_plugins.Release.{Info, Release}
use helm_operator_plugins.Prelude.{
  if◌then◌else◌, length, All, Dict, lookup, api, release_not_found, release_exists, wrap, Result,
  ok, err, ℕ, ◌+◌, ◌≤◌, String, ◌≡◌, ◌⊎◌, true, false, Option, none, some, List, [], ◌∷◌, ◌==◌,
}

-- A release as it is kept: its Info, its encoding, and the chunks of this.
pub record Entry : Type 0 where
  pub rls : Release
  pub info : Info
  pub encoded : Bytes
  pub first : Chunk
  pub extra : List Chunk

abbrev pub Store : Type 0
Store = String → Option Entry

abbrev pub put : String → Option Entry → Store → Store
put key o m n = if key == n then o else m n

pub data Op : Type 0 where
  create_op update_op : ℕ → String → Entry → Op
  delete_op get_op : String → Op

abbrev pub key_of : Op → String
key_of (create_op now key e) = key
key_of (update_op now key e) = key
key_of (delete_op key) = key
key_of (get_op key) = key

-- Delete and Get answer with the release as it is shown.
abbrev pub Answer : Type 0
Answer = Result (Option Release)

abbrev pub shown_entry : Entry → Answer
shown_entry e = ok (some (visible e.rls))

abbrev pub spec_answer : Op → Option Entry → Answer
spec_answer (create_op now key e) none = ok none
spec_answer (create_op now key e) (some _) = err release_exists
spec_answer (update_op now key e) none = err (wrap "update" release_not_found)
spec_answer (update_op now key e) (some _) = ok none
spec_answer (delete_op key) none = err release_not_found
spec_answer (delete_op key) (some e) = shown_entry e
spec_answer (get_op key) none = err (wrap "get" release_not_found)
spec_answer (get_op key) (some e) = shown_entry e

abbrev pub spec_entry : Op → Option Entry → Option Entry
spec_entry (create_op now key e) none = some e
spec_entry (create_op now key e) (some old) = some old
spec_entry (update_op now key e) none = none
spec_entry (update_op now key e) (some _) = some e
spec_entry (delete_op key) o = none
spec_entry (get_op key) o = o

abbrev pub spec_step : Op → Store → Answer × Store
spec_step op m = (spec_answer op (m (key_of op)), put (key_of op) (spec_entry op (m (key_of op))) m)

abbrev pub answer_nothing : Result (Unit {0}) → Answer
answer_nothing (ok _) = ok none
answer_nothing (err e) = err e

abbrev pub answer_release : Result Release → Answer
answer_release (ok rls) = ok (some rls)
answer_release (err e) = err e

module _ {api : SecretInterface} (h : HealthyApi api) (codec : Codec) (c : ChunkedSecrets)
    (IsKey : String → Type 0) where
  -- The operations of the driver.
  abbrev pub perform : Op → api.State → Answer × api.State
  perform (create_op now key e) s =
      let (done, t) = create api codec c now key e.rls s in (answer_nothing done, t)
  perform (update_op now key e) s =
      let (done, t) = update api codec c now key e.rls s in (answer_nothing done, t)
  perform (delete_op key) s = let (done, t) = delete api codec c key s in (answer_release done, t)
  perform (get_op key) s = let (done, t) = get api codec c key s in (answer_release done, t)

  -- The release can be kept under the key: its chunks are its encoding, which can be read back, and
  -- their names are distinct and no keys.
  pub record IsStorable (key : String) (e : Entry) : Type 0 where
    pub known : e.rls.info ≡ some e.info
    pub encodes : codec.encode (wrap_release e.rls) ≡ ok e.encoded
    pub pieces : encode_release_as_chunks codec c key e.rls ≡ ok (e.first ∷ e.extra)
    pub back : DecodesBack codec (wrap_release e.rls)
    pub parsed : codec.unmarshal_names (codec.marshal_names (names e.extra)) ≡ ok (names e.extra)
    pub room : (c.config.max_read_chunks ≡ 0) ⊎ (1 + length e.extra ≤ c.config.max_read_chunks)
    pub no_key : (n : String) → IsKey n → named n e.extra ≡ false
    pub distinct : Distinct e.extra

  abbrev pub IsLabelled : String → Dict String → String → Type 0
  IsLabelled kind labels key =
      (lookup "owner" labels ≡ some c.owner)
      × (lookup "key" labels ≡ some key)
      × (lookup "type" labels ≡ some kind)

  abbrev pub StoresChunk : api.State → String → Chunk → Type 0
  StoresChunk s key ch =
      (y : Secret) × (h.find s ch.name ≡ some y)
      × (lookup "chunk" y.payload ≡ some ch.bytes)
      × IsLabelled "chunk" y.labels key

  abbrev pub StoresIndex : api.State → String → Entry → Type 0
  StoresIndex s key e =
      (y : Secret) × (h.find s key ≡ some y)
      × (y.name ≡ key)
      × (lookup "chunk" y.payload ≡ some e.first.bytes)
      × (lookup "extraChunks" y.payload ≡ some (codec.marshal_names (names e.extra)))
      × IsLabelled "index" y.labels key

  abbrev pub Stores : api.State → String → Entry → Type 0
  Stores s key e =
      IsKey key × IsStorable key e × StoresIndex s key e × All (StoresChunk s key) e.extra

  -- The name of a secret that the map accounts for.
  abbrev pub IsUsed : Store → String → Type 0
  IsUsed m n =
      ((e : Entry) × (m n ≡ some e))
      ⊎ ((key : String) × (e : Entry) × (m key ≡ some e) × (named n e.extra ≡ true))

  -- The secrets are those of the releases of the map.
  pub record Represents (s : api.State) (m : Store) : Type 0 where
    pub stored : (key : String) (e : Entry) → m key ≡ some e → Stores s key e
    pub used : (n : String) (y : Secret) → h.find s n ≡ some y → IsUsed m n

  -- The chunks of the release have other names than the chunks of the other releases.
  abbrev pub IsApart : Store → String → Entry → Type 0
  IsApart m key e =
      (other_key n : String) (old : Entry)
      → m other_key ≡ some old
      → (key == other_key) ≡ false
      → named n old.extra ≡ true
      → named n e.extra ≡ false

  -- What is asked of an operation: a key, and for a write a release that can be kept.
  abbrev pub IsAllowed : Op → Store → Type 0
  IsAllowed (create_op now key e) m = IsKey key × IsStorable key e × IsApart m key e
  IsAllowed (update_op now key e) m = IsKey key × IsStorable key e × IsApart m key e
  IsAllowed (delete_op key) m = IsKey key
  IsAllowed (get_op key) m = IsKey key

  abbrev pub AreAllowed : List Op → Store → Type 0
  AreAllowed [] m = Unit
  AreAllowed (op ∷ ops) m = IsAllowed op m × AreAllowed ops (spec_step op m).1

  abbrev pub perform_all : List Op → api.State → List Answer × api.State
  perform_all [] s = ([], s)
  perform_all (op ∷ ops) s =
      let (answer, t) = perform op s in
      let (answers, u) = perform_all ops t in (answer ∷ answers, u)

abbrev pub spec_all : List Op → Store → List Answer × Store
spec_all [] m = ([], m)
spec_all (op ∷ ops) m =
    let (answer, m') = spec_step op m in
    let (answers, m'') = spec_all ops m' in (answer ∷ answers, m'')
