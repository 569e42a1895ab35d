-- ===== src/Storage/Driver/Reading.antt =====
-- Missing releases, deletion, and what a query returns.
use helm_operator_plugins.Storage.{Secret, SecretInterface, Codec, ChunkedSecrets}
use helm_operator_plugins.Storage.Api.{surviving, HealthyApi}
use helm_operator_plugins.Storage.Chunks.{encode_release_as_chunks}
use helm_operator_plugins.Storage.Labels.{
  new_chunk_labels, new_list_indices_label_selector, new_list_all_for_key_selector,
  new_list_chunks_for_key_selector, is_system_label,
}
use helm_operator_plugins.Storage.Driver.{
  update, decode_release, get, delete, own_query, query_loop, or_not_found, query,
}
use helm_operator_plugins.Release.{Release}
use helm_operator_plugins.Exec.{continue}
use helm_operator_plugins.Prelude.{
  All, keep, Dict, lookup, Error, release_not_found, wrap, Result, ok, err, Result-cases, ℕ, String,
  ◌≡◌, ap, ◌∙◌, ◌≢◌, inl, inr, true, not, none, some, List, [], ◌∷◌, ◌++◌, arith, eq_iff,
}

module _ {api : SecretInterface} (h : HealthyApi api) (codec : Codec) (c : ChunkedSecrets) where
  pub get_missing_lem :
      (key : String) (s : api.State)
      → h.find s key ≡ none
      → get api codec c key s ≡ (err (wrap "get" release_not_found), s)
  unfolding get
  get_missing_lem key s missing = ground (arith, h.get_missing key s missing)

  pub delete_missing_lem :
      (key : String) (s : api.State)
      → h.find s key ≡ none
      → delete api codec c key s ≡ (err release_not_found, s)
  unfolding delete
  delete_missing_lem key s missing = ground (arith, h.get_missing key s missing)

  pub update_missing_lem :
      (now : ℕ) (key : String) (rls : Release) (s : api.State)
      → h.find s key ≡ none
      → update api codec c now key rls s ≡ (err (wrap "update" release_not_found), s)
  unfolding update
  update_missing_lem now key rls s missing = ground (arith, h.get_missing key s missing)

  -- Against a healthy API, Get, Update and Delete of a key that no secret has fail with an error
  -- that is ErrReleaseNotFound and change nothing.
  pub missing_key :
      (now : ℕ) (key : String) (rls : Release) (s : api.State)
      → h.find s key ≡ none
      → (get api codec c key s ≡ (err (wrap "get" release_not_found), s))
        × (update api codec c now key rls s ≡ (err (wrap "update" release_not_found), s))
        × (delete api codec c key s ≡ (err release_not_found, s))
  missing_key now key rls s missing = (
    get_missing_lem key s missing,
    update_missing_lem now key rls s missing,
    delete_missing_lem key s missing,
  )

  -- The index of a key carries the labels by which Delete selects.
  abbrev pub IsOwned : Secret → String → Type 0
  IsOwned index key =
      (lookup "owner" index.labels ≡ some c.owner) × (lookup "key" index.labels ≡ some key)

  delete_found :
      (key : String) (index : Secret) (rls : Release) (s t : api.State)
      → h.find s key ≡ some index
      → decode_release api codec c index s ≡ (ok rls, s)
      → api.delete_collection (new_list_all_for_key_selector c.owner key) s ≡ (ok tt, t)
      → delete api codec c key s ≡ (ok rls, t)
  unfolding delete
  delete_found key index rls s t found decoded gone =
      ground (arith, h.get_found key s index found, decoded, gone)

  get_found_lem :
      (key : String) (index : Secret) (rls : Release) (s : api.State)
      → h.find s key ≡ some index
      → decode_release api codec c index s ≡ (ok rls, s)
      → get api codec c key s ≡ (ok rls, s)
  unfolding get
  get_found_lem key index rls s found decoded =
      ground (arith, h.get_found key s index found, decoded)

  pub owned_index_goes :
      (key : String) (index : Secret)
      → IsOwned index key
      → surviving (new_list_all_for_key_selector c.owner key) (some index) ≡ none
  unfolding new_list_all_for_key_selector
  owned_index_goes key index (owner, keyed) =
      ground (arith, owner, keyed, eq_iff c.owner c.owner, eq_iff key key)

  pub index_stays :
      (key : String) (index : Secret)
      → lookup "type" index.labels ≡ some "index"
      → surviving (new_list_chunks_for_key_selector c.owner key) (some index) ≡ some index
  unfolding new_list_chunks_for_key_selector
  index_stays key index kind = ground (arith, kind)

  chunks_go :
      (k key : String) (y : Secret)
      → k ≡ key
      → y.labels ≡ new_chunk_labels c.owner key
      → surviving (new_list_chunks_for_key_selector c.owner k) (some y) ≡ none
  unfolding new_list_chunks_for_key_selector new_chunk_labels
  chunks_go k key y same labelled =
      rw labelled (ground (arith, eq_iff c.owner c.owner, eq_iff key k))

  -- Against a healthy API, Delete of a release that Get can read returns that release, and removes
  -- exactly the secrets with the labels of the owner and the key; if the index has those labels,
  -- Get of the key then reports ErrReleaseNotFound.
  pub get-delete :
      (key : String) (index : Secret) (rls : Release) (s : api.State)
      → h.find s key ≡ some index
      → IsOwned index key
      → decode_release api codec c index s ≡ (ok rls, s)
      → (t : api.State) × (get api codec c key s ≡ (ok rls, s))
        × (delete api codec c key s ≡ (ok rls, t))
        × (get api codec c key t ≡ (err (wrap "get" release_not_found), t))
        × ((n : String)
            → h.find t n ≡ surviving (new_list_all_for_key_selector c.owner key) (h.find s n))
  get-delete key index rls s found (owner, keyed) decoded =
      let (t, gone, after) = h.deleted (new_list_all_for_key_selector c.owner key) s in
      (
        t,
        get_found_lem key index rls s found decoded,
        delete_found key index rls s t found decoded gone,
        get_missing_lem key t
            (after key ∙ ap (surviving _) found ∙ owned_index_goes key index (owner, keyed)),
        after,
      )

  -- If the new release cannot be encoded (it may need more chunks than MaxWriteChunks), Update of
  -- a key whose index has the type label of an index fails after it has deleted the chunk secrets:
  -- the old index secret stays as it was, and a secret that had the chunk labels of the key is gone.
  pub update_loses_chunks :
      (now : ℕ) (key n : String) (rls : Release) (index y : Secret) (e : Error) (s : api.State)
      → h.find s key ≡ some index
      → index.name ≡ key
      → lookup "type" index.labels ≡ some "index"
      → h.find s n ≡ some y
      → y.labels ≡ new_chunk_labels c.owner key
      → encode_release_as_chunks codec c key rls ≡ err e
      → (t : api.State) × (update api codec c now key rls s
          ≡ (err (wrap "create: failed to encode release" e), t))
        × (h.find t key ≡ some index)
        × (h.find t n ≡ none)
  unfolding update
  update_loses_chunks now key n rls index y e s found same kind there labelled failed =
      let (t, gone, after) = h.deleted (new_list_chunks_for_key_selector c.owner index.name) s in
      (
        t,
        ground (arith, h.get_found key s index found, gone, failed),
        after key ∙ ap (surviving _) found ∙ index_stays index.name index kind,
        after n ∙ ap (surviving _) there ∙ chunks_go index.name key y same labelled,
      )

module _ (api : SecretInterface) (codec : Codec) (c : ChunkedSecrets) where
  -- Whatever releases come back pass the selector.
  abbrev pub Passes : Dict String → Result (List Release) → Type 0
  Passes selector (ok rs) = All (λ (r : Release). codec.matches selector r.labels ≡ true) rs
  Passes selector (err e) = Unit

  query_loop-Passes :
      (selector : Dict String) (indices : List Secret) (s : api.State)
      → Passes selector (query_loop api codec c selector indices s).0
  unfolding query_loop
  query_loop-Passes selector [] s = tt
  query_loop-Passes selector (index ∷ indices) s =
      ground (arith, query_loop-Passes selector indices (decode_release api codec c index s).1)

  abbrev pub Answers : Dict String → Result (List Release) → Type 0
  Answers selector (ok rs) =
      (rs ≢ []) × All (λ (r : Release). codec.matches selector r.labels ≡ true) rs
  Answers selector (err e) = Unit

  -- What is left of the query for the second pass.
  abbrev pub user_labels : Dict String → Dict String
  user_labels labels = keep (λ (k, _). not (is_system_label k)) (own_query api codec c labels)

  found_or_error :
      (selector : Dict String) (r : Result (List Release)) (s : api.State)
      → Passes selector r
      → Answers selector (continue r (or_not_found api codec c) s).0
  found_or_error selector (ok []) s p = tt
  found_or_error selector (ok (r ∷ rs)) s p = (λ e. cc, p)
  found_or_error selector (err e) s p = tt

  -- Whatever the API answers, a Query that succeeds returns at least one release, and each release
  -- that it returns matches the labels of the query that are not system labels.
  pub query-Answers :
      (labels : Dict String) (s : api.State)
      → Answers (user_labels labels) (query api codec c labels s).0
  unfolding query
  query-Answers labels s = elim (Result-cases listed.0) [
    | inl (indices, e) ↦ rw (e) (
        found_or_error (user_labels labels) _ _
          (query_loop-Passes (user_labels labels) indices listed.1))
    | inr (e', e) ↦ rw e tt
  ]
    where
      listed : Result (List Secret) × api.State
      listed =
          api.list
            (new_list_indices_label_selector c.owner
              ++ keep (λ (k, _). is_system_label k) (own_query api codec c labels))
            s
