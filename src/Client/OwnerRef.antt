-- ===== src/Client/OwnerRef.antt =====
-- pkg/client/ownerrefclient.go: a secrets client that adds owner references to what it writes.
pub mod Once
use helm_operator_plugins.Object.{OwnerReference}
use helm_operator_plugins.Storage.{Secret, SecretInterface}
use helm_operator_plugins.Exec.{Exec}
use helm_operator_plugins.Prelude.{
  if◌then◌else◌, api, Bool, true, false, ◌||◌, Option, none, some, List, [], ◌∷◌, ◌++◌, ◌==◌,
}

-- `match` may be nil; NewOwnerRefSecretClient puts MatchAllSecrets there.
pub record OwnerRefSecretClient : Type 0 where
  pub matches : Option (Secret → Bool)
  pub refs : List OwnerReference

unfoldable pub match_all_secrets : Secret → Bool
match_all_secrets secret = true

unfoldable pub new_owner_ref_secret_client :
    List OwnerReference → Option (Secret → Bool) → OwnerRefSecretClient
unfolding match_all_secrets
new_owner_ref_secret_client refs none = record { matches = some match_all_secrets; refs = refs }
new_owner_ref_secret_client refs (some m) = record { matches = some m; refs = refs }

unfoldable pub has_owner_ref : List OwnerReference → OwnerReference → Bool
has_owner_ref [] ref = false
has_owner_ref (r ∷ rs) ref = r.uid == ref.uid || has_owner_ref rs ref

-- The loop of appendMissingOwnerRefs over the references of the client.
unfoldable pub append_missing : List OwnerReference → List OwnerReference → List OwnerReference
unfolding has_owner_ref
append_missing owned [] = owned
append_missing owned (ref ∷ refs) =
    append_missing (if has_owner_ref owned ref then owned else owned ++ (ref ∷ [])) refs

unfoldable pub append_missing_owner_refs : OwnerRefSecretClient → Secret → Secret
unfolding append_missing
append_missing_owner_refs c secret = record secret {
  owner_references = append_missing secret.owner_references c.refs;
}

abbrev applies : OwnerRefSecretClient → Secret → Bool
applies c secret = elim c.matches [ none ↦ true | some m ↦ m secret ]

module _ (api : SecretInterface) (c : OwnerRefSecretClient) where
  unfoldable pub create : Secret → Exec api.State Secret
  unfolding append_missing_owner_refs
  create secret =
      api.create (if applies c secret then append_missing_owner_refs c secret else secret)

  unfoldable pub update : Secret → Exec api.State Secret
  unfolding append_missing_owner_refs
  update secret =
      api.update (if applies c secret then append_missing_owner_refs c secret else secret)

-- The client as a secrets client: what it does not declare is the embedded one's.
abbrev pub owner_ref_client : SecretInterface → OwnerRefSecretClient → SecretInterface
owner_ref_client secrets c = record secrets { create = create secrets c; update = update secrets c }
