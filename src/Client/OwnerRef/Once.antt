-- ===== src/Client/OwnerRef/Once.antt =====
-- Each owner is there afterwards, those that were there stay, and a second run adds none.
use helm_operator_plugins.Object.{OwnerReference}
use helm_operator_plugins.Storage.{Secret}
use helm_operator_plugins.Client.OwnerRef.{
  OwnerRefSecretClient, has_owner_ref, append_missing, append_missing_owner_refs,
}
use helm_operator_plugins.Prelude.{
  if◌then◌else◌, All, ◌≡◌, refl, ap, true, ◌||◌, List, [], ◌∷◌, ◌++◌, arith, eq_iff,
}

has_owner_ref-append :
    (owned more : List OwnerReference) (ref : OwnerReference)
    → has_owner_ref (owned ++ more) ref ≡ (has_owner_ref owned ref || has_owner_ref more ref)
unfolding has_owner_ref
has_owner_ref-append [] more ref = refl
has_owner_ref-append (r ∷ owned) more ref = ground (arith, has_owner_ref-append owned more ref)

abbrev added : List OwnerReference → OwnerReference → List OwnerReference
added owned ref = if has_owner_ref owned ref then owned else owned ++ (ref ∷ [])

append_missing_keeps :
    (owned refs : List OwnerReference) (ref : OwnerReference)
    → has_owner_ref owned ref ≡ true
    → has_owner_ref (append_missing owned refs) ref ≡ true
unfolding append_missing
append_missing_keeps owned [] ref h = h
append_missing_keeps owned (r ∷ refs) ref h =
    append_missing_keeps (added owned r) refs ref
      (ground (arith, has_owner_ref-append owned (r ∷ []) ref))

append_missing-HasAll :
    (owned refs : List OwnerReference)
    → All (λ ref. has_owner_ref (append_missing owned refs) ref ≡ true) refs
unfolding append_missing
append_missing-HasAll owned [] = tt
append_missing-HasAll owned (ref ∷ refs) = (
  append_missing_keeps (added owned ref) refs ref
      (ground (arith, has_owner_ref-append owned (ref ∷ []) ref, eq_iff ref.uid ref.uid)),
  append_missing-HasAll (added owned ref) refs,
)

nothing_missing :
    (owned refs : List OwnerReference)
    → All (λ ref. has_owner_ref owned ref ≡ true) refs
    → append_missing owned refs ≡ owned
unfolding append_missing
nothing_missing owned [] h = refl
nothing_missing owned (ref ∷ refs) (here, h) = rw here (nothing_missing owned refs h)

-- After appendMissingOwnerRefs the secret has an owner reference with the UID of each of the
-- client's references, and running it again changes nothing.
pub append_missing_owner_refs_lem :
    (c : OwnerRefSecretClient) (secret : Secret)
    → All
        (λ ref. has_owner_ref (append_missing_owner_refs c secret).owner_references ref ≡ true)
        c.refs
      × (append_missing_owner_refs c (append_missing_owner_refs c secret)
          ≡ append_missing_owner_refs c secret)
unfolding append_missing_owner_refs
append_missing_owner_refs_lem c secret = (
  append_missing-HasAll secret.owner_references c.refs,
  ap (λ (rs : List OwnerReference). record secret { owner_references = rs })
      (nothing_missing _ c.refs (append_missing-HasAll secret.owner_references c.refs)),
)
