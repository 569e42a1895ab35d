-- ===== src/Predicates/Examples.antt =====
-- The theorem on events at two objects that are their parts.
use helm_operator_plugins.Predicates.{
  ManagedFieldsEntry, ObjectLib, updated, dependent_predicate_funcs,
}
use helm_operator_plugins.Predicates.Passed.{Parts, HasParts}
use helm_operator_plugins.Prelude.{
  String, ◌≡◌, refl, ap, subst, Bool, true, false, ◌&&◌, Option, none, some, List, [], ◌∷◌, arith,
  ◌==◌, eq_iff, eq_refl,
}

abbrev entry_equal : ManagedFieldsEntry → ManagedFieldsEntry → Bool
entry_equal a b = a.subresource == b.subresource && a.rest == b.rest

abbrev entries_equal : List ManagedFieldsEntry → List ManagedFieldsEntry → Bool
entries_equal [] [] = true
entries_equal [] (b ∷ bs) = false
entries_equal (a ∷ as') [] = false
entries_equal (a ∷ as') (b ∷ bs) = entry_equal a b && entries_equal as' bs

abbrev fields_equal : Option (List ManagedFieldsEntry) → Option (List ManagedFieldsEntry) → Bool
fields_equal none none = true
fields_equal none (some b) = false
fields_equal (some a) none = false
fields_equal (some a) (some b) = entries_equal a b

abbrev text_equal : Option String → Option String → Bool
text_equal none none = true
text_equal none (some b) = false
text_equal (some a) none = false
text_equal (some a) (some b) = a == b

abbrev Pod : Type 0
Pod = Parts String String

abbrev pod_equal : Pod → Pod → Bool
pod_equal a b =
    text_equal a.status b.status
    && a.resource_version == b.resource_version
    && fields_equal a.managed_fields b.managed_fields
    && a.rest == b.rest

entries_equal-eq : (xs ys : List ManagedFieldsEntry) → entries_equal xs ys ≡ true → xs ≡ ys
entries_equal-eq [] [] h = refl
entries_equal-eq [] (y ∷ ys) h = cc
entries_equal-eq (x ∷ xs) [] h = cc
entries_equal-eq (x ∷ xs) (y ∷ ys) h =
    ground
      (arith, h, eq_iff x.subresource y.subresource, eq_iff x.rest y.rest, entries_equal-eq xs ys)

entries_equal_self : (xs : List ManagedFieldsEntry) → entries_equal xs xs ≡ true
entries_equal_self [] = refl
entries_equal_self (x ∷ xs) =
    ground (arith, eq_refl x.subresource, eq_refl x.rest, entries_equal_self xs)

fields_equal_self : (o : Option (List ManagedFieldsEntry)) → fields_equal o o ≡ true
fields_equal_self none = refl
fields_equal_self (some xs) = entries_equal_self xs

fields_equal-eq : (o p : Option (List ManagedFieldsEntry)) → fields_equal o p ≡ true → o ≡ p
fields_equal-eq none none h = refl
fields_equal-eq none (some ys) h = cc
fields_equal-eq (some xs) none h = cc
fields_equal-eq (some xs) (some ys) h = ap some (entries_equal-eq xs ys h)

text_equal_self : (o : Option String) → text_equal o o ≡ true
text_equal_self none = refl
text_equal_self (some s) = eq_refl s

text_equal-eq : (o p : Option String) → text_equal o p ≡ true → o ≡ p
text_equal-eq none none h = refl
text_equal-eq none (some t) h = cc
text_equal-eq (some s) none h = cc
text_equal-eq (some s) (some t) h = ap some ((eq_iff s t).0 h)

pod_equal_self : (p : Pod) → pod_equal p p ≡ true
pod_equal_self p = ground (
  arith,
  text_equal_self p.status,
  eq_refl p.resource_version,
  fields_equal_self p.managed_fields,
  eq_refl p.rest,
)

pod_equal-eq : (p q : Pod) → pod_equal p q ≡ true → p ≡ q
pod_equal-eq p q h =
    let s : p.status ≡ q.status = text_equal-eq p.status q.status (ground (arith, h)) in
    let v : p.resource_version ≡ q.resource_version =
      (eq_iff p.resource_version q.resource_version).0 (ground (arith, h)) in
    let f : p.managed_fields ≡ q.managed_fields =
      fields_equal-eq p.managed_fields q.managed_fields (ground (arith, h)) in
    let r : p.rest ≡ q.rest = (eq_iff p.rest q.rest).0 (ground (arith, h)) in
    λ i. record { status = s i; resource_version = v i; managed_fields = f i; rest = r i }

abbrev pods : ObjectLib Pod
pods = record {
  delete_status = λ o. record o { status = none };
  set_resource_version = λ v o. record o { resource_version = v };
  get_managed_fields = λ o. o.managed_fields;
  set_managed_fields = λ fs o. record o { managed_fields = fs };
  deep_equal = pod_equal;
}

abbrev pods-HasParts : HasParts pods
pods-HasParts = record {
  Status = String;
  Rest = String;
  parts = λ o. o;
  status_deleted = λ o. refl;
  version_set = λ v o. refl;
  fields_got = λ o. refl;
  fields_set = λ fs o. refl;
  compared = λ a b. (pod_equal-eq a b, λ e. subst (λ x. pod_equal a x ≡ true) e (pod_equal_self a));
}

abbrev old_pod : Pod
old_pod = record {
  status = some "Pending";
  resource_version = "7";
  managed_fields = some (record { subresource = ""; rest = "helm" } ∷ []);
  rest = "spec";
}

-- The kubelet has written the status.
abbrev new_pod : Pod
new_pod = record {
  status = some "Running";
  resource_version = "8";
  managed_fields = some (
      record { subresource = ""; rest = "helm" }
      ∷ record { subresource = "status"; rest = "kubelet" }
      ∷ []);
  rest = "spec";
}

status_ignored : dependent_predicate_funcs pods (updated old_pod new_pod) ≡ false
unfolding dependent_predicate_funcs
status_ignored = refl
