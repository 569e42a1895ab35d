-- ===== src/Status/Sorted.antt =====
-- What MarshalJSON makes of conditions depends on their map alone, not on their order.
use helm_operator_plugins.Status.{
  Condition, Conditions, get_condition, insert_by_type, sort_by_type, marshal_json,
}
use helm_operator_plugins.Status.Setting.{IsUnique}
use helm_operator_plugins.Prelude.{
  if◌then◌else◌, Bool-cases, Option-cases, All, precedes, precedes_irrefl, precedes_trans,
  precedes_total, Result, String, ◌≡◌, refl, sym, ap, subst, fun_ext, ◌∙◌, ◌↔◌, inl, inr, true,
  Option, none, some, List, [], ◌∷◌, arith, ◌==◌, eq_iff, eq_refl,
}

abbrev Follow : String → Conditions → Type 0
Follow t cs = All (λ (c : Condition). precedes t c.type ≡ true) cs

abbrev IsSorted : Conditions → Type 0
IsSorted [] = Unit
IsSorted (c ∷ cs) = Follow c.type cs × IsSorted cs

get_condition-insert_by_type :
    (c : Condition) (cs : Conditions) (t : String)
    → get_condition cs c.type ≡ none
    → get_condition (insert_by_type c cs) t ≡ (if c.type == t then some c else get_condition cs t)
unfolding get_condition insert_by_type
get_condition-insert_by_type c [] t h = refl
get_condition-insert_by_type c (d ∷ ds) t h = ground (
  arith,
  h,
  eq_iff c.type t,
  eq_iff d.type t,
  eq_iff d.type c.type,
  get_condition-insert_by_type c ds t,
)

get_condition-sort_by_type :
    (cs : Conditions) (t : String)
    → IsUnique cs
    → get_condition (sort_by_type cs) t ≡ get_condition cs t
unfolding get_condition sort_by_type
get_condition-sort_by_type [] t u = refl
get_condition-sort_by_type (c ∷ cs) t (fresh, u) =
    get_condition-insert_by_type c (sort_by_type cs) t
      (get_condition-sort_by_type cs c.type u ∙ fresh)
    ∙ ap (λ o. if c.type == t then some c else o) (get_condition-sort_by_type cs t u)

Follow-insert_by_type :
    (t : String) (c : Condition) (cs : Conditions)
    → precedes t c.type ≡ true
    → Follow t cs
    → Follow t (insert_by_type c cs)
unfolding insert_by_type
Follow-insert_by_type t c [] h f = (h, tt)
Follow-insert_by_type t c (d ∷ ds) h (g, f) =
    ground (arith, h, g, f, Follow-insert_by_type t c ds h f)

Follow-trans : (t u : String) (cs : Conditions) → precedes t u ≡ true → Follow u cs → Follow t cs
Follow-trans t u [] h f = tt
Follow-trans t u (c ∷ cs) h (g, f) = (precedes_trans t u c.type h g, Follow-trans t u cs h f)

insert_by_type-IsSorted :
    (c : Condition) (cs : Conditions)
    → get_condition cs c.type ≡ none
    → IsSorted cs
    → IsSorted (insert_by_type c cs)
unfolding get_condition insert_by_type
insert_by_type-IsSorted c [] fresh s = (tt, tt)
insert_by_type-IsSorted c (d ∷ ds) fresh (f, s) = elim (Bool-cases (precedes d.type c.type)) [
  | inl h ↦ rw h (
    Follow-insert_by_type d.type c ds h f,
    insert_by_type-IsSorted c ds (ground (arith, fresh)) s,
  )
  | inr h ↦
      let after : precedes c.type d.type ≡ true =
        ground (arith, h, fresh, eq_iff d.type c.type, precedes_total d.type c.type) in
      rw h ((after, Follow-trans c.type d.type ds after f), (f, s))
]

sort_by_type-IsSorted : (cs : Conditions) → IsUnique cs → IsSorted (sort_by_type cs)
unfolding sort_by_type
sort_by_type-IsSorted [] u = tt
sort_by_type-IsSorted (c ∷ cs) (fresh, u) =
    insert_by_type-IsSorted c (sort_by_type cs) (get_condition-sort_by_type cs c.type u ∙ fresh)
      (sort_by_type-IsSorted cs u)

found_follows :
    (t u : String) (cs : Conditions) (d : Condition)
    → Follow t cs
    → get_condition cs u ≡ some d
    → precedes t u ≡ true
unfolding get_condition
found_follows t u [] d f h = cc
found_follows t u (c ∷ cs) d (g, f) h =
    ground (arith, g, h, eq_iff c.type u, found_follows t u cs d f)

Follow-none : (t : String) (cs : Conditions) → Follow t cs → get_condition cs t ≡ none
Follow-none t cs f = elim (Option-cases (get_condition cs t)) [
  | inl e ↦ e
  | inr (d, e) ↦ ground (arith, found_follows t t cs d f e, precedes_irrefl t)
]

-- The first of two sorted lists with one map is the first of the other.
same_first :
    (c d : Condition) (cs ds : Conditions)
    → Follow c.type cs
    → Follow d.type ds
    → ((t : String) → get_condition (c ∷ cs) t ≡ get_condition (d ∷ ds) t)
    → c ≡ d
unfolding get_condition
same_first c d cs ds f g h = elim (Bool-cases (d.type == c.type)) [
  | inl e ↦ ground (arith, e, h c.type, eq_refl c.type)
  | inr e ↦
      let left : precedes d.type c.type ≡ true =
        found_follows d.type c.type ds c g (ground (arith, e, h c.type, eq_refl c.type)) in
      let right : precedes c.type d.type ≡ true =
        found_follows c.type d.type cs d f (
          ground
            (arith, e, h d.type, eq_refl d.type, eq_iff c.type d.type, eq_iff d.type c.type)) in
      ground (arith, precedes_trans c.type d.type c.type right left, precedes_irrefl c.type)
]

same_rest :
    (c : Condition) (cs ds : Conditions) (t : String)
    → Follow c.type cs
    → Follow c.type ds
    → get_condition (c ∷ cs) t ≡ get_condition (c ∷ ds) t
    → get_condition cs t ≡ get_condition ds t
unfolding get_condition
same_rest c cs ds t f g h = elim (Bool-cases (c.type == t)) [
  | inr e ↦ ground (arith, e, h)
  | inl e ↦
      let same : c.type ≡ t = (eq_iff c.type t).0 e in
      subst (λ u. get_condition cs u ≡ get_condition ds u) same
        (Follow-none c.type cs f ∙ sym (Follow-none c.type ds g))
]

sorted_ext :
    (cs ds : Conditions)
    → IsSorted cs
    → IsSorted ds
    → ((t : String) → get_condition cs t ≡ get_condition ds t)
    → cs ≡ ds
unfolding get_condition
sorted_ext [] [] s r h = refl
sorted_ext [] (d ∷ ds) s r h = ground (arith, h d.type, eq_refl d.type)
sorted_ext (c ∷ cs) [] s r h = ground (arith, h c.type, eq_refl c.type)
sorted_ext (c ∷ cs) (d ∷ ds) (f, s) (g, r) h =
    let first = same_first c d cs ds f g h in
    let g' = subst (λ (x : Condition). Follow x.type ds) (sym first) g in
    let h' : (t : String) → get_condition (c ∷ cs) t ≡ get_condition (c ∷ ds) t =
      subst (λ (x : Condition). (t : String) → get_condition (c ∷ cs) t ≡ get_condition (x ∷ ds) t)
        (sym first) h in
    let rest = sorted_ext cs ds s r (λ t. same_rest c cs ds t f g' (h' t)) in
    ap (λ x. x ∷ cs) first ∙ ap (λ xs. d ∷ xs) rest

some_eq : {cs ds : Conditions} → some cs ≡ some ds → cs ≡ ds
some_eq e = ground (arith, e)

-- For conditions that are not nil and have one entry for each type, MarshalJSON leaves the caller's
-- conditions with the same answer of GetCondition for every type. It gives the same result for two
-- such lists, and leaves the same conditions, exactly if GetCondition answers the same for both: the
-- order of the conditions does not count.
pub marshal_json-canonical :
    (marshal : Option (List Condition) → Result String) (cs ds : Conditions)
    → IsUnique cs
    → IsUnique ds
    → (left : Conditions) × ((marshal_json marshal (some cs)).1 ≡ some left)
      × (get_condition left ≡ get_condition cs)
      × ((get_condition cs ≡ get_condition ds)
          ↔ (marshal_json marshal (some cs) ≡ marshal_json marshal (some ds)))
unfolding marshal_json
marshal_json-canonical marshal cs ds u v =
    let kept : get_condition (sort_by_type cs) ≡ get_condition cs =
      fun_ext (λ t. get_condition-sort_by_type cs t u) in
    let kept' : get_condition (sort_by_type ds) ≡ get_condition ds =
      fun_ext (λ t. get_condition-sort_by_type ds t v) in
    let one_form : get_condition cs ≡ get_condition ds → sort_by_type cs ≡ sort_by_type ds = λ h.
      sorted_ext (sort_by_type cs) (sort_by_type ds) (sort_by_type-IsSorted cs u)
        (sort_by_type-IsSorted ds v) (λ t. ap (λ f. f t) (kept ∙ h ∙ sym kept')) in
    (
      sort_by_type cs,
      refl,
      kept,
      (
        λ h. ap (λ xs. (marshal (some xs), some xs)) (one_form h),
        λ e. sym kept ∙ ap get_condition (some_eq (ap (λ q. q.1) e)) ∙ kept',
      ),
    )
