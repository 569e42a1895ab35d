-- ===== src/Storage/Driver/Store/Examples.antt =====
-- A release that is looked for, created, created again, read, updated, deleted and looked for, in
-- secrets in memory.
use helm_operator_plugins.Storage.{wrap_release}
use helm_operator_plugins.Storage.Api.{DecodesBack}
use helm_operator_plugins.Storage.Memory.{nothing, memory_healthy}
use helm_operator_plugins.Storage.Chunks.{encode_release_as_chunks}
use helm_operator_plugins.Storage.Hash.{hash_for_data}
use helm_operator_plugins.Storage.Driver.Chunking.{named}
use helm_operator_plugins.Storage.Driver.Data.{info, rls, driver, first, extra, codec}
use helm_operator_plugins.Storage.Driver.Store.{
  Entry, Store, put, Op, create_op, update_op, delete_op, get_op, shown_entry, IsStorable,
  Represents, IsApart, IsAllowed, AreAllowed, perform_all, spec_all,
}
use helm_operator_plugins.Storage.Driver.Store.Refining.{perform_all-refines}
use helm_operator_plugins.Prelude.{
  some-none, release_not_found, release_exists, wrap, ok, err, ℕ, String, ◌≡◌, refl, sym, subst,
  ◌∙◌, inr, false, Option, none, some, List, [], ◌∷◌, arith, ◌==◌,
}

abbrev IsK : String → Type 0
IsK n = "k" ≡ n

abbrev entry : Entry
entry = record { rls = rls; info = info; encoded = 1 ∷ 2 ∷ 3 ∷ []; first = first; extra = extra }

abbrev no_releases : Store
no_releases n = none

pieces_k : encode_release_as_chunks codec driver "k" rls ≡ ok (first ∷ extra)
unfolding encode_release_as_chunks hash_for_data
pieces_k = refl

apart_k : named "k" extra ≡ false
unfolding hash_for_data
apart_k = refl

back_k : DecodesBack codec (wrap_release rls)
unfolding wrap_release
back_k = record { decodes = λ d e. (d, refl, refl) }

entry-IsStorable : IsStorable memory_healthy codec driver IsK "k" entry
entry-IsStorable = record {
  known = refl;
  encodes = refl;
  pieces = pieces_k;
  back = back_k;
  parsed = refl;
  room = inr (omega arith);
  no_key = λ n e. subst (λ k. named k extra ≡ false) e apart_k;
  distinct = (refl, tt);
}

empty-Represents : Represents memory_healthy codec driver IsK nothing no_releases
empty-Represents = record {
  stored = λ key e p. absurd (some-none (sym p));
  used = λ n y f. absurd (some-none (sym f));
}

-- No other key has a release.
abbrev IsOnlyK : Store → Type 0
IsOnlyK m = (n : String) → ("k" == n) ≡ false → m n ≡ none

put-IsOnlyK : (m : Store) (o : Option Entry) → IsOnlyK m → IsOnlyK (put "k" o m)
put-IsOnlyK m o only n q = ground (arith, q, only n)

IsOnlyK-IsApart : (m : Store) → IsOnlyK m → IsApart memory_healthy codec driver IsK m "k" entry
IsOnlyK-IsApart m only k n old p q theirs = absurd (some-none (sym p ∙ only k q))

abbrev operations : List Op
operations =
    get_op "k"
    ∷ create_op 5 "k" entry
    ∷ create_op 6 "k" entry
    ∷ get_op "k"
    ∷ update_op 7 "k" entry
    ∷ delete_op "k"
    ∷ delete_op "k"
    ∷ []

write-IsAllowed :
    (now : ℕ) (m : Store)
    → IsOnlyK m
    → IsAllowed memory_healthy codec driver IsK (create_op now "k" entry) m
write-IsAllowed now m only = (refl, entry-IsStorable, IsOnlyK-IsApart m only)

operations-AreAllowed : AreAllowed memory_healthy codec driver IsK operations no_releases
operations-AreAllowed =
    let m1 : Store = put "k" none no_releases in
    let m2 : Store = put "k" (some entry) m1 in
    let m3 : Store = put "k" (some entry) m2 in
    let m4 : Store = put "k" (some entry) m3 in
    let only1 = put-IsOnlyK no_releases none (λ n q. refl) in
    let only2 = put-IsOnlyK m1 (some entry) only1 in
    let only3 = put-IsOnlyK m2 (some entry) only2 in
    let only4 = put-IsOnlyK m3 (some entry) only3 in
    (
      refl,
      (
        write-IsAllowed 5 m1 only1,
        (write-IsAllowed 6 m2 only2, (refl, (write-IsAllowed 7 m4 only4, (refl, (refl, tt))))),
      ),
    )

perform_all-refines_example :
    let (answers, t) = perform_all memory_healthy codec driver IsK operations nothing in
    (answers
      ≡ err (wrap "get" release_not_found)
        ∷ ok none
        ∷ err release_exists
        ∷ shown_entry entry
        ∷ ok none
        ∷ shown_entry entry
        ∷ err release_not_found
        ∷ [])
    × Represents memory_healthy codec driver IsK t (spec_all operations no_releases).1
perform_all-refines_example =
    perform_all-refines memory_healthy codec driver IsK operations nothing no_releases (omega arith)
      empty-Represents operations-AreAllowed
