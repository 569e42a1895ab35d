-- ===== src/Storage/Driver/Store/Erasing.antt =====
-- What the deletion of the secrets of one key leaves.
use helm_operator_plugins.Storage.{Secret, SecretInterface, Codec, ChunkedSecrets}
use helm_operator_plugins.Storage.Api.{all_match, unless, surviving, HealthyApi}
use helm_operator_plugins.Storage.Chunks.{Chunk}
use helm_operator_plugins.Storage.Labels.{
  new_list_all_for_key_selector, new_list_chunks_for_key_selector,
}
use helm_operator_plugins.Storage.Driver.Chunking.{named}
use helm_operator_plugins.Storage.Driver.Store.{Store, put, IsLabelled, StoresChunk, Represents}
use helm_operator_plugins.Storage.Driver.Store.Writing.{RepresentsOthers, chunks_stay}
use helm_operator_plugins.Prelude.{
  Bool-cases, true-false, some-none, All, Dict, String, ◌≡◌, refl, sym, ap, subst, ◌∙◌, inl, inr,
  true, false, Option, none, some, List, [], ◌∷◌, arith, ◌==◌, eq_iff,
}

module _ {api : SecretInterface} (h : HealthyApi api) (codec : Codec) (c : ChunkedSecrets)
    (IsKey : String → Type 0) where
  -- A selector for secrets of the key, its chunk secrets among them.
  pub record Erases (sel : Dict String) (key : String) : Type 0 where
    pub spares :
        (kind other_key : String) (labels : Dict String)
        → IsLabelled h codec c IsKey kind labels other_key
        → (key == other_key) ≡ false
        → all_match sel labels ≡ false
    pub takes :
        (labels : Dict String)
        → IsLabelled h codec c IsKey "chunk" labels key
        → all_match sel labels ≡ true

  pub all_for_key-Erases : (key : String) → Erases (new_list_all_for_key_selector c.owner key) key
  unfolding new_list_all_for_key_selector
  all_for_key-Erases key = record {
    spares = λ kind k labels (owner, keyed, _) apart.
        ground (arith, owner, keyed, apart, eq_iff key k, eq_iff k key);
    takes = λ labels (owner, keyed, _).
        ground (arith, owner, keyed, eq_iff c.owner c.owner, eq_iff key key);
  }

  pub chunks_for_key-Erases :
      (key : String) → Erases (new_list_chunks_for_key_selector c.owner key) key
  unfolding new_list_chunks_for_key_selector
  chunks_for_key-Erases key = record {
    spares = λ kind k labels (owner, keyed, _) apart.
        ground (arith, owner, keyed, apart, eq_iff key k, eq_iff k key);
    takes = λ labels (owner, keyed, kind).
        ground (arith, owner, keyed, kind, eq_iff c.owner c.owner, eq_iff key key);
  }

  surviving-some :
      (sel : Dict String) (o : Option Secret) (y : Secret)
      → surviving sel o ≡ some y
      → (o ≡ some y) × (all_match sel y.labels ≡ false)
  surviving-some sel none y e = absurd (some-none (sym e))
  surviving-some sel (some x) y e = elim (Bool-cases (all_match sel x.labels)) [
    | inl gone ↦ absurd (ground (arith, e, gone))
    | inr stays ↦
        let same : x ≡ y = ground (arith, e, stays) in
        (ap some same, subst (λ (z : Secret). all_match sel z.labels ≡ false) same stays)
  ]

  chunk_labels :
      (s : api.State) (key n : String) (part : List Chunk) (y : Secret)
      → All (StoresChunk h codec c IsKey s key) part
      → named n part ≡ true
      → h.find s n ≡ some y
      → IsLabelled h codec c IsKey "chunk" y.labels key
  chunk_labels s key n [] y held mine found = absurd (true-false (sym mine))
  chunk_labels s key n (ch ∷ part) y ((z, there, _, labels), held) mine found =
      elim (Bool-cases (ch.name == n)) [
        | inl q ↦
            let same : ch.name ≡ n = ground (arith, q, eq_iff ch.name n) in
            let same' : some z ≡ some y = sym there ∙ ap (h.find s) same ∙ found in
            let same'' : z ≡ y = ground (arith, same') in
            subst (λ (w : Secret). IsLabelled h codec c IsKey "chunk" w.labels key) same'' labels
        | inr q ↦ chunk_labels s key n part y held (ground (arith, q, mine)) found
      ]

  pub erased-RepresentsOthers :
      (s t : api.State) (m : Store) (key : String) (sel : Dict String)
      → Erases sel key
      → Represents h codec c IsKey s m
      → ((n : String) → h.find t n ≡ surviving sel (h.find s n))
      → RepresentsOthers h codec c IsKey t m key
  erased-RepresentsOthers s t m key sel erases old after = record {
    stored = λ k e p q.
        let (is_key, sound, index, held) = old.stored k e p in
        let spared = erases.spares "index" k index.0.labels index.5 q in
        let still : h.find t k ≡ some index.0 =
          after k ∙ ap (surviving sel) index.1 ∙ ap (λ b. unless b (some index.0)) spared in
        (
          is_key,
          sound,
          (index.0, still, index.2, index.3, index.4, index.5),
          chunks_stay h codec c IsKey s t k e.extra
              (λ n z _ here labels.
                after n
                ∙ ap (surviving sel) here
                ∙ ap (λ b. unless b (some z)) (erases.spares "chunk" k z.labels labels q))
              held,
        );
    used = λ n y f.
        let (was, spared) = surviving-some sel (h.find s n) y (sym (after n) ∙ f) in
        elim (old.used n y was) [
          | inl (e, p) ↦ elim (Bool-cases (key == n)) [
            | inl q ↦ inl q
            | inr q ↦ inr (n, e, p, q, inl refl)
          ]
          | inr (k, e, p, q) ↦ elim (Bool-cases (key == k)) [
            | inr r ↦ inr (k, e, p, r, inr q)
            | inl r ↦
                let same : k ≡ key = ground (arith, r, eq_iff key k) in
                let labels = chunk_labels s k n e.extra y (old.stored k e p).3 q was in
                let labels' =
                  subst (λ z. IsLabelled h codec c IsKey "chunk" y.labels z) same labels in
                absurd (true-false (sym (erases.takes y.labels labels') ∙ spared))
          ]
        ];
  }

  -- Without the key, the others are all.
  pub gone-Represents :
      (s : api.State) (m : Store) (key : String)
      → RepresentsOthers h codec c IsKey s m key
      → h.find s key ≡ none
      → Represents h codec c IsKey s (put key none m)
  gone-Represents s m key others gone = record {
    stored = λ k e p. elim (Bool-cases (key == k)) [
      | inl q ↦ absurd (ground (arith, p, q))
      | inr q ↦ others.stored k e (ground (arith, p, q)) q
    ];
    used = λ n y f. elim (others.used n y f) [
      | inl q ↦
          let same : key ≡ n = ground (arith, q, eq_iff key n) in
          absurd (some-none (sym f ∙ ap (h.find s) (sym same) ∙ gone))
      | inr (k, e, p, q, inl same) ↦
          inl (e, subst (λ z. put key none m z ≡ some e) (sym same) (ground (arith, q, p)))
      | inr (k, e, p, q, inr mine) ↦ inr (k, e, ground (arith, q, p), mine)
    ];
  }
