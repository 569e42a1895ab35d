-- ===== src/Updater/Keeping.antt =====
-- What Apply keeps of the outside state: whatever the updates of the API keep.
use helm_operator_plugins.Object.{fields, Unstructured}
use helm_operator_plugins.Cluster.{Cluster}
use helm_operator_plugins.Updater.{
  Updater, is_retryable_update_error, status_in, write_through, run_status_funcs, run_funcs,
  apply_updates, apply,
}
use helm_operator_plugins.Exec.{Exec}
use helm_operator_plugins.Prelude.{
  Bool-cases, Error, Result-cases, ℕ, ◌≡◌, sym, subst, ◌⊎◌, inl, inr, Bool, false, [], arith,
}

-- retry.OnError calls the function it is given, and nothing else.
abbrev pub RetryKeeps : Cluster → Type 1
RetryKeeps k =
    (P : k.State → Type 0) (test : Error → Bool) (f : Exec k.State Unstructured) (s : k.State)
    → ((t : k.State) → P t → P (f t).1)
    → P s
    → P (k.retry test f s).1

module _ (k : Cluster) (P : k.State → Type 0) (retried : RetryKeeps k) where
  -- The object is not updated, or its update keeps the predicate.
  abbrev pub UpdatesKeep : Updater → Type 0
  UpdatesKeep u =
      (u.update_funcs ≡ []) ⊎ ((o : Unstructured) (t : k.State) → P t → P (k.update o t).1)

  apply_updates-keeps :
      (u : Updater) (obj : Unstructured) (s : k.State)
      → UpdatesKeep u
      → P s
      → P (apply_updates k u obj s).1
  unfolding apply_updates
  apply_updates-keeps u obj s (inl e) p =
      let same : (apply_updates k u obj s).1 ≡ s = ground (arith, e) in subst P (sym same) p
  apply_updates-keeps u obj s (inr keeps) p =
      let ran = run_funcs k u.update_funcs false obj in
      elim (Bool-cases ran.0) [
        | inr idle ↦
            let same : (apply_updates k u obj s).1 ≡ s = ground (arith, idle) in
            subst P (sym same) p
        | inl needs ↦
            let after = k.retry is_retryable_update_error (k.update ran.1) s in
            let same : (apply_updates k u obj s).1 ≡ after.1 = ground (arith, needs) in
            subst P (sym same)
              (retried P is_retryable_update_error (k.update ran.1) s (keeps ran.1) p)
      ]

  -- Apply keeps what the updates of the status, and of the object if it comes to that, keep.
  pub apply-keeps :
      (now : ℕ) (u : Updater) (obj : Unstructured) (s : k.State)
      → ((o : Unstructured) (t : k.State) → P t → P (k.update_status o t).1)
      → UpdatesKeep u
      → P s
      → P (apply k now u obj s).1
  unfolding apply
  apply-keeps now u obj s status updates p = elim (Bool-cases u.is_canceled) [
    | inl c ↦ let same : (apply k now u obj s).1 ≡ s = ground (arith, c) in subst P (sym same) p
    | inr live ↦
        let ran = run_status_funcs k u.update_status_funcs now false (status_in k obj.status) in
        let touched = record obj { status = write_through k obj.status ran.1 } in
        elim (Bool-cases ran.0) [
          | inr idle ↦
              let same : (apply k now u obj s).1 ≡ (apply_updates k u touched s).1 =
                ground (arith, live, idle) in
              subst P (sym same) (apply_updates-keeps u touched s updates p)
          | inl needs ↦ elim (Result-cases (k.to_unstructured ran.1)) [
            | inr (x, e) ↦
                let same : (apply k now u obj s).1 ≡ s = ground (arith, live, needs, e) in
                subst P (sym same) p
            | inl (m, e) ↦
                let written = record touched { status = fields m } in
                let sent = k.retry is_retryable_update_error (k.update_status written) s in
                let p' =
                  retried P is_retryable_update_error (k.update_status written) s (status written)
                    p in
                elim (Result-cases sent.0) [
                  | inr (x, f) ↦
                      let same : (apply k now u obj s).1 ≡ sent.1 =
                        ground (arith, live, needs, e, f) in
                      subst P (sym same) p'
                  | inl (a, f) ↦
                      let same : (apply k now u obj s).1 ≡ (apply_updates k u a sent.1).1 =
                        ground (arith, live, needs, e, f) in
                      subst P (sym same) (apply_updates-keeps u a sent.1 updates p')
                ]
          ]
        ]
  ]
