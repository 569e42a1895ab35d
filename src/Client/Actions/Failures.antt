-- ===== src/Client/Actions/Failures.antt =====
-- What Install and Upgrade return when helm's action fails, and what they undo.
use helm_operator_plugins.Object.{Values, Chart}
use helm_operator_plugins.Client.{OptionFor, apply_options}
use helm_operator_plugins.Client.Options.{InstallAction, UpgradeAction}
use helm_operator_plugins.Client.Actions.{
  Helm, ActionClient, run_uninstall, after_uninstall, install, rollback, after_rollback, upgrade,
}
use helm_operator_plugins.Release.{Release}
use helm_operator_plugins.Prelude.{
  if◌then◌else◌, Bool-cases, is_some, Error, wrap, Result, ok, err, is_release_not_found, String,
  ◌≡◌, refl, inl, inr, true, ◌&&◌, Option, some, List, ◌∷◌, ◌++◌, arith,
}

-- `errors.Unwrap`, any number of times, leads from the first error to the second.
pub data Causes (cause : Error) : Error → Type 0 where
  itself : Causes cause cause
  wrapped : (context : String) {e : Error} → Causes cause e → Causes cause (wrap context e)

module _ {State : Type 0} (helm : Helm State) (c : ActionClient) where
  caused_uninstall :
      (rel : Option Release) (e : Error) (r : Result Release)
      → (e' : Error) × ((after_uninstall helm c rel e r).1 ≡ some e') × Causes e e'
  caused_uninstall rel e (ok r) = (e, refl, itself)
  caused_uninstall rel e (err e') = elim (Bool-cases (is_release_not_found e')) [
    | inl missing ↦ (e, rw missing, itself)
    | inr failed ↦ (
      wrap "uninstall failed: original install error" e,
      rw failed,
      wrapped "uninstall failed: original install error" itself,
    )
  ]

  -- If helm's install fails, Install never reports success, and the error that it returns is
  -- helm's or wraps it, also when the uninstall that cleans up fails. The state is the one that
  -- helm left, unless rollbacks are enabled and helm returned a release: then it is the one that
  -- the uninstall left, run with the options for failed installs alone.
  pub install_failed :
      (name namespace : String) (chrt : Chart) (vals : Values)
      (opts : List (OptionFor InstallAction)) (action : InstallAction) (rel : Option Release)
      (e : Error) (s t : State)
      → apply_options (c.default_install_opts ++ opts) helm.new_install ≡ ok action
      → helm.run_install (record action { release_name = name; namespace = namespace }) chrt vals s
        ≡ ((rel, some e), t)
      → (e' : Error) × ((install helm c name namespace chrt vals opts s).0.1 ≡ some e')
        × Causes e e'
        × ((install helm c name namespace chrt vals opts s).1 ≡ (
            if c.enable_failure_rollbacks && is_some rel
            then (run_uninstall helm c name c.install_failure_uninstall_opts t).1
            else t))
  unfolding install
  install_failed name namespace chrt vals opts action rel e s t ready failed =
      elim (Bool-cases (c.enable_failure_rollbacks && is_some rel)) [
        | inl undo ↦
            let (e', shown, caused) =
              caused_uninstall rel e
                (run_uninstall helm c name c.install_failure_uninstall_opts t).0 in
            (
              e',
              ground (arith, ready, failed, shown, undo),
              caused,
              ground (arith, ready, failed, undo),
            )
        | inr leave ↦
            (e, ground (arith, ready, failed, leave), itself, ground (arith, ready, failed, leave))
      ]

  caused_rollback :
      (rel : Option Release) (e : Error) (r : Result (Unit {0}))
      → (e' : Error) × ((after_rollback helm c rel e r).1 ≡ some e') × Causes e e'
  caused_rollback rel e (ok r) = (e, refl, itself)
  caused_rollback rel e (err e') = (
    wrap "rollback failed: original upgrade error" e,
    refl,
    wrapped "rollback failed: original upgrade error" itself,
  )

  -- The same of Upgrade: helm's failure is always reported. With rollbacks enabled and a release
  -- returned, a rollback is run whose first option sets force, and the history limit to that of the
  -- upgrade; the options for failed upgrades come after it.
  pub upgrade_failed :
      (name namespace : String) (chrt : Chart) (vals : Values)
      (opts : List (OptionFor UpgradeAction)) (action : UpgradeAction) (rel : Option Release)
      (e : Error) (s t : State)
      → apply_options (c.default_upgrade_opts ++ opts) helm.new_upgrade ≡ ok action
      → helm.run_upgrade (record action { namespace = namespace }) name chrt vals s
        ≡ ((rel, some e), t)
      → (e' : Error) × ((upgrade helm c name namespace chrt vals opts s).0.1 ≡ some e')
        × Causes e e'
        × ((upgrade helm c name namespace chrt vals opts s).1 ≡ (
            if c.enable_failure_rollbacks && is_some rel
            then (rollback helm c name
                ((λ r. ok (record r { force = true; max_history = action.max_history }))
                  ∷ c.upgrade_failure_rollback_opts)
                t).1
            else t))
  unfolding upgrade
  upgrade_failed name namespace chrt vals opts action rel e s t ready failed =
      elim (Bool-cases (c.enable_failure_rollbacks && is_some rel)) [
        | inl undo ↦
            let (e', shown, caused) =
              caused_rollback rel e
                (rollback helm c name
                  ((λ r. ok (record r { force = true; max_history = action.max_history }))
                    ∷ c.upgrade_failure_rollback_opts)
                  t).0 in
            (
              e',
              ground (arith, ready, failed, shown, undo),
              caused,
              ground (arith, ready, failed, undo),
            )
        | inr leave ↦
            (e, ground (arith, ready, failed, leave), itself, ground (arith, ready, failed, leave))
      ]
