-- ===== src/Updater/Applying.antt =====
-- When `Apply` calls the API, and what each status function does.
use helm_operator_plugins.Status.{Condition, Conditions}
use helm_operator_plugins.Status.Setting.{set_condition_unchanged}
use helm_operator_plugins.Object.{
  HelmAppRelease, HelmAppStatus, StatusField, absent, pointer, typed, fields, unknown, Unstructured,
}
use helm_operator_plugins.Cluster.{Cluster}
use helm_operator_plugins.Updater.{
  UpdateFunc, UpdateStatusFunc, Updater, ensure_condition, unknown_condition,
  ensure_condition_unknown, helm_app_release_for, is_deployed, ensure_deployed_release, status_in,
  write_through, run_status_funcs, run_funcs, apply,
}
use helm_operator_plugins.Release.{Release}
use helm_operator_plugins.Prelude.{
  Bool-cases, All, ℕ, String, ◌≡◌, refl, ap, ◌↔◌, ◌⊎◌, inl, inr, true, false, Option, none, some,
  List, [], ◌∷◌, arith, eq_iff,
}

-- A status function that says that it changed nothing left the status as it was.
abbrev pub IsHonest : UpdateStatusFunc → Type 0
IsHonest f = (now : ℕ) (st : HelmAppStatus) → (f now st).0 ≡ false → (f now st).1 ≡ st

-- The function of EnsureCondition reports false only if it leaves the status as it was.
pub ensure_condition-IsHonest : (c : Condition) → IsHonest (ensure_condition c)
unfolding ensure_condition
ensure_condition-IsHonest c now st h =
    ap (λ (cs : Conditions). record st { conditions = cs })
      ((set_condition_unchanged now st.conditions c).0 h)

pub ensure_condition_unknown-IsHonest : (t : String) → IsHonest (ensure_condition_unknown t)
unfolding ensure_condition_unknown
ensure_condition_unknown-IsHonest t now st h =
    ap (λ (cs : Conditions). record st { conditions = cs })
      ((set_condition_unchanged now st.conditions (unknown_condition t)).0 h)

pub ensure_deployed_release-IsHonest :
    (rel : Option Release) → IsHonest (ensure_deployed_release rel)
unfolding ensure_deployed_release
ensure_deployed_release-IsHonest rel now st h = ground arith

same_release_refl : (o : Option HelmAppRelease) → is_deployed o o ≡ true
same_release_refl none = refl
same_release_refl (some a) = ground (arith, eq_iff a.name a.name, eq_iff a.manifest a.manifest)

is_deployed_eq : (o p : Option HelmAppRelease) → is_deployed o p ≡ true → o ≡ p
is_deployed_eq none none h = refl
is_deployed_eq none (some b) h = cc
is_deployed_eq (some a) none h = cc
is_deployed_eq (some a) (some b) h =
    ground (arith, eq_iff a.name b.name, eq_iff a.manifest b.manifest)

-- EnsureDeployedRelease leaves the name and the manifest of the release in the status, or no
-- release for nil, and reports a change exactly if the status held something else. The conditions
-- stay.
pub ensure_deployed_release_lem :
    (rel : Option Release) (now : ℕ) (st : HelmAppStatus)
    → ((ensure_deployed_release rel now st).1
        ≡ record st { deployed_release = helm_app_release_for rel })
      × (((ensure_deployed_release rel now st).0 ≡ false)
          ↔ (st.deployed_release ≡ helm_app_release_for rel))
unfolding ensure_deployed_release
ensure_deployed_release_lem rel now st = (
  ground (arith, is_deployed_eq st.deployed_release (helm_app_release_for rel)),
  (
    λ h. is_deployed_eq st.deployed_release (helm_app_release_for rel) (ground arith),
    λ e. rw e (ground (arith, same_release_refl (helm_app_release_for rel))),
  ),
)

abbrev pub AllHonest : List UpdateStatusFunc → Type 0
AllHonest = All IsHonest

-- No function of the list reports a change to the status.
abbrev pub IsIdle : ℕ → HelmAppStatus → List UpdateStatusFunc → Type 0
IsIdle now st [] = Unit
IsIdle now st (f ∷ fs) = ((f now st).0 ≡ false) × IsIdle now st fs

abbrev pub IsIdleOn : Unstructured → List UpdateFunc → Type 0
IsIdleOn obj [] = Unit
IsIdleOn obj (f ∷ fs) = (f obj ≡ (false, obj)) × IsIdleOn obj fs

module _ (k : Cluster) where
  run_status_funcs_idle :
      (fs : List UpdateStatusFunc) (now : ℕ) (st : HelmAppStatus)
      → AllHonest fs
      → IsIdle now st fs
      → run_status_funcs k fs now false st ≡ (false, st)
  unfolding run_status_funcs
  run_status_funcs_idle [] now st honest idle = refl
  run_status_funcs_idle (f ∷ fs) now st (h, honest) (e, idle) =
      rw (e, h now st e) (run_status_funcs_idle fs now st honest idle)

  run_funcs_idle :
      (fs : List UpdateFunc) (obj : Unstructured)
      → IsIdleOn obj fs
      → run_funcs k fs false obj ≡ (false, obj)
  unfolding run_funcs
  run_funcs_idle [] obj idle = refl
  run_funcs_idle (f ∷ fs) obj (e, idle) = rw e (run_funcs_idle fs obj idle)

  write_through_same :
      (held : StatusField) (st : HelmAppStatus)
      → status_in k held ≡ st
      → write_through k held st ≡ held
  write_through_same absent st h = refl
  write_through_same (pointer p) st h = cc
  write_through_same (typed p) st h = refl
  write_through_same (fields m) st h = refl
  write_through_same unknown st h = refl

  apply_quiet :
      (now : ℕ) (u : Updater) (obj : Unstructured) (s : k.State)
      → u.is_canceled ≡ false
      → AllHonest u.update_status_funcs
      → IsIdle now (status_in k obj.status) u.update_status_funcs
      → IsIdleOn obj u.update_funcs
      → apply k now u obj s ≡ ((none, obj), s)
  unfolding apply
  apply_quiet now u obj s live honest idle still = rw live (
      rw (run_status_funcs_idle u.update_status_funcs now (status_in k obj.status) honest idle) (
        rw (write_through_same obj.status (status_in k obj.status) refl)
          (rw (run_funcs_idle u.update_funcs obj still))))

  -- Updates that report no change to the status or to the object make no call to the API, return
  -- no error and leave the object as it was; so do updates that were cancelled, whatever they
  -- report.
  pub apply_idle :
      (now : ℕ) (u : Updater) (obj : Unstructured) (s : k.State)
      → (u.is_canceled ≡ true)
        ⊎ (AllHonest u.update_status_funcs
            × IsIdle now (status_in k obj.status) u.update_status_funcs
            × IsIdleOn obj u.update_funcs)
      → apply k now u obj s ≡ ((none, obj), s)
  unfolding apply
  apply_idle now u obj s (inl canceled) = rw canceled
  apply_idle now u obj s (inr (honest, idle, still)) = elim (Bool-cases u.is_canceled) [
    | inl canceled ↦ rw canceled
    | inr live ↦ apply_quiet now u obj s live honest idle still
  ]
