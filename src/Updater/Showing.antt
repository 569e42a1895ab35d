-- ===== src/Updater/Showing.antt =====
-- What the conditions of a status show after a list of status functions has run.
use helm_operator_plugins.Status.{condition_unknown, Condition, get_condition}
use helm_operator_plugins.Status.Setting.{stamp, settled, get_condition-set_condition}
use helm_operator_plugins.Object.{HelmAppStatus}
use helm_operator_plugins.Cluster.{Cluster}
use helm_operator_plugins.Updater.{
  UpdateStatusFunc, ensure_condition, unknown_condition, ensure_condition_unknown,
  helm_app_release_for, ensure_deployed_release, run_status_funcs,
}
use helm_operator_plugins.Updater.Applying.{ensure_deployed_release_lem}
use helm_operator_plugins.Release.{Release}
use helm_operator_plugins.Prelude.{
  if◌then◌else◌, ℕ, String, ◌≡◌, refl, Bool, false, Option, none, some, List, [], ◌∷◌, ◌++◌, arith,
  ◌==◌,
}

-- The status that is shown for a condition type, if any.
abbrev pub status_text : Option Condition → Option String
status_text none = none
status_text (some c) = some c.status

abbrev pub shown : HelmAppStatus → String → Option String
shown st t = status_text (get_condition st.conditions t)

status-settled : (o : Option Condition) (c : Condition) → (settled o c).status ≡ c.status
status-settled none c = refl
status-settled (some d) c = ground arith

pub shown-ensure_condition :
    (c : Condition) (now : ℕ) (st : HelmAppStatus) (t : String)
    → shown (ensure_condition c now st).1 t ≡ (if c.type == t then some c.status else shown st t)
unfolding ensure_condition
shown-ensure_condition c now st t =
    rw (get_condition-set_condition now st.conditions c t)
      (ground (arith, status-settled (get_condition st.conditions c.type) (stamp now c)))

pub shown-ensure_condition_unknown :
    (u : String) (now : ℕ) (st : HelmAppStatus) (t : String)
    → shown (ensure_condition_unknown u now st).1 t
      ≡ (if u == t then some condition_unknown else shown st t)
unfolding ensure_condition_unknown
shown-ensure_condition_unknown u now st t =
    rw (get_condition-set_condition now st.conditions (unknown_condition u) t) (
      ground
        (arith, status-settled (get_condition st.conditions u) (stamp now (unknown_condition u))))

pub shown-ensure_deployed_release :
    (rel : Option Release) (now : ℕ) (st : HelmAppStatus) (t : String)
    → shown (ensure_deployed_release rel now st).1 t ≡ shown st t
shown-ensure_deployed_release rel now st t = rw ((ensure_deployed_release_lem rel now st).0)

pub release-ensure_condition :
    (c : Condition) (now : ℕ) (st : HelmAppStatus)
    → (ensure_condition c now st).1.deployed_release ≡ st.deployed_release
unfolding ensure_condition
release-ensure_condition c now st = refl

pub release-ensure_condition_unknown :
    (t : String) (now : ℕ) (st : HelmAppStatus)
    → (ensure_condition_unknown t now st).1.deployed_release ≡ st.deployed_release
unfolding ensure_condition_unknown
release-ensure_condition_unknown t now st = refl

pub release-ensure_deployed_release :
    (rel : Option Release) (now : ℕ) (st : HelmAppStatus)
    → (ensure_deployed_release rel now st).1.deployed_release ≡ helm_app_release_for rel
release-ensure_deployed_release rel now st = rw ((ensure_deployed_release_lem rel now st).0)

pub ruleset showing = (
  shown-ensure_condition, shown-ensure_condition_unknown, shown-ensure_deployed_release,
  release-ensure_condition, release-ensure_condition_unknown, release-ensure_deployed_release,
)

-- The status after the functions have run on it.
abbrev pub after : Cluster → List UpdateStatusFunc → ℕ → HelmAppStatus → HelmAppStatus
after k fs now st = (run_status_funcs k fs now false st).1

module _ (k : Cluster) where
  flag_irrelevant :
      (fs : List UpdateStatusFunc) (now : ℕ) (b c : Bool) (st : HelmAppStatus)
      → (run_status_funcs k fs now b st).1 ≡ (run_status_funcs k fs now c st).1
  unfolding run_status_funcs
  flag_irrelevant [] now b c st = refl
  flag_irrelevant (f ∷ fs) now b c st = flag_irrelevant fs now _ _ (f now st).1

  pub after-cons :
      (f : UpdateStatusFunc) (fs : List UpdateStatusFunc) (now : ℕ) (st : HelmAppStatus)
      → after k (f ∷ fs) now st ≡ after k fs now (f now st).1
  unfolding run_status_funcs
  after-cons f fs now st = flag_irrelevant fs now _ false (f now st).1

  pub after-nil : (now : ℕ) (st : HelmAppStatus) → after k [] now st ≡ st
  unfolding run_status_funcs
  after-nil now st = refl

  pub after-append :
      (fs gs : List UpdateStatusFunc) (now : ℕ) (st : HelmAppStatus)
      → after k (fs ++ gs) now st ≡ after k gs now (after k fs now st)
  after-append [] gs now st = rw after-nil
  after-append (f ∷ fs) gs now st =
      rw (after-cons, after-cons f fs now st) (after-append fs gs now (f now st).1)
