-- ===== src/Prelude/Errors.antt =====
-- Go errors. An API status error has a reason; `fmt.Errorf` with `%w` wraps and keeps the cause
-- visible to `errors.Is` and to the `apierrors` tests; with `%v` it makes a new, opaque error.
-- A message is the literal text of the format; the arguments that it prints are left out. A panic
-- ends the call as an error does, and no caller recovers from it.
use mathlib.Core.Path.{◌≡◌, refl}
use mathlib.Core.Logic.{◌⊎◌, inl, inr}
use mathlib.Core.Bool.{Bool, true, false}
use mathlib.Core.Option.{Option, none, some}
use Prim.Native.String.{String}

-- `metav1.StatusReason`, as far as the program asks for it.
pub data Reason : Type 0 where
  not_found conflict already_exists other : Reason

pub data Error : Type 0 where
  api : Reason → Error
  release_not_found release_exists : Error
  message : String → Error
  wrap : String → Error → Error
  panic : String → Error

pub data Result {ℓ} (A : Type ℓ) : Type ℓ where
  ok : A → Result A
  err : Error → Result A

-- apierrors.IsNotFound
unfoldable pub is_not_found : Error → Bool
is_not_found (api not_found) = true
is_not_found (wrap _ e) = is_not_found e
is_not_found _ = false

-- apierrors.IsConflict
unfoldable pub is_conflict : Error → Bool
is_conflict (api conflict) = true
is_conflict (wrap _ e) = is_conflict e
is_conflict _ = false

-- apierrors.IsAlreadyExists
unfoldable pub is_already_exists : Error → Bool
is_already_exists (api already_exists) = true
is_already_exists (wrap _ e) = is_already_exists e
is_already_exists _ = false

-- errors.Is(err, driver.ErrReleaseNotFound)
unfoldable pub is_release_not_found : Error → Bool
is_release_not_found release_not_found = true
is_release_not_found (wrap _ e) = is_release_not_found e
is_release_not_found _ = false

-- A test of an `error` that may be nil.
abbrev pub holds_for : (Error → Bool) → Option Error → Bool
holds_for test none = false
holds_for test (some e) = test e

pub Result-cases {ℓ} :
    {A : Type ℓ} (r : Result A) → ((a : A) × (r ≡ ok a)) ⊎ ((e : Error) × (r ≡ err e))
Result-cases (ok a) = inl (a, refl)
Result-cases (err e) = inr (e, refl)
