-- ===== src/Storage/Api.antt =====
-- What a secrets API that fails only for the documented reasons does, seen through a map from
-- names to secrets, and what gzip and JSON promise for one release.
use helm_operator_plugins.Storage.{Bytes, Secret, SecretInterface, ReleaseWrapper, Codec}
use helm_operator_plugins.Prelude.{
  if◌then◌else◌, Dict, lookup, not_found, already_exists, Error, ok, err, String, ◌≡◌, Bool, true,
  false, ◌&&◌, Option, none, some, [], ◌∷◌, ◌==◌,
}

-- labels.Selector.Matches, for a selector made from a label set
abbrev pub all_match : Dict String → Dict String → Bool
all_match [] labels = true
all_match ((k, v) ∷ sel) labels =
    (elim (lookup k labels) [ none ↦ false | some w ↦ w == v ]) && all_match sel labels

abbrev pub unless : Bool → Option Secret → Option Secret
unless true o = none
unless false o = o

abbrev pub surviving : Dict String → Option Secret → Option Secret
surviving sel none = none
surviving sel (some x) = unless (all_match sel x.labels) (some x)

pub record HealthyApi (api : SecretInterface) : Type 0 where
  pub find : api.State → String → Option Secret
  pub get_missing :
      (n : String) (s : api.State) → find s n ≡ none → api.get n s ≡ (err (Error.api not_found), s)
  pub get_found :
      (n : String) (s : api.State) (x : Secret) → find s n ≡ some x → api.get n s ≡ (ok x, s)
  pub create_taken :
      (x y : Secret) (s : api.State)
      → find s x.name ≡ some y
      → api.create x s ≡ (err (Error.api already_exists), s)
  pub create_free :
      (x : Secret) (s : api.State)
      → find s x.name ≡ none
      → (y : Secret) × (t : api.State) × (api.create x s ≡ (ok y, t))
        × (y ≡ record x { uid = y.uid })
        × ((n : String) → find t n ≡ (if x.name == n then some y else find s n))
  pub update_found :
      (x y : Secret) (s : api.State)
      → find s x.name ≡ some y
      → (z : Secret) × (t : api.State) × (api.update x s ≡ (ok z, t))
        × (z ≡ record x { uid = z.uid })
        × ((n : String) → find t n ≡ (if x.name == n then some z else find s n))
  pub deleted :
      (sel : Dict String) (s : api.State)
      → (t : api.State) × (api.delete_collection sel s ≡ (ok tt, t))
        × ((n : String) → find t n ≡ surviving sel (find s n))

-- JSON leaves out the labels of a release (`json:"-"`), which the wrapper carries beside it.
pub record DecodesBack (codec : Codec) (w : ReleaseWrapper) : Type 0 where
  pub decodes :
      (d : Bytes)
      → codec.encode w ≡ ok d
      → (r : codec.Reader) × (codec.new_reader (record { bytes = d; failure = none }) ≡ ok r)
        × (codec.decode r
            ≡ ok (record { release = record (w.release) { labels = [] }; labels = w.labels }))
