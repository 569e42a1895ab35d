-- ===== src/Release.antt =====
-- The helm release, as far as the program reads or writes it (helm.sh/helm/v3/pkg/release).
use helm_operator_plugins.Prelude.{Dict, ℕ, String, Option}

pub record Info : Type 0 where
  pub status : String
  pub notes : String

pub record Release : Type 0 where
  pub name : String
  pub version : ℕ
  pub manifest : String
  pub info : Option Info
  pub labels : Dict String

abbrev pub status_failed : String
status_failed = "failed"

abbrev pub status_superseded : String
status_superseded = "superseded"
