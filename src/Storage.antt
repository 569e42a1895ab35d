-- ===== src/Storage.antt =====
-- pkg/storage: a helm storage driver that keeps a release in one index secret and, past the first
-- chunk, in chunk secrets. This file has the data and what the driver takes from outside: the
-- secrets API, gzip, JSON and the matching of label selectors.
pub mod Labels
pub mod Hash
pub mod Chunks
pub mod Api
pub mod Memory
pub mod Driver
use helm_operator_plugins.Object.{OwnerReference}
use helm_operator_plugins.Exec.{Exec}
use helm_operator_plugins.Release.{Release}
use helm_operator_plugins.Prelude.{Dict, Error, Result, ℕ, String, Bool, Option, List}

abbrev pub Bytes : Type 0
Bytes = List ℕ

-- corev1.Secret; `payload` is its `Data`.
pub record Secret : Type 0 where
  pub type : String
  pub name : String
  pub uid : String
  pub labels : Dict String
  pub owner_references : List OwnerReference
  pub immutable : Bool
  pub payload : Dict Bytes

-- clientcorev1.SecretInterface. A selector is the label set that it was made from.
pub record SecretInterface : Type 1 where
  pub State : Type 0
  pub create : Secret → Exec State Secret
  pub get : String → Exec State Secret
  pub update : Secret → Exec State Secret
  pub delete_collection : Dict String → Exec State (Unit {0})
  pub list : Dict String → Exec State (List Secret)

pub record ReleaseWrapper : Type 0 where
  pub release : Release
  pub labels : Dict String

unfoldable pub wrap_release : Release → ReleaseWrapper
wrap_release rls = record { release = rls; labels = rls.labels }

-- What a pipe delivers: the bytes written before it was closed, and the error that closed it.
pub record Stream : Type 0 where
  pub bytes : Bytes
  pub failure : Option Error

-- compress/gzip over encoding/json, encoding/json for names, and labels.Selector.Matches.
pub record Codec : Type 1 where
  pub Reader : Type 0
  pub encode : ReleaseWrapper → Result Bytes
  pub new_reader : Stream → Result Reader
  pub decode : Reader → Result ReleaseWrapper
  pub marshal_names : List String → Bytes
  pub unmarshal_names : Bytes → Result (List String)
  pub matches : Dict String → Dict String → Bool

pub record ChunkedSecretsConfig : Type 0 where
  pub chunk_size : ℕ
  pub max_read_chunks : ℕ
  pub max_write_chunks : ℕ

pub record ChunkedSecrets : Type 0 where
  pub owner : String
  pub config : ChunkedSecretsConfig
