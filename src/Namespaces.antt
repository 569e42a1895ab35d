-- ===== src/Namespaces.antt =====
-- pkg/manager/namespace.go: the namespaces that the cache of the manager is restricted to.
pub mod Joined
mod Examples
use Prim.Native.Char.{Char, code}
use Prim.Native.Nat.{compare, Ordering}
use Prim.Native.String
use helm_operator_plugins.Flags.{ManagerOptions}
use helm_operator_plugins.Prelude.{
  leb, if◌then◌else◌, Dict, insert, is_code, split, String, Bool, ◌&&◌, ◌||◌, none, some, List, [],
  ◌∷◌, ◌==◌,
}

-- unicode.IsSpace
unfoldable pub is_space : Char → Bool
is_space c =
    (leb 9 (code c) && leb (code c) 13)
    || is_code 32 c
    || is_code 0x85 c
    || is_code 0xA0 c
    || is_code 0x1680 c
    || (leb 0x2000 (code c) && leb (code c) 0x200A)
    || is_code 0x2028 c
    || is_code 0x2029 c
    || is_code 0x202F c
    || is_code 0x205F c
    || is_code 0x3000 c

unfoldable pub trim_left : String → String
unfolding is_space
trim_left String.[] = ""
trim_left (String.◌∷◌ c s) = let rest = trim_left s in if is_space c then rest else String.◌∷◌ c s

unfoldable pub trim_right : String → String
unfolding is_space
trim_right String.[] = ""
trim_right (String.◌∷◌ c s) =
    let rest = trim_right s in if is_space c && rest == "" then "" else String.◌∷◌ c rest

-- strings.TrimSpace
unfoldable pub trim_space : String → String
unfolding trim_left trim_right
trim_space s = trim_right (trim_left s)

-- The loop of splitNamespaces.
unfoldable pub non_blank : List String → List String
unfolding trim_space
non_blank [] = []
non_blank (ns ∷ list) =
    let out = non_blank list in if trim_space ns == "" then out else trim_space ns ∷ out

unfoldable pub split_namespaces : String → List String
unfolding split non_blank
split_namespaces namespaces = non_blank (split 44 namespaces)

-- The map of cache configurations, which are all the empty one.
unfoldable pub namespace_configs : List String → Dict (Unit {0}) → Dict (Unit {0})
namespace_configs [] m = m
namespace_configs (ns ∷ list) m = namespace_configs list (insert ns tt m)

-- `env` is the value of WATCH_NAMESPACE, empty if it is not set.
unfoldable pub configure_watch_namespaces : String → ManagerOptions → ManagerOptions
unfolding split_namespaces namespace_configs
configure_watch_namespaces env options = elim (split_namespaces env) [
  | [] ↦ record options { default_namespaces = none }
  | ns ∷ list ↦ record options { default_namespaces = some (namespace_configs (ns ∷ list) []) }
]
