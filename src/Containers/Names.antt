-- ===== src/Containers/Names.antt =====
-- What pkg/containers/discovery.go reads from the name of a cgroup: a container's ID and its runtime.
pub mod Extract
pub mod Scope
pub mod Nested
use system_agent.Prelude.{
  ℕ, zero, suc, ◌+◌, Bool, true, false, not, ◌&&◌, ◌||◌, List, [], ◌∷◌, Option, none, some, ◌==◌,
  leb, ltb, length, drop, if◌then◌else◌,
}
use system_agent.Prelude.Text.{Str, codes, str_eq, has_prefix, split}
use system_agent.Prelude.Search.{to_lower, has_suffix, trim_suffix, contains_str}

pub data ContainerRuntime : Type 0 where
  unknown docker containerd cri_containerd cri_o podman : ContainerRuntime

-- A chain of tests of which the first that holds decides.
abbrev first_case : {A : Type 0} → List (Bool × A) → A → A
first_case [] otherwise = otherwise
first_case ((b, a) ∷ cases) otherwise = if b then a else first_case cases otherwise

unfoldable pub parse_container_runtime : Str → ContainerRuntime
parse_container_runtime runtime =
    let r = to_lower runtime in
    first_case
      ((str_eq r (codes "docker"), docker)
        ∷ (str_eq r (codes "containerd"), containerd)
        ∷ (str_eq r (codes "cri-containerd"), cri_containerd)
        ∷ (str_eq r (codes "cri-o") || str_eq r (codes "crio"), cri_o)
        ∷ (str_eq r (codes "podman"), podman)
        ∷ [])
      unknown

unfoldable pub detect_runtime_from_path : Str → ContainerRuntime
detect_runtime_from_path path =
    let p = to_lower path in
    first_case
      ((contains_str p (codes "cri-containerd"), cri_containerd)
        ∷ (contains_str p (codes "cri-o") || contains_str p (codes "crio"), cri_o)
        ∷ (contains_str p (codes "docker"), docker)
        ∷ (contains_str p (codes "containerd"), containerd)
        ∷ (contains_str p (codes "podman"), podman)
        ∷ [])
      unknown

abbrev pub min_container_id_length : ℕ
min_container_id_length = 12

abbrev pub is_hex : ℕ → Bool
is_hex c = leb b'0' c && leb c b'9' || leb b'a' c && leb c b'f' || leb b'A' c && leb c b'F'

abbrev pub all_hex : Str → Bool
all_hex [] = true
all_hex (c ∷ s) = is_hex c && all_hex s

-- A rune that is not ASCII is no hexadecimal digit, and neither is a byte of it.
unfoldable pub is_hex_string : Str → Bool
is_hex_string [] = false
is_hex_string (c ∷ s) = all_hex (c ∷ s)

-- strings.LastIndex of a byte
unfoldable pub last_index : Str → ℕ → Option ℕ
last_index [] b = none
last_index (c ∷ s) b = elim (last_index s b) [
  | some i ↦ some (i + 1)
  | none ↦ if c == b then some 0 else none
]

-- strings.SplitN(s, b, 2), where it has two parts
unfoldable pub split_once : Str → ℕ → Option (Str × Str)
split_once [] b = none
split_once (c ∷ s) b =
    let rest = split_once s b in
    if c == b then some ([], s) else elim rest [ none ↦ none | some (l, r) ↦ some (c ∷ l, r) ]

-- The test that the code makes of every ID that it may return.
unfoldable pub valid_id : Str → Option Str
valid_id id = if is_hex_string id && leb min_container_id_length (length id) then some id else none

abbrev pub or_else : Option Str → Option Str → Option Str
or_else (some a) later = some a
or_else none later = later

-- What stands behind the last dash, where that is not the first byte.
unfoldable pub behind_last_dash : Str → Option Str
behind_last_dash s = elim (last_index s b'-') [
  | none ↦ none
  | some i ↦ if ltb 0 i then valid_id (drop (i + 1) s) else none
]

-- The part for scope units.
unfoldable pub scope_id : Str → Option Str
scope_id name =
    if has_suffix name (codes ".scope")
    then (let name_without_scope = trim_suffix name (codes ".scope") in
        or_else
          (if has_prefix name_without_scope (codes "cri-")
            then behind_last_dash name_without_scope
            else none)
          (elim (split_once name_without_scope b'-') [
            | none ↦ none
            | some (_, id) ↦ or_else (valid_id id) (behind_last_dash id)
          ]))
    else none

abbrev pub is_runtime_directory : Str → Bool
is_runtime_directory part =
    str_eq part (codes "docker")
    || str_eq part (codes "containerd")
    || str_eq part (codes "crio")
    || str_eq part (codes "podman")

-- The loop over the parts of the path.
unfoldable pub directory_id : List Str → Option Str
directory_id [] = none
directory_id (part ∷ []) = none
directory_id (part ∷ id ∷ parts) =
    or_else (if is_runtime_directory part then valid_id id else none) (directory_id (id ∷ parts))

abbrev pub last_part : List Str → Str
last_part [] = []
last_part (part ∷ []) = part
last_part (part ∷ next ∷ parts) = last_part (next ∷ parts)

-- `none` is the empty string.
unfoldable pub extract_container_id : Str → Option Str
extract_container_id name =
    let parts = split name b'/' in
    or_else (scope_id name)
      (or_else (directory_id parts) (or_else (valid_id (last_part parts)) (valid_id name)))
