-- ===== src/Containers/Names/Extract.antt =====
-- What an extracted container ID is, and the names from which one is extracted.
use system_agent.Prelude.{
  ℕ, ◌+◌, ◌≤◌, Bool, true, false, ◌&&◌, List, [], ◌∷◌, Option, none, some, Bool-cases, leb, leb→le,
  ltb, length, drop, if◌then◌else◌, ◌≡◌, inl, inr, refl, arith,
}
use system_agent.Prelude.Text.{Str, codes, has_prefix, split}
use system_agent.Prelude.Search.{has_suffix, trim_suffix}
use system_agent.Containers.Names.{
  all_hex, is_hex_string, last_index, split_once, valid_id, or_else, behind_last_dash, scope_id,
  is_runtime_directory, directory_id, last_part, extract_container_id,
}

-- At least twelve hexadecimal digits.
pub record IsContainerId (id : Str) : Type 0 where
  pub hex : all_hex id ≡ true
  pub long : 12 ≤ length id

-- What a step of the extraction finds is an ID.
abbrev pub Sound : Option Str → Type 0
Sound none = Unit
Sound (some id) = IsContainerId id

and_parts : (a b : Bool) → (a && b) ≡ true → (a ≡ true) × (b ≡ true)
and_parts true true e = (refl, refl)
and_parts true false e = absurd cc
and_parts false b e = absurd cc

valid_id-Sound : (id : Str) → Sound (valid_id id)
unfolding valid_id is_hex_string
valid_id-Sound [] = tt
valid_id-Sound (c ∷ s) = elim (Bool-cases (all_hex (c ∷ s) && leb 12 (length (c ∷ s)))) [
  | inl e ↦
      rw (e, valid_id)
        (let (h, l) = and_parts _ _ e in record { hex = h; long = leb→le 12 (length (c ∷ s)) l })
  | inr e ↦ rw (e, valid_id) tt
]

pub le→leb : (a b : ℕ) → a ≤ b → leb a b ≡ true
le→leb a b h = ground arith

pub valid_id-accepts : (id : Str) → IsContainerId id → valid_id id ≡ some id
unfolding valid_id is_hex_string
valid_id-accepts [] v = absurd (omega (arith, v.long))
valid_id-accepts (c ∷ s) v = rw (v.hex, le→leb 12 (length (c ∷ s)) v.long) refl

or_else-Sound : (a b : Option Str) → Sound a → Sound b → Sound (or_else a b)
or_else-Sound none b p q = q
or_else-Sound (some id) b p q = p

if-Sound : (b : Bool) (o : Option Str) → Sound o → Sound (if b then o else none)
if-Sound true o p = p
if-Sound false o p = tt

behind_last_dash-Sound : (s : Str) → Sound (behind_last_dash s)
unfolding behind_last_dash
behind_last_dash-Sound s = found (last_index s b'-')
  where
    found :
        (o : Option ℕ)
        → Sound
            (elim o [ none ↦ none | some i ↦ if ltb 0 i then valid_id (drop (i + 1) s) else none ])
    found none = tt
    found (some i) = if-Sound (ltb 0 i) _ (valid_id-Sound (drop (i + 1) s))

scope_id-Sound : (name : Str) → Sound (scope_id name)
unfolding scope_id
scope_id-Sound name =
    let base = trim_suffix name (codes ".scope") in
    if-Sound (has_suffix name (codes ".scope")) _ (
      or_else-Sound _ _ (if-Sound (has_prefix base (codes "cri-")) _ (behind_last_dash-Sound base))
        (found (split_once base b'-')))
  where
    found :
        (o : Option (Str × Str))
        → Sound
            (elim o [ none ↦ none | some (_, id) ↦ or_else (valid_id id) (behind_last_dash id) ])
    found none = tt
    found (some (l, id)) = or_else-Sound _ _ (valid_id-Sound id) (behind_last_dash-Sound id)

directory_id-Sound : (parts : List Str) → Sound (directory_id parts)
unfolding directory_id
directory_id-Sound [] = tt
directory_id-Sound (part ∷ []) = tt
directory_id-Sound (part ∷ id ∷ parts) =
    or_else-Sound _ _ (if-Sound (is_runtime_directory part) _ (valid_id-Sound id))
      (directory_id-Sound (id ∷ parts))

-- Whatever the name of a cgroup: what is extracted from it is at least twelve hexadecimal digits.
pub extract_container_id-Sound : (name : Str) → Sound (extract_container_id name)
unfolding extract_container_id
extract_container_id-Sound name = or_else-Sound _ _ (scope_id-Sound name) (
    or_else-Sound _ _ (directory_id-Sound (split name b'/'))
      (or_else-Sound _ _ (valid_id-Sound (last_part (split name b'/'))) (valid_id-Sound name)))
