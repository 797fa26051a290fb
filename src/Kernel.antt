-- ===== src/Kernel.antt =====
-- pkg/kernel/version.go: kernel versions, parsed and compared. Error texts are not modelled.
pub mod Order
pub mod Parse
mod Tests
use system_agent.Prelude.{
  ℕ, ◌^◌, Bool, true, false, List, [], ◌∷◌, Option, none, some, ◌&&◌, ◌≡◌, refl, not, if◌then◌else◌,
}
use system_agent.Prelude.Int.{ℤ, pos, negsuc, ltb_ℤ, eqb_ℤ}
use system_agent.Prelude.Text.{Str, codes, before, split, atoi, fields, has_prefix}
use system_agent.Prelude.Result.{Result, ok, err, ◌>>=◌}

pub record Version : Type 0 where
  pub major : ℤ
  pub minor : ℤ
  pub patch : ℤ
  pub raw : Str

pub data Error : Type 0 where
  unreadable unexpected_format invalid_format invalid_major invalid_minor : Error

number : Str → Error → Result Error ℤ
number s e = elim (atoi s) [ none ↦ err e | some n ↦ ok n ]

-- The third part, where there is one; a part that is no number counts as 0.
patch_of : List Str → ℤ
patch_of [] = pos 0
patch_of (p ∷ ps) = elim (atoi p) [ none ↦ pos 0 | some n ↦ n ]

-- What follows the check of the number of parts.
parse_parts : Str → List Str → Result Error Version
unfolding patch_of number
parse_parts raw [] = err invalid_format
parse_parts raw (p ∷ []) = err invalid_format
parse_parts raw (p ∷ q ∷ rest) = do
  major ← number p invalid_major
  minor ← number q invalid_minor
  ok (record { major = major; minor = minor; patch = patch_of rest; raw = raw })

-- The suffix from the first '-' on is cut off before the split.
unfoldable pub parse_version : Str → Result Error Version
unfolding parse_parts
parse_version version = parse_parts version (split (before version b'-') b'.')

third : List Str → Result Error Version
third (a ∷ b ∷ c ∷ rest) = parse_version c
third _ = err unexpected_format

-- The argument is what os.ReadFile returns for /proc/version, `none` for its error.
unfoldable pub get_current_version : Option Str → Result Error Version
unfolding third
get_current_version none = err unreadable
get_current_version (some text) = third (fields text)

unfoldable pub is_at_least : Version → ℤ → ℤ → Bool
is_at_least v major minor =
    if ltb_ℤ major v.major
    then true
    else if eqb_ℤ v.major major && not (ltb_ℤ v.minor minor)
    then true
    else false

unfoldable pub compare_versions : Version → Version → ℤ
compare_versions v other =
    if not (eqb_ℤ v.major other.major)
    then (if ltb_ℤ v.major other.major then negsuc 0 else pos 1)
    else if not (eqb_ℤ v.minor other.minor)
    then (if ltb_ℤ v.minor other.minor then negsuc 0 else pos 1)
    else if not (eqb_ℤ v.patch other.patch)
    then (if ltb_ℤ v.patch other.patch then negsuc 0 else pos 1)
    else pos 0

unfoldable pub is_pressure_file : Str → Bool
is_pressure_file path = has_prefix path (codes "/proc/pressure/")
