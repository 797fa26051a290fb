-- ===== src/Kernel/Parse.antt =====
-- What `ParseVersion` accepts.
use mathlib.Core.Path.{subst}
use system_agent.Prelude.{
  ℕ, ◌^◌, ◌<◌, ◌≡◌, refl, false, List, [], ◌∷◌, some, Option-cases, inl, inr, arith,
}
use system_agent.Prelude.Int.{ℤ, pos}
use system_agent.Prelude.Text.{
  Str, before, contains, split, atoi, parse_int-nonneg, parse_int-Fits, contains-before, AllLack,
  split-AllLack,
}
use system_agent.Prelude.Result.{ok, >>=-eq-ok, ok-injective}
use system_agent.Kernel.{
  Version, parse_version, parse_parts, patch_of, number, Error, invalid_major, invalid_minor,
}

abbrev pub IsCount : ℤ → Type 0
IsCount z = (n : ℕ) × (z ≡ pos n) × (n < 2 ^ 63)

-- A text without '-' gives no negative number.
atoi-IsCount : (s : Str) (z : ℤ) → contains s b'-' ≡ false → atoi s ≡ some z → IsCount z
unfolding atoi
atoi-IsCount s z h e =
    let (n, p) = parse_int-nonneg (2 ^ 63) s z h e in
    (n, p, rw p at (parse_int-Fits (2 ^ 63) s z (omega arith) e))

patch_of-IsCount : (ps : List Str) → AllLack b'-' ps → IsCount (patch_of ps)
unfolding patch_of
patch_of-IsCount [] l = (0, refl, omega arith)
patch_of-IsCount (p ∷ ps) l = elim (Option-cases (atoi p)) [
  | inl e ↦ rw (e, patch_of) (0, refl, omega arith)
  | inr (z, e) ↦ rw (e, patch_of) (atoi-IsCount p z l.0 e)
]

number-IsCount :
    (s : Str) (e : Error) (z : ℤ) → contains s b'-' ≡ false → number s e ≡ ok z → IsCount z
unfolding number
number-IsCount s e z l h = atoi-IsCount s z l (ground arith)

parse_parts-IsCount :
    (raw : Str) (ps : List Str) (v : Version)
    → AllLack b'-' ps
    → parse_parts raw ps ≡ ok v
    → IsCount v.major × IsCount v.minor × IsCount v.patch
parse_parts-IsCount raw [] v l h = unfold parse_parts in cc
parse_parts-IsCount raw (p ∷ []) v l h = unfold parse_parts in cc
parse_parts-IsCount raw (p ∷ q ∷ rest) v l h =
    unfold parse_parts in
    let (major, e, h') = >>=-eq-ok (number p invalid_major) _ h in
    let (minor, f, g) = >>=-eq-ok (number q invalid_minor) _ h' in
    subst (λ r. IsCount r.major × IsCount r.minor × IsCount r.patch) (ok-injective g)
      (
        number-IsCount p invalid_major major l.0 e,
        number-IsCount q invalid_minor minor l.1.0 f,
        patch_of-IsCount rest l.1.1,
      )

-- The three numbers of a version that `ParseVersion` accepts are never negative, and fit an int64:
-- what stands behind the first '-' is gone before the numbers are read.
pub parse_version-IsCount :
    (s : Str) (v : Version)
    → parse_version s ≡ ok v
    → IsCount v.major × IsCount v.minor × IsCount v.patch
unfolding parse_version
parse_version-IsCount s v h =
    parse_parts-IsCount s (split (before s b'-') b'.') v
      (split-AllLack (before s b'-') b'.' b'-' (contains-before s b'-')) h
