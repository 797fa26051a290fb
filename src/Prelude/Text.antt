-- ===== src/Prelude/Text.antt =====
-- Go strings and byte slices as lists of bytes: equality, and the functions of the packages
-- strings and strconv that the agent calls. White space and digits are those of ASCII.
pub mod Columns
use Prim.Native.Char.{code}
use Prim.Native.String.{String}
use Prim.Native.Nat.{ℕ, zero, suc, ◌+◌, ◌-◌, ◌*◌, ◌^◌, ◌≤◌, ◌<◌}
use mathlib.Core.Path.{◌≡◌, refl}
use mathlib.Core.Logic.{◌↔◌, inl, inr}
use mathlib.Core.Bool.{Bool, true, false, ◌&&◌, ◌||◌}
use mathlib.Core.List.{List, [], ◌∷◌, ◌++◌, reverse, reverse-cons}
use mathlib.Core.Option.{Option, none, some}
use native.Mathlib.Omega.{arith}
use system_agent.Prelude.Tests.{◌==◌, ltb, leb, Bool-cases, if◌then◌else◌}
use system_agent.Prelude.Int.{ℤ, pos, negsuc}

abbrev pub Str : Type 0
Str = List ℕ

-- The bytes of an ASCII literal.
abbrev pub codes : String → Str
codes String.[] = []
codes (String.◌∷◌ c s) = code c ∷ codes s

unfoldable pub str_eq : Str → Str → Bool
str_eq [] [] = true
str_eq [] (b ∷ bs) = false
str_eq (a ∷ s) [] = false
str_eq (a ∷ s) (b ∷ bs) = a == b && str_eq s bs

pub eq_of_str_eq : (s t : Str) → str_eq s t ≡ true → s ≡ t
unfolding str_eq
eq_of_str_eq [] [] h = refl
eq_of_str_eq [] (b ∷ bs) h = cc
eq_of_str_eq (a ∷ s) [] h = cc
eq_of_str_eq (a ∷ s) (b ∷ bs) h = ground (arith, eq_of_str_eq s bs)

pub str_eq_refl : (s : Str) → str_eq s s ≡ true
unfolding str_eq
str_eq_refl [] = refl
str_eq_refl (a ∷ s) = ground (arith, str_eq_refl s)

pub str_eq_iff : (s t : Str) → (str_eq s t ≡ true) ↔ (s ≡ t)
str_eq_iff s t = (eq_of_str_eq s t, λ e. rw e (str_eq_refl t))

-- strings.HasPrefix
unfoldable pub has_prefix : Str → Str → Bool
has_prefix s [] = true
has_prefix [] (p ∷ ps) = false
has_prefix (c ∷ s) (p ∷ ps) = c == p && has_prefix s ps

-- strings.TrimPrefix
unfoldable pub trim_prefix : Str → Str → Str
trim_prefix s p = elim (has_prefix s p) [ true ↦ cut s p | false ↦ s ]
  where
    cut : Str → Str → Str
    cut s [] = s
    cut [] (p ∷ ps) = []
    cut (c ∷ s) (p ∷ ps) = cut s ps

abbrev pub is_space : ℕ → Bool
is_space c = c == 32 || (leb 9 c && leb c 13)

drop_space : Str → Str
drop_space [] = []
drop_space (c ∷ s) = if is_space c then drop_space s else c ∷ s

-- strings.TrimSpace
unfoldable pub trim_space : Str → Str
unfolding drop_space
trim_space s = reverse (drop_space (reverse (drop_space s)))

-- strings.Contains, for a text of one byte.
unfoldable pub contains : Str → ℕ → Bool
contains [] b = false
contains (c ∷ s) b = c == b || contains s b

-- What stands before the first `b`: `s[:strings.Index(s, b)]`, or `s` where the index is -1.
unfoldable pub before : Str → ℕ → Str
before [] b = []
before (c ∷ s) b = if c == b then [] else c ∷ before s b

-- `c` in front of the first part.
abbrev pub onto_first : ℕ → List Str → List Str
onto_first c [] = (c ∷ []) ∷ []
onto_first c (p ∷ ps) = (c ∷ p) ∷ ps

-- strings.Split, for a separator of one byte.
unfoldable pub split : Str → ℕ → List Str
split [] b = [] ∷ []
split (c ∷ s) b = let rest = split s b in if c == b then [] ∷ rest else onto_first c rest

-- The digits of strconv.ParseUint in base 10.
digits : Str → ℕ → Option ℕ
digits [] n = some n
digits (c ∷ s) n =
    let rest = digits s (n * 10 + (c - b'0')) in if leb b'0' c && leb c b'9' then rest else none

parse_uint : Str → Option ℕ
unfolding digits
parse_uint [] = none
parse_uint (c ∷ s) = digits (c ∷ s) 0

-- A sign and a magnitude below the cutoff 2^(bits - 1); -2^(bits - 1) is in range too.
in_range : ℕ → Bool → Option ℕ → Option ℤ
in_range cutoff neg none = none
in_range cutoff false (some n) = if leb cutoff n then none else some (pos n)
in_range cutoff true (some zero) = some (pos 0)
in_range cutoff true (some (suc n)) = if ltb cutoff (suc n) then none else some (negsuc n)

-- strconv.ParseInt(s, 10, bits), with the cutoff in place of the bits.
unfoldable pub parse_int : ℕ → Str → Option ℤ
unfolding in_range parse_uint
parse_int cutoff [] = none
parse_int cutoff (c ∷ s) =
    if c == b'+'
    then in_range cutoff false (parse_uint s)
    else if c == b'-'
    then in_range cutoff true (parse_uint s)
    else in_range cutoff false (parse_uint (c ∷ s))

-- strconv.Atoi: an `int` has 64 bits.
unfoldable pub atoi : Str → Option ℤ
unfolding parse_int
atoi = parse_int (2 ^ 63)

-- An accepted number lies within the width.
abbrev pub Fits : ℕ → ℤ → Type 0
Fits cutoff (pos n) = n < cutoff
Fits cutoff (negsuc n) = suc n ≤ cutoff

in_range-Fits :
    (cutoff : ℕ) (neg : Bool) (o : Option ℕ) (z : ℤ)
    → 0 < cutoff
    → in_range cutoff neg o ≡ some z
    → Fits cutoff z
unfolding in_range
in_range-Fits cutoff neg none z p h = cc
in_range-Fits cutoff false (some n) (pos m) p h = ground arith
in_range-Fits cutoff false (some n) (negsuc m) p h = ground arith
in_range-Fits cutoff true (some zero) (pos m) p h = ground arith
in_range-Fits cutoff true (some zero) (negsuc m) p h = ground arith
in_range-Fits cutoff true (some (suc n)) (pos m) p h = ground arith
in_range-Fits cutoff true (some (suc n)) (negsuc m) p h = ground arith

pub parse_int-Fits :
    (cutoff : ℕ) (s : Str) (z : ℤ) → 0 < cutoff → parse_int cutoff s ≡ some z → Fits cutoff z
unfolding parse_int
parse_int-Fits cutoff [] z p h = cc
parse_int-Fits cutoff (c ∷ s) z p h = elim (Bool-cases (c == b'+')) [
  | inl plus ↦ in_range-Fits cutoff false (parse_uint s) z p (rw plus at h)
  | inr other ↦ elim (Bool-cases (c == b'-')) [
    | inl minus ↦ in_range-Fits cutoff true (parse_uint s) z p (rw (other, minus) at h)
    | inr digit ↦ in_range-Fits cutoff false (parse_uint (c ∷ s)) z p (rw (other, digit) at h)
  ]
]

-- A number is negative only behind a minus sign.
pub parse_int-nonneg :
    (cutoff : ℕ) (s : Str) (z : ℤ)
    → contains s b'-' ≡ false
    → parse_int cutoff s ≡ some z
    → (n : ℕ) × (z ≡ pos n)
unfolding parse_int contains in_range
parse_int-nonneg cutoff [] z h e = cc
parse_int-nonneg cutoff (c ∷ s) (pos n) h e = (n, refl)
parse_int-nonneg cutoff (c ∷ s) (negsuc n) h e = absurd (ground (arith))

-- The parts of a text without a byte are without it.
abbrev pub AllLack : ℕ → List Str → Type 0
AllLack b [] = Unit
AllLack b (p ∷ ps) = (contains p b ≡ false) × AllLack b ps

onto_first-AllLack :
    (b c : ℕ) (ps : List Str) → (c == b) ≡ false → AllLack b ps → AllLack b (onto_first c ps)
unfolding contains
onto_first-AllLack b c [] h l = ground arith
onto_first-AllLack b c (p ∷ ps) h l = ground arith

pub split-AllLack : (s : Str) (sep b : ℕ) → contains s b ≡ false → AllLack b (split s sep)
unfolding split contains
split-AllLack [] sep b h = (refl, tt)
split-AllLack (c ∷ s) sep b h = elim (Bool-cases (c == sep)) [
  | inl e ↦ rw e (refl, split-AllLack s sep b (ground arith))
  | inr e ↦
      rw e
        (onto_first-AllLack b c (split s sep) (ground arith) (split-AllLack s sep b (ground arith)))
]

pub contains-before : (s : Str) (b : ℕ) → contains (before s b) b ≡ false
unfolding contains before
contains-before [] b = refl
contains-before (c ∷ s) b = ground (arith, contains-before s b)

pub contains-append : (s t : Str) (b : ℕ) → contains (s ++ t) b ≡ (contains s b || contains t b)
unfolding contains
contains-append [] t b = refl
contains-append (c ∷ s) t b = ground (arith, contains-append s t b)

pub contains-reverse : (s : Str) (b : ℕ) → contains (reverse s) b ≡ contains s b
unfolding contains
contains-reverse [] b = refl
contains-reverse (c ∷ s) b =
    rw (reverse-cons, contains-append) (ground (arith, contains-reverse s b))

contains-drop_space : (s : Str) (b : ℕ) → contains s b ≡ false → contains (drop_space s) b ≡ false
unfolding contains drop_space
contains-drop_space [] b h = refl
contains-drop_space (c ∷ s) b h = ground (arith, contains-drop_space s b)

-- Trimming brings no byte in.
pub contains-trim_space :
    (s : Str) (b : ℕ) → contains s b ≡ false → contains (trim_space s) b ≡ false
unfolding trim_space
contains-trim_space s b h = rw contains-reverse (
    contains-drop_space (reverse (drop_space s)) b
      (rw contains-reverse (contains-drop_space s b h)))

-- No part of a split holds the separator.
pub split-lacks_sep : (s : Str) (b : ℕ) → AllLack b (split s b)
unfolding split contains
split-lacks_sep [] b = (refl, tt)
split-lacks_sep (c ∷ s) b = elim (Bool-cases (c == b)) [
  | inl e ↦ rw e (refl, split-lacks_sep s b)
  | inr e ↦ rw e (onto_first-AllLack b c (split s b) e (split-lacks_sep s b))
]

-- strings.Fields: the parts between runs of white space.
unfoldable pub fields : Str → List Str
fields [] = []
fields (c ∷ s) = if is_space c then fields s else onto_field c s (fields s)
  where
    onto_field : ℕ → Str → List Str → List Str
    onto_field c [] ps = (c ∷ []) ∷ ps
    onto_field c (d ∷ r) ps = if is_space d then (c ∷ []) ∷ ps else onto_first c ps
