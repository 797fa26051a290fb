-- ===== src/Config/Parser/Versions.antt =====
-- Versions are compared as numbers.
use system_agent.Prelude.{
  ℕ, ◌≤◌, ◌≡◌, inl, inr, refl, false, ltb, if◌then◌else◌, [], ◌∷◌, some, arith, Option-cases,
}
use system_agent.Prelude.Int.{ℤ, pos, negsuc, ltb_ℤ}
use system_agent.Prelude.Text.{Str, codes, trim_prefix, has_prefix, atoi}
use system_agent.Prelude.Result.{ok, err}
use system_agent.Config.Parser.{
  bad_version, compare_versions, compare_trimmed, compare_numbers, is_empty,
}

-- The number of a version text, behind a 'v' or without one.
abbrev pub Reads : Str → ℤ → Type 0
Reads s z = atoi (trim_prefix s (codes "v")) ≡ some z

-- -1, 0 or 1 as the first number is below, equal to or above the second.
abbrev pub order : ℕ → ℕ → ℤ
order m n = if ltb m n then negsuc 0 else if ltb n m then pos 1 else pos 0

atoi-ne-empty : (s : Str) (z : ℤ) → atoi s ≡ some z → is_empty s ≡ false
unfolding atoi
atoi-ne-empty [] z h = cc
atoi-ne-empty (c ∷ s) z h = refl

compare_numbers_lem : (m n : ℕ) → compare_numbers (pos m) (pos n) ≡ ok (order m n)
unfolding compare_numbers
compare_numbers_lem m n = ground arith

-- A negative stored number makes the comparison fail, whatever the other text is.
compare_trimmed-negative :
    (c p : Str) (k : ℕ) → atoi p ≡ some (negsuc k) → compare_trimmed c p ≡ err bad_version
unfolding compare_trimmed compare_numbers
compare_trimmed-negative c p k h = elim (Option-cases (atoi c)) [
  | inl e ↦ rw (e, compare_trimmed)
  | inr (z, e) ↦ rw (e, h, atoi-ne-empty p (negsuc k) h, compare_trimmed) (ground arith)
]

-- Two versions that read as numbers of which none is negative compare as these numbers.
pub compare_versions-order :
    (s t : Str) (m n : ℕ)
    → Reads s (pos m)
    → Reads t (pos n)
    → compare_versions s t ≡ ok (order m n)
unfolding compare_versions
compare_versions-order s t m n h k =
    rw (h, k, atoi-ne-empty _ _ k, compare_trimmed) (compare_numbers_lem m n)

-- A first version, which is compared with the empty text, may be negative; once a negative version
-- is the stored one, every comparison with it fails.
pub compare_versions-negative :
    (s t : Str) (k : ℕ)
    → Reads s (negsuc k)
    → (compare_versions s [] ≡ ok (pos 1)) × (compare_versions t s ≡ err bad_version)
unfolding compare_versions compare_trimmed trim_prefix has_prefix
compare_versions-negative s t k h = (
  rw (h, compare_trimmed),
  compare_trimmed-negative (trim_prefix t (codes "v")) (trim_prefix s (codes "v")) k h,
)

-- A version that compares as not below a stored number reads as a number that is at least it.
pub Reads-of_compare :
    (s t : Str) (m : ℕ) (o : ℤ)
    → Reads t (pos m)
    → compare_versions s t ≡ ok o
    → ltb_ℤ o (pos 0) ≡ false
    → (n : ℕ) × Reads s (pos n) × (m ≤ n)
unfolding compare_versions
Reads-of_compare s t m o h c p = elim (Option-cases (atoi (trim_prefix s (codes "v")))) [
  | inl e ↦ absurd (cc (rw (e, compare_trimmed) at c))
  | inr (z, e) ↦
      let c' : compare_numbers z (pos m) ≡ ok o =
        rw (e, h, atoi-ne-empty _ _ h, compare_trimmed) at c in
      above z e c'
]
  where
    above :
        (z : ℤ) → Reads s z → compare_numbers z (pos m) ≡ ok o → (n : ℕ) × Reads s (pos n) × (m ≤ n)
    above (pos n) e c' = (n, e, unfold compare_numbers in ground arith)
    above (negsuc n) e c' = absurd (unfold compare_numbers in ground arith)
