-- ===== src/CpuList/Bounds.antt =====
-- The CPUs that `ParseCPUList` returns.
use mathlib.Core.Path.{subst}
use system_agent.Prelude.{
  ℕ, zero, suc, ◌+◌, ◌-◌, ◌^◌, ◌<◌, ◌≤◌, ◌≡◌, refl, false, List, [], ◌∷◌, ◌++◌, Option-cases,
  Bool-cases, inl, inr, arith,
}
use system_agent.Prelude.Int.{ℤ, pos, ltb_ℤ, ◌+ℤ◌, ◌-ℤ◌}
use system_agent.Prelude.Text.{
  Str, contains, split, trim_space, parse_int, parse_int-nonneg, parse_int-Fits, AllLack,
  split-lacks_sep, contains-trim_space,
}
use system_agent.Prelude.Result.{ok, >>=-eq-ok, ok-injective}
use system_agent.CpuList.{
  Error, invalid_number, invalid_number_in_range, number, count_up, range, range_part, cpus_of,
  parse_parts, parse_trimmed, parse_cpu_list,
}

-- A CPU number: not negative, and an int32.
abbrev pub IsCpu : ℤ → Type 0
IsCpu z = (n : ℕ) × (z ≡ pos n) × (n < 2 ^ 31)

abbrev pub All : (ℤ → Type 0) → List ℤ → Type 0
All P [] = Unit
All P (x ∷ xs) = P x × All P xs

All-append : (P : ℤ → Type 0) (xs ys : List ℤ) → All P xs → All P ys → All P (xs ++ ys)
All-append P [] ys p q = q
All-append P (x ∷ xs) ys p q = (p.0, All-append P xs ys p.1 q)

number-IsCpu : (s : Str) (e : Error) (z : ℤ) → contains s b'-' ≡ false → number s e ≡ ok z → IsCpu z
unfolding number
number-IsCpu s e z l h = elim (Option-cases (parse_int (2 ^ 31) s)) [
  | inl f ↦ absurd (ground arith)
  | inr (y, f) ↦
      let (n, p) = parse_int-nonneg (2 ^ 31) s y l f in
      (n, ground arith, rw p at (parse_int-Fits (2 ^ 31) s y (omega arith) f))
]

count_up-IsCpu : (n s : ℕ) → s + n ≤ 2 ^ 31 → All IsCpu (count_up n (pos s))
unfolding count_up ◌+ℤ◌
count_up-IsCpu zero s h = tt
count_up-IsCpu (suc n) s h =
    ((s, refl, omega arith), ground (arith, count_up-IsCpu n (s + 1) (omega arith)))

range-pos : (s t : ℕ) → s ≤ t → range (pos s) (pos t) ≡ count_up (t - s + 1) (pos s)
unfolding range ◌-ℤ◌
range-pos s t h = ground arith

range-IsCpu :
    (start end : ℤ)
    → IsCpu start
    → IsCpu end
    → ltb_ℤ end start ≡ false
    → All IsCpu (range start end)
range-IsCpu start end (s, p, ps) (t, q, qs) h =
    let le : s ≤ t = ground arith in
    rw (p, q, range-pos s t le) (count_up-IsCpu (t - s + 1) s (omega arith))

range_part-IsCpu :
    (ps : List Str) (cpus : List ℤ) → AllLack b'-' ps → range_part ps ≡ ok cpus → All IsCpu cpus
unfolding range_part
range_part-IsCpu [] cpus l h = absurd (cc)
range_part-IsCpu (a ∷ []) cpus l h = absurd (cc)
range_part-IsCpu (a ∷ b ∷ c ∷ ps) cpus l h = absurd (cc)
range_part-IsCpu (a ∷ b ∷ []) cpus l h =
    let (start, e, h') = >>=-eq-ok (number (trim_space a) invalid_number_in_range) _ h in
    let (end, f, g) = >>=-eq-ok (number (trim_space b) invalid_number_in_range) _ h' in
    let is_start = number-IsCpu _ _ start (contains-trim_space a b'-' l.0) e in
    let is_end = number-IsCpu _ _ end (contains-trim_space b b'-' l.1.0) f in
    elim (Bool-cases (ltb_ℤ end start)) [
      | inl above ↦ absurd (cc (rw above at g))
      | inr below ↦
          subst (All IsCpu) (ok-injective (rw below at g))
            (range-IsCpu start end is_start is_end below)
    ]

cpus_of-IsCpu : (p : Str) (cpus : List ℤ) → cpus_of p ≡ ok cpus → All IsCpu cpus
unfolding cpus_of
cpus_of-IsCpu [] cpus h = subst (All IsCpu) (ok-injective h) tt
cpus_of-IsCpu (c ∷ p) cpus h = elim (Bool-cases (contains (c ∷ p) b'-')) [
  | inl dash ↦
      range_part-IsCpu (split (c ∷ p) b'-') cpus (split-lacks_sep (c ∷ p) b'-') (rw dash at h)
  | inr none_ ↦
      let (cpu, e, g) = >>=-eq-ok (number (c ∷ p) invalid_number) _ (rw none_ at h) in
      subst (All IsCpu) (ok-injective g) (number-IsCpu (c ∷ p) invalid_number cpu none_ e, tt)
]

parse_parts-IsCpu :
    (ps : List Str) (done cpus : List ℤ)
    → All IsCpu done
    → parse_parts ps done ≡ ok cpus
    → All IsCpu cpus
unfolding parse_parts
parse_parts-IsCpu [] done cpus d h = subst (All IsCpu) (ok-injective h) d
parse_parts-IsCpu (p ∷ ps) done cpus d h =
    let (more, e, g) = >>=-eq-ok (cpus_of (trim_space p)) _ h in
    parse_parts-IsCpu ps (done ++ more) cpus
      (All-append IsCpu done more d (cpus_of-IsCpu (trim_space p) more e)) g

parse_trimmed-IsCpu : (s : Str) (cpus : List ℤ) → parse_trimmed s ≡ ok cpus → All IsCpu cpus
unfolding parse_trimmed
parse_trimmed-IsCpu [] cpus h = subst (All IsCpu) (ok-injective h) tt
parse_trimmed-IsCpu (c ∷ s) cpus h = parse_parts-IsCpu (split (c ∷ s) b',') [] cpus tt h

-- Every CPU that an accepted list names is a number from 0 to 2^31 - 1: no minus sign is taken for
-- a sign, and the conversion to int32 loses nothing.
pub parse_cpu_list-IsCpu : (s : Str) (cpus : List ℤ) → parse_cpu_list s ≡ ok cpus → All IsCpu cpus
unfolding parse_cpu_list
parse_cpu_list-IsCpu s cpus h = parse_trimmed-IsCpu (trim_space s) cpus h
