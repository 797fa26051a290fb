-- ===== src/CpuList.antt =====
-- pkg/cpu/cpulist.go: the kernel's lists of CPUs. A result is the list of int32 values, as
-- integers; the texts of errors are not modelled, their kinds are.
pub mod Bounds
mod Tests
use system_agent.Prelude.{
  ℕ, zero, suc, ◌+◌, ◌^◌, Bool, true, false, List, [], ◌∷◌, ◌++◌, Option, none, some, if◌then◌else◌,
  ◌≡◌, refl,
}
use system_agent.Prelude.Int.{ℤ, pos, ltb_ℤ, ◌+ℤ◌, ◌-ℤ◌, pos_part}
use system_agent.Prelude.Text.{Str, codes, contains, split, trim_space, parse_int}
use system_agent.Prelude.Result.{Result, ok, err, ◌>>=◌}

pub data Error : Type 0 where
  invalid_range invalid_number_in_range start_after_end invalid_number : Error

-- strconv.ParseInt(s, 10, 32)
number : Str → Error → Result Error ℤ
number s e = elim (parse_int (2 ^ 31) s) [ none ↦ err e | some n ↦ ok n ]

-- for cpu := start; ...; cpu++, for a number of rounds
count_up : ℕ → ℤ → List ℤ
count_up zero cpu = []
count_up (suc n) cpu = cpu ∷ count_up n (cpu +ℤ pos 1)

-- The rounds of `for cpu := start; cpu <= end; cpu++`, where `start <= end`.
range : ℤ → ℤ → List ℤ
unfolding count_up
range start end = count_up (pos_part (end -ℤ start) + 1) start

range_part : List Str → Result Error (List ℤ)
unfolding number range
range_part (a ∷ b ∷ []) = do
  start ← number (trim_space a) invalid_number_in_range
  end ← number (trim_space b) invalid_number_in_range
  if ltb_ℤ end start then err start_after_end else ok (range start end)
range_part _ = err invalid_range

-- What one trimmed part appends.
cpus_of : Str → Result Error (List ℤ)
unfolding range_part
cpus_of [] = ok []
cpus_of (c ∷ p) =
    if contains (c ∷ p) b'-'
    then range_part (split (c ∷ p) b'-')
    else do cpu ← number (c ∷ p) invalid_number; ok (cpu ∷ [])

-- The loop over the parts.
parse_parts : List Str → List ℤ → Result Error (List ℤ)
unfolding cpus_of
parse_parts [] cpus = ok cpus
parse_parts (part ∷ parts) cpus = do
  more ← cpus_of (trim_space part)
  parse_parts parts (cpus ++ more)

parse_trimmed : Str → Result Error (List ℤ)
unfolding parse_parts
parse_trimmed [] = ok []
parse_trimmed (c ∷ s) = parse_parts (split (c ∷ s) b',') []

unfoldable pub parse_cpu_list : Str → Result Error (List ℤ)
unfolding parse_trimmed
parse_cpu_list s = parse_trimmed (trim_space s)
