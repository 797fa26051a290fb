-- ===== src/Performance/System.antt =====
-- pkg/performance/collectors/system.go, with the statistics of pkg/performance/types.go: the counts of
-- interrupts and context switches of /proc/stat and their differences. A file is opened by `open_file`, and
-- `per_second` is a count divided by seconds, in floating point and cut to a uint64.
pub mod Stale
mod Tests
use system_agent.Prelude.{
  ℕ, Bool, true, false, ◌||◌, not, ◌&&◌, List, [], ◌∷◌, Option, none, some, if◌then◌else◌,
}
use system_agent.Prelude.Int.{ℤ, pos, ltb_ℤ}
use system_agent.Prelude.Text.{Str, codes, str_eq, fields}
use system_agent.Prelude.Scan.{Scanned, parse_word, scan_lines}
use system_agent.Delta.{
  BaseDeltaCollector, DeltaMetadata, should_calculate_deltas, update_delta_state,
  create_delta_metadata, calculate_uint64_delta, time_sub,
}

pub record SystemDeltaData : Type 0 where
  pub metadata : DeltaMetadata
  pub interrupts : ℕ
  pub context_switches : ℕ
  pub interrupts_per_sec : ℕ
  pub context_switches_per_sec : ℕ

pub record SystemStats : Type 0 where
  pub interrupts : ℕ
  pub context_switches : ℕ
  pub delta : Option SystemDeltaData

-- The number in a field where it is one, and the old one where it is not.
abbrev pub parsed_or : Str → ℕ → ℕ
parsed_or text old = let (n, valid) = parse_word text in if valid then n else old

-- A line of /proc/stat, of which the fields are given.
unfoldable pub stat_line : List Str → SystemStats → SystemStats
stat_line [] stats = stats
stat_line (label ∷ []) stats = stats
stat_line (label ∷ value ∷ more) stats =
    if str_eq label (codes "intr")
    then record stats { interrupts = parsed_or value stats.interrupts }
    else if str_eq label (codes "ctxt")
    then record stats { context_switches = parsed_or value stats.context_switches }
    else stats

unfoldable pub stat_lines : List Str → SystemStats → SystemStats
stat_lines [] stats = stats
stat_lines (line ∷ lines) stats = stat_lines lines (stat_line (fields line) stats)

-- `none` is an error: the file cannot be opened, or the scanner fails on it.
unfoldable pub collect_system_stats : (Str → Option Scanned) → Str → Option SystemStats
collect_system_stats open_file stat_path = elim (open_file stat_path) [
  | none ↦ none
  | some file ↦
      let stats =
        stat_lines (scan_lines file.text)
          (record { interrupts = 0; context_switches = 0; delta = none }) in
      if file.failed then none else some stats
]

module _ (per_second : ℕ → ℤ → ℕ) where
  unfoldable pub calculate_system_deltas :
      ℤ → BaseDeltaCollector SystemStats → SystemStats → SystemStats → SystemStats
  calculate_system_deltas current_time b previous current =
      let interval = time_sub current_time b.last_time in
      let (interrupts, reset) = calculate_uint64_delta current.interrupts previous.interrupts in
      let (switches, reset') =
        calculate_uint64_delta current.context_switches previous.context_switches in
      let reset_detected = reset || reset' in
      let rated = not reset_detected && ltb_ℤ (pos 0) interval in
      record current {
        delta = some (record {
          metadata = create_delta_metadata current_time reset_detected b;
          interrupts = interrupts;
          context_switches = switches;
          interrupts_per_sec = if rated then per_second interrupts interval else 0;
          context_switches_per_sec = if rated then per_second switches interval else 0;
        });
      }

  -- `Collect` behind the reading of the statistics.
  unfoldable pub collect_stats :
      ℤ
      → SystemStats
      → BaseDeltaCollector SystemStats
      → SystemStats × BaseDeltaCollector SystemStats
  collect_stats current_time current b = elim (should_calculate_deltas current_time b) [
    | some reason ↦
        (current, if b.is_first then update_delta_state (some current) current_time b else b)
    | none ↦ elim b.last_snapshot [
      | none ↦ (current, update_delta_state (some current) current_time b)
      | some previous ↦
          let changed = calculate_system_deltas current_time b previous current in
          (changed, update_delta_state (some changed) current_time b)
    ]
  ]

  -- `Collect`, at `current_time`; `none` is its error.
  unfoldable pub collect :
      (Str → Option Scanned)
      → Str
      → ℤ
      → BaseDeltaCollector SystemStats
      → Option (SystemStats × BaseDeltaCollector SystemStats)
  collect open_file stat_path current_time b = elim (collect_system_stats open_file stat_path) [
    | none ↦ none
    | some current ↦ some (collect_stats current_time current b)
  ]
