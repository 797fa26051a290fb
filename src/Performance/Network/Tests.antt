-- ===== src/Performance/Network/Tests.antt =====
-- A host with one interface, read twice.
use system_agent.Prelude.{
  map, ℕ, zero, suc, arith, Bool, true, false, List, [], ◌∷◌, ◌++◌, Option, none, some, ◌≡◌, ◌⊎◌,
  refl,
}
use system_agent.Prelude.Int.{ℤ, pos}
use system_agent.Prelude.Text.{Str, codes, contains, split, trim_space, fields}
use system_agent.Prelude.Scan.{Scanned, parse_word, scan_lines}
use system_agent.Delta.{BaseDeltaCollector, enabled}
use system_agent.Performance.Network.{
  NetworkStats, NetworkDeltaData, stats_of, read_interface_metadata, interface_parts,
  interface_line, interface_lines, collect_network_stats, calculate_interface_deltas,
}
use system_agent.Performance.Network.Words.{AreWords, collect_network_stats-AllWords}
use system_agent.Performance.Network.Reading.{IsRow}
use system_agent.Performance.Network.Listing.{
  Entry, line_of, AreReadings, collect_network_stats-reads,
}
use system_agent.Prelude.Scan.Decimal.{digit, then_digit}
use system_agent.Prelude.Scan.Lines.{text_of}
use system_agent.Performance.Network.Resets.{
  IsDifference, HasNoRates, calculate_interface_deltas-differs,
}

abbrev text : Str
text =
    codes "Inter-|"
    ++ (10 ∷ codes " face |")
    ++ (10 ∷ codes " lo: 1 2 3 4 5 6 7 8 9 10 11 12 13 14 15 x")
    ++ (10 ∷ [])

abbrev dev : Bool → Option Scanned
dev failed = some (record { text = text; failed = failed })

-- The interface has no files.
abbrev read : Str → Option Str
read path = none

abbrev lo : Str
lo = codes "lo"

abbrev numbers : List Str
numbers =
    codes "1"
    ∷ codes "2"
    ∷ codes "3"
    ∷ codes "4"
    ∷ codes "5"
    ∷ codes "6"
    ∷ codes "7"
    ∷ codes "8"
    ∷ codes "9"
    ∷ codes "10"
    ∷ codes "11"
    ∷ codes "12"
    ∷ codes "13"
    ∷ codes "14"
    ∷ codes "15"
    ∷ codes "x"
    ∷ []

loopback_found :
    collect_network_stats read (dev false) (codes "/sys/class/net")
    ≡ some (stats_of lo numbers ∷ [])
unfolding collect_network_stats scan_lines split interface_lines interface_line interface_parts
    fields trim_space read_interface_metadata parse_word
loopback_found = refl

-- What was read of a file is dropped where the scanner fails on it.
scan_fails : collect_network_stats read (dev true) (codes "/sys/class/net") ≡ none
unfolding collect_network_stats
scan_fails = refl

-- Columns of the number 10.
abbrev more : ℕ → List (ℕ × Str)
more zero = []
more (suc n) = (0, codes "10") ∷ more n

abbrev tens : ℕ → List ℕ
tens zero = []
tens (suc n) = 10 ∷ tens n

more-IsRow : (n : ℕ) → IsRow (more n) (tens n)
more-IsRow zero = tt
more-IsRow (suc n) =
    (then_digit (codes "1") 1 0 (digit 1 (omega arith)) (omega arith), omega arith, more-IsRow n)

-- The columns 1 to 6 and ten of the number 10.
abbrev numbered : List (ℕ × Str)
numbered =
    (1, codes "1")
    ∷ (0, codes "2")
    ∷ (0, codes "3")
    ∷ (0, codes "4")
    ∷ (0, codes "5")
    ∷ (0, codes "6")
    ∷ more 10

abbrev counters : List ℕ
counters = 1 ∷ 2 ∷ 3 ∷ 4 ∷ 5 ∷ 6 ∷ tens 10

numbered-IsRow : IsRow numbered counters
numbered-IsRow = (
  digit 1 (omega arith),
  omega arith,
  (
    digit 2 (omega arith),
    omega arith,
    (
      digit 3 (omega arith),
      omega arith,
      (
        digit 4 (omega arith),
        omega arith,
        (digit 5 (omega arith), omega arith, (digit 6 (omega arith), omega arith, more-IsRow 10)),
      ),
    ),
  ),
)

abbrev entry : Entry
entry = record { padding = 3; name = lo; columns = numbered; counters = counters }

-- Two interfaces, the second of which has too few columns.
abbrev entries : List Entry
entries = entry ∷ record { padding = 0; name = lo; columns = more 2; counters = tens 2 } ∷ []

collect_network_stats-reads_example :
    (stats : List NetworkStats) × (collect_network_stats read
        (some (record {
          text = text_of (codes "Inter-|" ∷ codes " face |" ∷ map line_of entries);
          failed = false;
        }))
        (codes "/sys/class/net")
      ≡ some stats)
    × AreReadings entries stats
unfolding contains
collect_network_stats-reads_example =
    collect_network_stats-reads read (codes "/sys/class/net") (codes "Inter-|") (codes " face |")
      entries (refl, refl, (refl, refl, tt))
      (
        record { visible = (refl, (refl, tt)); no_colon = refl; numbers = numbered-IsRow },
        (record { visible = (refl, (refl, tt)); no_colon = refl; numbers = more-IsRow 2 }, tt),
      )

abbrev per_second : ℕ → ℤ → ℕ
per_second d interval = d

abbrev base : BaseDeltaCollector (List NetworkStats)
base = record {
  config = record { mode = enabled; min_interval = pos 1; max_interval = pos 100 };
  last_snapshot = some (stats_of lo numbers ∷ []);
  last_time = pos 5;
  is_first = false;
}

lo-AreWords : AreWords (stats_of lo numbers)
lo-AreWords =
    (collect_network_stats-AllWords read (dev false) (codes "/sys/class/net")
      (stats_of lo numbers ∷ []) loopback_found).0

calculate_interface_deltas-differs_example :
    (d : NetworkDeltaData) × ((calculate_interface_deltas per_second
        (pos 2)
        (pos 8)
        base
        (stats_of lo numbers)
        (stats_of lo numbers)).delta
      ≡ some d)
    × (((d.metadata.counter_reset_detected ≡ false)
          × IsDifference (stats_of lo numbers) (stats_of lo numbers) d)
        ⊎ ((d.metadata.counter_reset_detected ≡ true) × HasNoRates d))
calculate_interface_deltas-differs_example =
    calculate_interface_deltas-differs per_second (pos 2) (pos 8) base (stats_of lo numbers)
      (stats_of lo numbers) lo-AreWords lo-AreWords
