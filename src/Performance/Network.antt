-- ===== src/Performance/Network.antt =====
-- pkg/performance/collectors/network.go, with the statistics of pkg/performance/types.go: the counters
-- of the network interfaces, and their differences from one collection to the next. `proc_net_dev` is
-- what opening /proc/net/dev gives, `none` an error; a file of an interface is read by `read`, `none`
-- where it cannot be; `per_second` is a count divided by seconds, in floating point and cut to a
-- uint64. `CalculateUint64Delta` and the state are those of the module Delta.
pub mod Resets
pub mod Words
pub mod Reading
pub mod Listing
mod Tests
use system_agent.Prelude.{
  ℕ, ◌+◌, Bool, true, false, ◌||◌, not, ◌&&◌, List, [], ◌∷◌, ◌++◌, Option, none, some, length, drop,
  get_or, ltb, if◌then◌else◌,
}
use system_agent.Prelude.Int.{ℤ, pos, ltb_ℤ}
use system_agent.Prelude.Text.{Str, codes, str_eq, split, trim_space, fields}
use system_agent.Prelude.Assoc.{Assoc, lookup, insert}
use system_agent.Prelude.Scan.{Scanned, parse_word, scan_lines}
use system_agent.Delta.{
  BaseDeltaCollector, DeltaMetadata, has_delta_state, should_calculate_deltas, update_delta_state,
  create_delta_metadata, calculate_uint64_delta, time_sub,
}

pub record NetworkDeltaData : Type 0 where
  pub metadata : DeltaMetadata
  pub rx_bytes : ℕ
  pub tx_bytes : ℕ
  pub rx_packets : ℕ
  pub tx_packets : ℕ
  pub rx_errors : ℕ
  pub tx_errors : ℕ
  pub rx_dropped : ℕ
  pub tx_dropped : ℕ
  pub rx_bytes_per_sec : ℕ
  pub tx_bytes_per_sec : ℕ
  pub rx_packets_per_sec : ℕ
  pub tx_packets_per_sec : ℕ
  pub rx_errors_per_sec : ℕ
  pub tx_errors_per_sec : ℕ
  pub rx_dropped_per_sec : ℕ
  pub tx_dropped_per_sec : ℕ

pub record NetworkStats : Type 0 where
  pub interface : Str
  pub rx_bytes : ℕ
  pub rx_packets : ℕ
  pub rx_errors : ℕ
  pub rx_dropped : ℕ
  pub rx_fifo : ℕ
  pub rx_frame : ℕ
  pub rx_compressed : ℕ
  pub rx_multicast : ℕ
  pub tx_bytes : ℕ
  pub tx_packets : ℕ
  pub tx_errors : ℕ
  pub tx_dropped : ℕ
  pub tx_fifo : ℕ
  pub tx_collisions : ℕ
  pub tx_carrier : ℕ
  pub tx_compressed : ℕ
  pub speed : ℕ
  pub duplex : Str
  pub oper_state : Str
  pub link_detected : Bool
  pub delta : Option NetworkDeltaData

-- The number in a field, whatever the error.
abbrev pub counter : List Str → ℕ → ℕ
counter columns i = (parse_word (get_or columns i [])).0

-- An interface's statistics from its name and the fields behind it.
abbrev pub stats_of : Str → List Str → NetworkStats
stats_of name columns = record {
  interface = name;
  rx_bytes = counter columns 0;
  rx_packets = counter columns 1;
  rx_errors = counter columns 2;
  rx_dropped = counter columns 3;
  rx_fifo = counter columns 4;
  rx_frame = counter columns 5;
  rx_compressed = counter columns 6;
  rx_multicast = counter columns 7;
  tx_bytes = counter columns 8;
  tx_packets = counter columns 9;
  tx_errors = counter columns 10;
  tx_dropped = counter columns 11;
  tx_fifo = counter columns 12;
  tx_collisions = counter columns 13;
  tx_carrier = counter columns 14;
  tx_compressed = counter columns 15;
  speed = 0;
  duplex = [];
  oper_state = [];
  link_detected = false;
  delta = none;
}

abbrev pub or_text : Option Str → Str → Str
or_text none old = old
or_text (some text) old = text

abbrev pub speed_of : Option Str → ℕ → ℕ
speed_of none old = old
speed_of (some text) old = let (speed, valid) = parse_word text in if valid then speed else old

abbrev pub carrier_of : Option Str → Bool → Bool
carrier_of none old = old
carrier_of (some text) old = str_eq text (codes "1")

-- The eight differences of a pair of statistics, in the order of the code.
abbrev pub differences : NetworkStats → NetworkStats → List (ℕ × Bool)
differences current previous =
    calculate_uint64_delta current.rx_bytes previous.rx_bytes
    ∷ calculate_uint64_delta current.tx_bytes previous.tx_bytes
    ∷ calculate_uint64_delta current.rx_packets previous.rx_packets
    ∷ calculate_uint64_delta current.tx_packets previous.tx_packets
    ∷ calculate_uint64_delta current.rx_errors previous.rx_errors
    ∷ calculate_uint64_delta current.tx_errors previous.tx_errors
    ∷ calculate_uint64_delta current.rx_dropped previous.rx_dropped
    ∷ calculate_uint64_delta current.tx_dropped previous.tx_dropped
    ∷ []

abbrev pub any_flagged : List (ℕ × Bool) → Bool
any_flagged [] = false
any_flagged (d ∷ ds) = d.1 || any_flagged ds

-- The i-th difference.
abbrev pub difference : List (ℕ × Bool) → ℕ → ℕ
difference ds i = (get_or ds i (0, false)).0

-- The map of the previous statistics: of two of one name the later.
unfoldable pub by_interface : List NetworkStats → Assoc NetworkStats → Assoc NetworkStats
by_interface [] m = m
by_interface (stat ∷ stats) m = by_interface stats (insert stat.interface stat m)

module _ (per_second : ℕ → ℤ → ℕ) where
  -- A difference's rate, unless a reset was detected or no time has passed.
  abbrev pub rate : Bool → ℤ → ℕ → ℕ
  rate reset_detected interval d =
      if not reset_detected && ltb_ℤ (pos 0) interval then per_second d interval else 0

  -- `now` is the time when the metadata are made, behind that of the collection.
  unfoldable pub calculate_interface_deltas :
      ℤ → ℤ → BaseDeltaCollector (List NetworkStats) → NetworkStats → NetworkStats → NetworkStats
  calculate_interface_deltas interval now b previous current =
      let ds = differences current previous in
      let reset_detected = any_flagged ds in
      let d : ℕ → ℕ = difference ds in
      let r : ℕ → ℕ = λ i. rate reset_detected interval (d i) in
      record current {
        delta = some (record {
          metadata = create_delta_metadata now reset_detected b;
          rx_bytes = d 0;
          tx_bytes = d 1;
          rx_packets = d 2;
          tx_packets = d 3;
          rx_errors = d 4;
          tx_errors = d 5;
          rx_dropped = d 6;
          tx_dropped = d 7;
          rx_bytes_per_sec = r 0;
          tx_bytes_per_sec = r 1;
          rx_packets_per_sec = r 2;
          tx_packets_per_sec = r 3;
          rx_errors_per_sec = r 4;
          tx_errors_per_sec = r 5;
          rx_dropped_per_sec = r 6;
          tx_dropped_per_sec = r 7;
        });
      }

  unfoldable pub calculate_network_deltas :
      ℤ
      → ℤ
      → BaseDeltaCollector (List NetworkStats)
      → List NetworkStats
      → List NetworkStats
      → List NetworkStats
  calculate_network_deltas interval now b previous [] = []
  calculate_network_deltas interval now b previous (stat ∷ stats) =
      let rest = calculate_network_deltas interval now b previous stats in
      elim (lookup stat.interface (by_interface previous [])) [
        | none ↦ stat ∷ rest
        | some prev ↦ calculate_interface_deltas interval now b prev stat ∷ rest
      ]

module _ (read : Str → Option Str) (proc_net_dev : Option Scanned) (sys_class_net_path : Str) where
  -- A file of an interface, trimmed.
  abbrev pub read_property : Str → Str → Option Str
  read_property interface file =
      elim (read (sys_class_net_path ++ (b'/' ∷ interface) ++ (b'/' ∷ file))) [
        | none ↦ none
        | some text ↦ some (trim_space text)
      ]

  unfoldable pub read_interface_metadata : NetworkStats → NetworkStats
  read_interface_metadata stat = record stat {
    speed = speed_of (read_property stat.interface (codes "speed")) stat.speed;
    duplex = or_text (read_property stat.interface (codes "duplex")) stat.duplex;
    oper_state = or_text (read_property stat.interface (codes "operstate")) stat.oper_state;
    link_detected = carrier_of (read_property stat.interface (codes "carrier")) stat.link_detected;
  }

  -- A line's parts at its colons; `none` where the loop goes on to the next line.
  unfoldable pub interface_parts : List Str → Option NetworkStats
  interface_parts (name ∷ counters ∷ []) =
      let columns = fields counters in
      if ltb (length columns) 16
      then none
      else some (read_interface_metadata (stats_of (trim_space name) columns))
  interface_parts _ = none

  -- A line behind the two headers.
  unfoldable pub interface_line : Str → Option NetworkStats
  interface_line line = interface_parts (split line b':')

  unfoldable pub interface_lines : List Str → List NetworkStats
  interface_lines [] = []
  interface_lines (line ∷ lines) = elim (interface_line line) [
    | none ↦ interface_lines lines
    | some stat ↦ stat ∷ interface_lines lines
  ]

  -- `none` is an error: the file cannot be opened, or the scanner fails on it.
  unfoldable pub collect_network_stats : Option (List NetworkStats)
  collect_network_stats = elim proc_net_dev [
    | none ↦ none
    | some file ↦
        let stats = interface_lines (drop 2 (scan_lines file.text)) in
        if file.failed then none else some stats
  ]

  -- `Collect`, at `current_time`; `none` is its error.
  unfoldable pub collect :
      (ℕ → ℤ → ℕ)
      → ℤ
      → ℤ
      → BaseDeltaCollector (List NetworkStats)
      → Option (List NetworkStats × BaseDeltaCollector (List NetworkStats))
  collect per_second current_time now b = elim collect_network_stats [
    | none ↦ none
    | some stats ↦
        let changed : List NetworkStats = elim b.last_snapshot [
          | none ↦ stats
          | some previous ↦ elim (should_calculate_deltas current_time b) [
            | some reason ↦ stats
            | none ↦
                calculate_network_deltas per_second (time_sub current_time b.last_time) now b
                  previous stats
          ]
        ] in
        let stats' = if has_delta_state b then changed else stats in
        some (stats', update_delta_state (some stats') current_time b)
  ]
