-- ===== src/Performance/Network/Words.antt =====
-- The counters of the interfaces are 64-bit values.
use mathlib.Core.Path.{subst}
use mathlib.Core.Option.{some-injective}
use system_agent.Prelude.{
  ℕ, Bool, true, false, List, [], ◌∷◌, Option, none, some, Option-cases, drop, get_or, length, ltb,
  if◌then◌else◌, ◌≡◌, ◌≢◌, inl, inr, arith,
}
use system_agent.Prelude.Text.{Str, split, fields, trim_space}
use system_agent.Prelude.Scan.{Scanned, parse_word, parse_word_lt, scan_lines}
use system_agent.Delta.State.{IsWord}
use system_agent.Performance.Network.{
  NetworkStats, counter, stats_of, read_interface_metadata, speed_of, interface_parts,
  interface_line, interface_lines, collect_network_stats,
}

-- Every counter of the statistics is a 64-bit value.
pub record AreWords (s : NetworkStats) : Type 0 where
  pub rx_bytes : IsWord s.rx_bytes
  pub rx_packets : IsWord s.rx_packets
  pub rx_errors : IsWord s.rx_errors
  pub rx_dropped : IsWord s.rx_dropped
  pub rx_fifo : IsWord s.rx_fifo
  pub rx_frame : IsWord s.rx_frame
  pub rx_compressed : IsWord s.rx_compressed
  pub rx_multicast : IsWord s.rx_multicast
  pub tx_bytes : IsWord s.tx_bytes
  pub tx_packets : IsWord s.tx_packets
  pub tx_errors : IsWord s.tx_errors
  pub tx_dropped : IsWord s.tx_dropped
  pub tx_fifo : IsWord s.tx_fifo
  pub tx_collisions : IsWord s.tx_collisions
  pub tx_carrier : IsWord s.tx_carrier
  pub tx_compressed : IsWord s.tx_compressed
  pub speed : IsWord s.speed

abbrev pub AllWords : List NetworkStats → Type 0
AllWords [] = Unit
AllWords (s ∷ ss) = AreWords s × AllWords ss

-- What a step finds has words.
abbrev pub Found : Option NetworkStats → Type 0
Found none = Unit
Found (some s) = AreWords s

counter-IsWord : (columns : List Str) (i : ℕ) → IsWord (counter columns i)
counter-IsWord columns i = parse_word_lt (get_or columns i [])

speed_of-IsWord : (o : Option Str) (old : ℕ) → IsWord old → IsWord (speed_of o old)
speed_of-IsWord none old h = h
speed_of-IsWord (some text) old h = if_word (parse_word text).1 _ old (parse_word_lt text) h
  where
    if_word : (b : Bool) (x y : ℕ) → IsWord x → IsWord y → IsWord (if b then x else y)
    if_word true x y p q = p
    if_word false x y p q = q

module _ (read : Str → Option Str) (proc_net_dev : Option Scanned) (sys_class_net_path : Str) where
  interface_stats-AreWords :
      (name : Str) (columns : List Str)
      → AreWords
          (read_interface_metadata read proc_net_dev sys_class_net_path (stats_of name columns))
  unfolding read_interface_metadata
  interface_stats-AreWords name columns = record {
    rx_bytes = counter-IsWord columns 0;
    rx_packets = counter-IsWord columns 1;
    rx_errors = counter-IsWord columns 2;
    rx_dropped = counter-IsWord columns 3;
    rx_fifo = counter-IsWord columns 4;
    rx_frame = counter-IsWord columns 5;
    rx_compressed = counter-IsWord columns 6;
    rx_multicast = counter-IsWord columns 7;
    tx_bytes = counter-IsWord columns 8;
    tx_packets = counter-IsWord columns 9;
    tx_errors = counter-IsWord columns 10;
    tx_dropped = counter-IsWord columns 11;
    tx_fifo = counter-IsWord columns 12;
    tx_collisions = counter-IsWord columns 13;
    tx_carrier = counter-IsWord columns 14;
    tx_compressed = counter-IsWord columns 15;
    speed = speed_of-IsWord _ 0 (omega arith);
  }

  interface_parts-Found :
      (parts : List Str) → Found (interface_parts read proc_net_dev sys_class_net_path parts)
  unfolding interface_parts
  interface_parts-Found [] = tt
  interface_parts-Found (name ∷ []) = tt
  interface_parts-Found (name ∷ counters ∷ []) =
      if_Found (ltb (length (fields counters)) 16) _
        (interface_stats-AreWords (trim_space name) (fields counters))
    where
      if_Found : (b : Bool) (s : NetworkStats) → AreWords s → Found (if b then none else some s)
      if_Found true s h = tt
      if_Found false s h = h
  interface_parts-Found (name ∷ counters ∷ part ∷ parts) = tt

  interface_lines-AllWords :
      (lines : List Str) → AllWords (interface_lines read proc_net_dev sys_class_net_path lines)
  unfolding interface_lines interface_line
  interface_lines-AllWords [] = tt
  interface_lines-AllWords (line ∷ lines) =
      onto (interface_line read proc_net_dev sys_class_net_path line)
        (interface_parts-Found (split line b':'))
        (interface_lines read proc_net_dev sys_class_net_path lines)
        (interface_lines-AllWords lines)
    where
      onto :
          (o : Option NetworkStats)
          → Found o
          → (ss : List NetworkStats) → AllWords ss
          → AllWords (elim o [ none ↦ ss | some s ↦ s ∷ ss ])
      onto none h ss p = p
      onto (some s) h ss p = (h, p)

  -- Whatever the text of /proc/net/dev and of the interfaces' files, also where numbers are malformed or
  -- too large: every counter of every interface that is collected is a 64-bit value.
  pub collect_network_stats-AllWords :
      (stats : List NetworkStats)
      → collect_network_stats read proc_net_dev sys_class_net_path ≡ some stats
      → AllWords stats
  unfolding collect_network_stats
  collect_network_stats-AllWords stats e = elim (Option-cases proc_net_dev) [
    | inl missing ↦ absurd (none-ne-some stats (rw (missing, collect_network_stats) at e))
    | inr (file, opened) ↦
        unless_failed _ file.failed (interface_lines-AllWords (drop 2 (scan_lines file.text)))
          (rw (opened, collect_network_stats) at e)
  ]
    where
      none-ne-some : (x : List NetworkStats) → none ≢ some x
      none-ne-some x h = cc

      unless_failed :
          (x : List NetworkStats) (b : Bool)
          → AllWords x
          → (if b then none else some x) ≡ some stats
          → AllWords stats
      unless_failed x true h q = absurd (none-ne-some stats q)
      unless_failed x false h q = subst AllWords (some-injective _ _ q) h
