-- ===== src/Performance/Network/Resets.antt =====
-- The differences of an interface's counters, and the counters that were reset.
use system_agent.Prelude.{
  ℕ, ◌+◌, Bool, true, false, ◌||◌, List, some, Bool-cases, ◌≡◌, ◌⊎◌, inl, inr, refl, arith,
}
use system_agent.Prelude.Int.{ℤ}
use system_agent.Delta.{BaseDeltaCollector, calculate_uint64_delta, create_delta_metadata}
use system_agent.Delta.State.{IsWord}
use system_agent.Performance.Network.{
  NetworkStats, NetworkDeltaData, differences, any_flagged, rate, calculate_interface_deltas,
}
use system_agent.Performance.Network.Words.{AreWords}

-- Each of the eight counters was the previous one and has grown by the difference.
pub record IsDifference (previous current : NetworkStats) (d : NetworkDeltaData) : Type 0 where
  pub rx_bytes : previous.rx_bytes + d.rx_bytes ≡ current.rx_bytes
  pub tx_bytes : previous.tx_bytes + d.tx_bytes ≡ current.tx_bytes
  pub rx_packets : previous.rx_packets + d.rx_packets ≡ current.rx_packets
  pub tx_packets : previous.tx_packets + d.tx_packets ≡ current.tx_packets
  pub rx_errors : previous.rx_errors + d.rx_errors ≡ current.rx_errors
  pub tx_errors : previous.tx_errors + d.tx_errors ≡ current.tx_errors
  pub rx_dropped : previous.rx_dropped + d.rx_dropped ≡ current.rx_dropped
  pub tx_dropped : previous.tx_dropped + d.tx_dropped ≡ current.tx_dropped

-- No rate is given.
pub record HasNoRates (d : NetworkDeltaData) : Type 0 where
  pub rx_bytes : d.rx_bytes_per_sec ≡ 0
  pub tx_bytes : d.tx_bytes_per_sec ≡ 0
  pub rx_packets : d.rx_packets_per_sec ≡ 0
  pub tx_packets : d.tx_packets_per_sec ≡ 0
  pub rx_errors : d.rx_errors_per_sec ≡ 0
  pub tx_errors : d.tx_errors_per_sec ≡ 0
  pub rx_dropped : d.rx_dropped_per_sec ≡ 0
  pub tx_dropped : d.tx_dropped_per_sec ≡ 0

delta_adds :
    (c p : ℕ)
    → IsWord c
    → IsWord p
    → (calculate_uint64_delta c p).1 ≡ false
    → p + (calculate_uint64_delta c p).0 ≡ c
unfolding calculate_uint64_delta
delta_adds c p wc wp h = ground arith

or_parts : (a b : Bool) → (a || b) ≡ false → (a ≡ false) × (b ≡ false)
or_parts false false e = (refl, refl)
or_parts true b e = absurd cc
or_parts false true e = absurd cc

rate-reset :
    (per_second : ℕ → ℤ → ℕ) (interval : ℤ) (d : ℕ) (reset : Bool)
    → reset ≡ true
    → rate per_second reset interval d ≡ 0
rate-reset per_second interval d true e = refl
rate-reset per_second interval d false e = absurd cc

-- Of the differences of the counters of two collections, where all counters are 64-bit values: if no
-- reset is reported, each previous counter and its difference add up to the present counter, with no
-- wrap; if one is reported, no rate is given.
pub calculate_interface_deltas-differs :
    (per_second : ℕ → ℤ → ℕ) (interval now : ℤ) (b : BaseDeltaCollector (List NetworkStats))
    (previous current : NetworkStats)
    → AreWords previous
    → AreWords current
    → (d : NetworkDeltaData) × ((calculate_interface_deltas per_second interval now b previous
          current).delta
        ≡ some d)
      × (((d.metadata.counter_reset_detected ≡ false) × IsDifference previous current d)
          ⊎ ((d.metadata.counter_reset_detected ≡ true) × HasNoRates d))
unfolding calculate_interface_deltas create_delta_metadata
calculate_interface_deltas-differs per_second interval now b previous current p c = (
  _,
  refl,
  elim (Bool-cases (any_flagged (differences current previous))) [
    | inl reset ↦
        let none_given : (x : ℕ)
            → rate per_second (any_flagged (differences current previous)) interval x ≡ 0 =
          λ x.
            rate-reset per_second interval x (any_flagged (differences current previous)) reset in
        inr (
          reset,
          record {
            rx_bytes = none_given _;
            tx_bytes = none_given _;
            rx_packets = none_given _;
            tx_packets = none_given _;
            rx_errors = none_given _;
            tx_errors = none_given _;
            rx_dropped = none_given _;
            tx_dropped = none_given _;
          },
        )
    | inr same ↦
        let (s0, r1) = or_parts _ _ same in
        let (s1, r2) = or_parts _ _ r1 in
        let (s2, r3) = or_parts _ _ r2 in
        let (s3, r4) = or_parts _ _ r3 in
        let (s4, r5) = or_parts _ _ r4 in
        let (s5, r6) = or_parts _ _ r5 in
        let (s6, r7) = or_parts _ _ r6 in
        let (s7, r8) = or_parts _ _ r7 in
        inl (
          same,
          record {
            rx_bytes = delta_adds current.rx_bytes previous.rx_bytes c.rx_bytes p.rx_bytes s0;
            tx_bytes = delta_adds current.tx_bytes previous.tx_bytes c.tx_bytes p.tx_bytes s1;
            rx_packets =
                delta_adds current.rx_packets previous.rx_packets c.rx_packets p.rx_packets s2;
            tx_packets =
                delta_adds current.tx_packets previous.tx_packets c.tx_packets p.tx_packets s3;
            rx_errors = delta_adds current.rx_errors previous.rx_errors c.rx_errors p.rx_errors s4;
            tx_errors = delta_adds current.tx_errors previous.tx_errors c.tx_errors p.tx_errors s5;
            rx_dropped =
                delta_adds current.rx_dropped previous.rx_dropped c.rx_dropped p.rx_dropped s6;
            tx_dropped =
                delta_adds current.tx_dropped previous.tx_dropped c.tx_dropped p.tx_dropped s7;
          },
        )
  ],
)
