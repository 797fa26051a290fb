-- ===== src/Performance/Network/Reading.antt =====
-- What the collector reads of a line as the kernel prints it: a padded name, a colon, and columns of
-- decimal numbers.
use system_agent.Prelude.{
  ℕ, zero, suc, ◌^◌, ◌≤◌, ◌<◌, Bool, false, List, [], ◌∷◌, ◌++◌, Option, none, some, get_or, length,
  ltb, ◌≡◌, ◌⊎◌, inl, inr, refl, ap, ◌∙◌, arith, append_assoc, Bool-cases,
}
use system_agent.Prelude.Text.{Str, contains, contains-append, split}
use system_agent.Prelude.Text.Columns.{
  spaces, AllVisible, row, words, AreWords, split-at, split-lacking, fields-row, trim_space-padded,
  contains-spaces,
}
use system_agent.Prelude.Scan.{Scanned, parse_word}
use system_agent.Prelude.Scan.Decimal.{
  IsDecimal, parse_word-IsDecimal, IsDecimal-nonempty, IsDecimal-AllVisible, IsDecimal-lacks,
}
use system_agent.Performance.Network.{
  NetworkStats, counter, stats_of, read_interface_metadata, interface_parts, interface_line,
}

-- The columns write the numbers, which 64 bits hold.
abbrev pub IsRow : List (ℕ × Str) → List ℕ → Type 0
IsRow [] [] = Unit
IsRow ((n, w) ∷ cs) (c ∷ counters) = IsDecimal w c × (c < 2 ^ 64) × IsRow cs counters
IsRow _ _ = ⊥

-- The statistics of an interface with these counters, in the order in which the kernel prints them.
pub record IsReading (name : Str) (counters : List ℕ) (s : NetworkStats) : Type 0 where
  pub interface : s.interface ≡ name
  pub rx_bytes : s.rx_bytes ≡ get_or counters 0 0
  pub rx_packets : s.rx_packets ≡ get_or counters 1 0
  pub rx_errors : s.rx_errors ≡ get_or counters 2 0
  pub rx_dropped : s.rx_dropped ≡ get_or counters 3 0
  pub rx_fifo : s.rx_fifo ≡ get_or counters 4 0
  pub rx_frame : s.rx_frame ≡ get_or counters 5 0
  pub rx_compressed : s.rx_compressed ≡ get_or counters 6 0
  pub rx_multicast : s.rx_multicast ≡ get_or counters 7 0
  pub tx_bytes : s.tx_bytes ≡ get_or counters 8 0
  pub tx_packets : s.tx_packets ≡ get_or counters 9 0
  pub tx_errors : s.tx_errors ≡ get_or counters 10 0
  pub tx_dropped : s.tx_dropped ≡ get_or counters 11 0
  pub tx_fifo : s.tx_fifo ≡ get_or counters 12 0
  pub tx_collisions : s.tx_collisions ≡ get_or counters 13 0
  pub tx_carrier : s.tx_carrier ≡ get_or counters 14 0
  pub tx_compressed : s.tx_compressed ≡ get_or counters 15 0

IsRow-AreWords : (cs : List (ℕ × Str)) (counters : List ℕ) → IsRow cs counters → AreWords cs
IsRow-AreWords [] counters h = tt
IsRow-AreWords ((n, w) ∷ cs) [] h = absurd h
IsRow-AreWords ((n, w) ∷ cs) (c ∷ counters) (d, l, h) =
    (IsDecimal-nonempty w c d, IsDecimal-AllVisible w c d, IsRow-AreWords cs counters h)

length-words :
    (cs : List (ℕ × Str)) (counters : List ℕ)
    → IsRow cs counters
    → length (words cs) ≡ length counters
length-words [] [] h = refl
length-words [] (c ∷ counters) h = absurd h
length-words ((n, w) ∷ cs) [] h = absurd h
length-words ((n, w) ∷ cs) (c ∷ counters) (d, l, h) = ap suc (length-words cs counters h)

counter-words :
    (cs : List (ℕ × Str)) (counters : List ℕ)
    → IsRow cs counters
    → (i : ℕ) → counter (words cs) i ≡ get_or counters i 0
unfolding parse_word
counter-words [] [] h i = refl
counter-words [] (c ∷ counters) h i = absurd h
counter-words ((n, w) ∷ cs) [] h i = absurd h
counter-words ((n, w) ∷ cs) (c ∷ counters) (d, l, h) zero =
    ap (λ (p : ℕ × Bool). p.0) (parse_word-IsDecimal w c d l)
counter-words ((n, w) ∷ cs) (c ∷ counters) (d, l, h) (suc i) = counter-words cs counters h i

row-lacks :
    (cs : List (ℕ × Str)) (counters : List ℕ) → IsRow cs counters → contains (row cs) b':' ≡ false
unfolding contains
row-lacks [] counters h = refl
row-lacks ((n, w) ∷ cs) [] h = absurd h
row-lacks ((n, w) ∷ cs) (c ∷ counters) (d, l, h) =
    rw
      (
        contains-append (spaces n) (w ++ row cs) b':',
        contains-append w (row cs) b':',
        contains-spaces n b':' (λ e. omega (arith, e)),
        IsDecimal-lacks w c b':' (omega arith) d,
        row-lacks cs counters h,
      )
      refl

module _ (read : Str → Option Str) (proc_net_dev : Option Scanned) (sys_class_net_path : Str) where
  stats_of-IsReading :
      (name : Str) (cs : List (ℕ × Str)) (counters : List ℕ)
      → IsRow cs counters
      → IsReading name counters
          (read_interface_metadata read proc_net_dev sys_class_net_path (stats_of name (words cs)))
  unfolding read_interface_metadata
  stats_of-IsReading name cs counters h =
      let at = counter-words cs counters h in
      record {
        interface = refl;
        rx_bytes = at 0;
        rx_packets = at 1;
        rx_errors = at 2;
        rx_dropped = at 3;
        rx_fifo = at 4;
        rx_frame = at 5;
        rx_compressed = at 6;
        rx_multicast = at 7;
        tx_bytes = at 8;
        tx_packets = at 9;
        tx_errors = at 10;
        tx_dropped = at 11;
        tx_fifo = at 12;
        tx_collisions = at 13;
        tx_carrier = at 14;
        tx_compressed = at 15;
      }

  -- The parts of a line at its colon.
  split-line :
      (n : ℕ) (name : Str) (cs : List (ℕ × Str)) (counters : List ℕ)
      → contains name b':' ≡ false
      → IsRow cs counters
      → split (spaces n ++ (name ++ (b':' ∷ row cs))) b':' ≡ (spaces n ++ name) ∷ row cs ∷ []
  split-line n name cs counters lacks h =
      let front : contains (spaces n ++ name) b':' ≡ false =
        rw (contains-append (spaces n) name b':', contains-spaces n b':' (λ e. omega (arith, e)))
          lacks in
      rw append_assoc at (split-at (spaces n ++ name) (row cs) b':' front)
      ∙ ap (λ ps. (spaces n ++ name) ∷ ps) (split-lacking (row cs) b':' (row-lacks cs counters h))

  -- A line of /proc/net/dev as the kernel prints it, with a name that has no colon and no white space,
  -- and with decimal numbers below 2^64: it is left out exactly if it has fewer than sixteen numbers,
  -- and else gives the interface of that name, each counter of which is the number in its own column.
  pub interface_line-reads :
      (n : ℕ) (name : Str) (cs : List (ℕ × Str)) (counters : List ℕ)
      → AllVisible name
      → contains name b':' ≡ false
      → IsRow cs counters
      → ((length counters < 16)
          × (interface_line read proc_net_dev sys_class_net_path
                (spaces n ++ (name ++ (b':' ∷ row cs)))
              ≡ none))
        ⊎ ((16 ≤ length counters)
            × ((s : NetworkStats) × (interface_line read proc_net_dev sys_class_net_path
                    (spaces n ++ (name ++ (b':' ∷ row cs)))
                  ≡ some s)
                × IsReading name counters s))
  unfolding interface_line interface_parts
  interface_line-reads n name cs counters visible lacks h =
      let parts = split-line n name cs counters lacks h in
      let columns = fields-row cs (IsRow-AreWords cs counters h) in
      let size = length-words cs counters h in
      elim (Bool-cases (ltb (length (words cs)) 16)) [
        | inl few ↦ inl (ground (arith, few, size), rw (parts, interface_parts, columns, few) refl)
        | inr enough ↦ inr (
          ground (arith, enough, size),
          (
            read_interface_metadata read proc_net_dev sys_class_net_path (stats_of name (words cs)),
            rw (parts, interface_parts, columns, enough, trim_space-padded n name visible) refl,
            stats_of-IsReading name cs counters h,
          ),
        )
      ]
