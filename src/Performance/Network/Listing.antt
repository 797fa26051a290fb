-- ===== src/Performance/Network/Listing.antt =====
-- What the collector reads of the file /proc/net/dev as the kernel prints it.
use system_agent.Prelude.{
  ℕ, ◌<◌, ◌≤◌, true, false, List, [], ◌∷◌, ◌++◌, Option, some, length, map, drop, ◌≡◌, ◌≢◌, ◌⊎◌,
  ◌==◌, inl, inr, refl, ap, arith,
}
use system_agent.Prelude.Text.{Str, contains, contains-append, is_space}
use system_agent.Prelude.Text.Columns.{spaces, AllVisible, row, contains-spaces, AllVisible-lacks}
use system_agent.Prelude.Scan.{Scanned}
use system_agent.Prelude.Scan.Decimal.{IsDecimal-AllVisible}
use system_agent.Prelude.Scan.Lines.{text_of, AreLines, scan_lines-text_of}
use system_agent.Performance.Network.{NetworkStats, interface_lines, collect_network_stats}
use system_agent.Performance.Network.Reading.{IsRow, IsReading, interface_line-reads}

-- An interface as the kernel prints it: the width of the padding, the name, the columns, and the
-- numbers that these write.
pub record Entry : Type 0 where
  pub padding : ℕ
  pub name : Str
  pub columns : List (ℕ × Str)
  pub counters : List ℕ

abbrev pub line_of : Entry → Str
line_of e = spaces e.padding ++ (e.name ++ (b':' ∷ row e.columns))

pub record IsPrinted (e : Entry) : Type 0 where
  pub visible : AllVisible e.name
  pub no_colon : contains e.name b':' ≡ false
  pub numbers : IsRow e.columns e.counters

abbrev pub ArePrinted : List Entry → Type 0
ArePrinted [] = Unit
ArePrinted (e ∷ es) = IsPrinted e × ArePrinted es

-- The statistics are those of the entries with sixteen numbers or more, in their order.
abbrev pub AreReadings : List Entry → List NetworkStats → Type 0
AreReadings [] stats = stats ≡ []
AreReadings (e ∷ es) stats =
    ((length e.counters < 16) × AreReadings es stats)
    ⊎ ((16 ≤ length e.counters)
        × ((s : NetworkStats) × (rest : List NetworkStats) × (stats ≡ s ∷ rest)
            × IsReading e.name e.counters s
            × AreReadings es rest))

row-lacks :
    (cs : List (ℕ × Str)) (counters : List ℕ) (b : ℕ)
    → is_space b ≡ true
    → b ≢ 32
    → IsRow cs counters
    → contains (row cs) b ≡ false
unfolding contains
row-lacks [] counters b s n h = refl
row-lacks ((k, w) ∷ cs) [] b s n h = absurd h
row-lacks ((k, w) ∷ cs) (c ∷ counters) b s n (d, l, h) =
    let other : (32 == b) ≡ false = ground (arith, n) in
    rw
      (
        other,
        contains-append (spaces k) (w ++ row cs) b,
        contains-append w (row cs) b,
        contains-spaces k b n,
        AllVisible-lacks w b s (IsDecimal-AllVisible w c d),
        row-lacks cs counters b s n h,
      )
      refl

line_of-lacks :
    (e : Entry) (b : ℕ) → is_space b ≡ true → b ≢ 32 → IsPrinted e → contains (line_of e) b ≡ false
unfolding contains
line_of-lacks e b s n p =
    let other : (b':' == b) ≡ false = ground (arith, s) in
    rw
      (
        contains-append (spaces e.padding) (e.name ++ (b':' ∷ row e.columns)) b,
        contains-append e.name (b':' ∷ row e.columns) b,
        contains-spaces e.padding b n,
        AllVisible-lacks e.name b s p.visible,
        other,
        row-lacks e.columns e.counters b s n p.numbers,
      )
      refl

AreLines-line_of : (es : List Entry) → ArePrinted es → AreLines (map line_of es)
AreLines-line_of [] h = tt
AreLines-line_of (e ∷ es) (p, h) = (
  line_of-lacks e 10 refl (λ q. omega (arith, q)) p,
  line_of-lacks e 13 refl (λ q. omega (arith, q)) p,
  AreLines-line_of es h,
)

module _ (read : Str → Option Str) (sys_class_net_path : Str) where
  interface_lines-AreReadings :
      (dev : Option Scanned) (es : List Entry)
      → ArePrinted es
      → AreReadings es (interface_lines read dev sys_class_net_path (map line_of es))
  unfolding interface_lines
  interface_lines-AreReadings dev [] h = refl
  interface_lines-AreReadings dev (e ∷ es) (p, h) =
      let rest = interface_lines-AreReadings dev es h in
      elim (interface_line-reads read dev sys_class_net_path e.padding e.name e.columns e.counters
        p.visible p.no_colon p.numbers) [
          | inl (few, skipped) ↦ rw (skipped, interface_lines) (inl (few, rest))
          | inr (enough, (s, found, reading)) ↦
              rw (found, interface_lines) (inr (enough, (s, _, refl, reading, rest)))
        ]

  -- A file of two header lines and one line for each interface, as the kernel prints them, that is read
  -- to its end: the collector returns, in the order of the lines, the interfaces with sixteen numbers or
  -- more, each with its name and with each counter the number in its own column, and no other.
  pub collect_network_stats-reads :
      (face header : Str) (es : List Entry)
      → AreLines (face ∷ header ∷ [])
      → ArePrinted es
      → (stats : List NetworkStats) × (collect_network_stats read
            (some (record { text = text_of (face ∷ header ∷ map line_of es); failed = false }))
            sys_class_net_path
          ≡ some stats)
        × AreReadings es stats
  unfolding collect_network_stats
  collect_network_stats-reads face header es (a, b, (c, d, _)) h =
      let dev : Option Scanned =
        some (record { text = text_of (face ∷ header ∷ map line_of es); failed = false }) in
      (
        interface_lines read dev sys_class_net_path (map line_of es),
        ap (λ ls. some (interface_lines read dev sys_class_net_path (drop 2 ls)))
            (scan_lines-text_of (face ∷ header ∷ map line_of es)
              (a, b, (c, d, AreLines-line_of es h))),
        interface_lines-AreReadings dev es h,
      )
