-- ===== src/Performance/System/Stale.antt =====
-- A collector of system statistics behind a gap.
use system_agent.Prelude.{
  ℕ, true, false, Bool, List, [], ◌∷◌, Option, some, if◌then◌else◌, ◌≡◌, refl, ap, ◌∙◌, arith,
}
use system_agent.Prelude.Int.{ℤ, ltb_ℤ, ◌≤ℤ◌, ◌<ℤ◌, ◌-ℤ◌, -ℤ_parts}
use system_agent.Delta.{
  BaseDeltaCollector, Reason, should_calculate_deltas, update_delta_state, time_sub, saturate,
  delta_disabled, no_previous_state, time_went_backwards, interval_too_large,
}
use system_agent.Performance.System.{SystemStats, collect_stats}

saturate_mono : (a b : ℤ) → a ≤ℤ b → saturate a ≤ℤ saturate b
saturate_mono a b h = ground arith

-- The interval to a later time is no shorter, also where it is cut to a duration.
time_sub_mono : (t t' u : ℤ) → t ≤ℤ t' → time_sub t u ≤ℤ time_sub t' u
unfolding time_sub
time_sub_mono t t' u h =
    saturate_mono (t -ℤ u) (t' -ℤ u) (omega (arith, h, -ℤ_parts t u, -ℤ_parts t' u))

-- No collection is at a time before `t`.
abbrev pub NoneBefore : ℤ → List (ℤ × SystemStats) → Type 0
NoneBefore t [] = Unit
NoneBefore t ((t', current) ∷ rest) = (t ≤ℤ t') × NoneBefore t rest

abbrev pub readings : List (ℤ × SystemStats) → List SystemStats
readings [] = []
readings ((t, current) ∷ rest) = current ∷ readings rest

-- A time that is further behind the last one than the longest interval has a reason against
-- differences.
late-refused :
    (t : ℤ) (b : BaseDeltaCollector SystemStats)
    → b.config.max_interval <ℤ time_sub t b.last_time
    → (r : Reason) × (should_calculate_deltas t b ≡ some r)
unfolding should_calculate_deltas time_sub
late-refused t b h = if_some _ delta_disabled _ (
    if_some _ no_previous_state _ (
      if_some _ time_went_backwards _ (
        interval_too_large,
        if_true (ltb_ℤ b.config.max_interval (time_sub t b.last_time)) _ _ (ground (arith, h)),
      )))
  where
    if_some :
        (c : Bool) (r : Reason) (x : Option Reason)
        → ((r' : Reason) × (x ≡ some r'))
        → (r' : Reason) × ((if c then some r else x) ≡ some r')
    if_some true r x h = (r, refl)
    if_some false r x h = h

    if_true : (c : Bool) (x y : Option Reason) → c ≡ true → (if c then x else y) ≡ x
    if_true true x y h = refl
    if_true false x y h = cc

module _ (per_second : ℕ → ℤ → ℕ) where
  -- The statistics of collections at some times, and the collector behind them.
  unfoldable pub collect_all :
      List (ℤ × SystemStats)
      → BaseDeltaCollector SystemStats
      → List SystemStats × BaseDeltaCollector SystemStats
  collect_all [] b = ([], b)
  collect_all ((t, current) ∷ rest) b =
      let (stats, b') = collect_stats per_second t current b in
      let (others, b'') = collect_all rest b' in (stats ∷ others, b'')

  collect_stats-late :
      (t : ℤ) (current : SystemStats) (b : BaseDeltaCollector SystemStats)
      → b.is_first ≡ false
      → b.config.max_interval <ℤ time_sub t b.last_time
      → collect_stats per_second t current b ≡ (current, b)
  unfolding collect_stats
  collect_stats-late t current b first late =
      let (r, refused) = late-refused t b late in
      rw (refused, collect_stats)
        (ap (λ x. (current, x))
          (ap (λ f. if f then update_delta_state (some current) t b else b) first))

  -- Once a collector that has collected before is asked at a time `t` that is further behind its last
  -- one than the longest interval, no collection at `t` or later ever gives a difference again: each
  -- returns what was read, and leaves the collector, its last time included, as it was.
  pub collect_all-late :
      (t : ℤ) (collections : List (ℤ × SystemStats)) (b : BaseDeltaCollector SystemStats)
      → b.is_first ≡ false
      → b.config.max_interval <ℤ time_sub t b.last_time
      → NoneBefore t collections
      → collect_all collections b ≡ (readings collections, b)
  unfolding collect_all
  collect_all-late t [] b first late n = refl
  collect_all-late t ((t', current) ∷ rest) b first late (n, ns) =
      let later : b.config.max_interval <ℤ time_sub t' b.last_time =
        omega (arith, late, time_sub_mono t t' b.last_time n) in
      ap
        (λ p.
          let (stats, b') = p in let (others, b'') = collect_all rest b' in (stats ∷ others, b''))
        (collect_stats-late t' current b first later)
      ∙ ap (λ p. let (others, b'') = p in (current ∷ others, b''))
          (collect_all-late t rest b first late ns)
