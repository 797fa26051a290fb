-- ===== src/Performance/System/Tests.antt =====
-- Collections a long time behind the last one.
use system_agent.Prelude.{arith, ℕ, false, List, [], ◌∷◌, none, some, ◌≡◌, refl}
use system_agent.Prelude.Int.{ℤ, pos, ◌-ℤ◌, ◌<ℤ◌}
use system_agent.Delta.{BaseDeltaCollector, enabled, time_sub}
use system_agent.Performance.System.{SystemStats}
use system_agent.Performance.System.Stale.{collect_all, collect_all-late}

abbrev counts : ℕ → SystemStats
counts n = record { interrupts = n; context_switches = n; delta = none }

abbrev base : BaseDeltaCollector SystemStats
base = record {
  config = record { mode = enabled; min_interval = pos 1; max_interval = pos 100 };
  last_snapshot = some (counts 3);
  last_time = pos 5;
  is_first = false;
}

abbrev per_second : ℕ → ℤ → ℕ
per_second d interval = d

abbrev collections : List (ℤ × SystemStats)
collections = (pos 1000, counts 7) ∷ (pos 1010, counts 8) ∷ []

late : pos 100 <ℤ time_sub (pos 1000) (pos 5)
unfolding time_sub ◌-ℤ◌
late = omega arith

collect_all-late_example :
    collect_all per_second collections base ≡ (counts 7 ∷ counts 8 ∷ [], base)
collect_all-late_example =
    collect_all-late per_second (pos 1000) collections base refl late
      (omega arith, (omega arith, tt))
