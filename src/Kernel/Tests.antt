-- ===== src/Kernel/Tests.antt =====
-- Kernel versions, parsed and compared.
use system_agent.Prelude.{◌≡◌, ◌⊎◌, refl, some}
use system_agent.Prelude.Int.{pos, negsuc}
use system_agent.Prelude.Text.{codes, fields, before, split, atoi}
use system_agent.Prelude.Result.{ok}
use system_agent.Kernel.{Version, parse_version, get_current_version, compare_versions}
use system_agent.Kernel.Order.{Below, SameNumbers, compare_versions_lem}

abbrev v5_15 : Version
v5_15 = record { major = pos 5; minor = pos 15; patch = pos 0; raw = codes "5.15.0-generic" }

get_current_version_runs :
    get_current_version (some (codes " Linux  version 5.15.0-generic (x)")) ≡ ok v5_15
unfolding get_current_version parse_version fields before split atoi
get_current_version_runs = refl

abbrev v5_15_3 : Version
v5_15_3 = record v5_15 { patch = pos 3 }

compare_versions_lem_example :
    (compare_versions v5_15 v5_15_3 ≡ negsuc 0) × Below v5_15 v5_15_3
    ⊎ (compare_versions v5_15 v5_15_3 ≡ pos 0) × SameNumbers v5_15 v5_15_3
    ⊎ (compare_versions v5_15 v5_15_3 ≡ pos 1) × Below v5_15_3 v5_15
compare_versions_lem_example = compare_versions_lem v5_15 v5_15_3
