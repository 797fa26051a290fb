-- ===== src/CpuList/Tests.antt =====
-- CPU lists, parsed.
use system_agent.Prelude.{List, [], ◌∷◌, ◌≡◌, refl}
use system_agent.Prelude.Int.{ℤ, pos, ◌+ℤ◌, ◌-ℤ◌}
use system_agent.Prelude.Text.{codes, contains, split, trim_space, parse_int}
use system_agent.Prelude.Result.{ok, err}
use system_agent.CpuList.{parse_cpu_list, start_after_end}
use system_agent.CpuList.Bounds.{All, IsCpu, parse_cpu_list-IsCpu}

abbrev cpus : List ℤ
cpus = pos 0 ∷ pos 2 ∷ pos 3 ∷ pos 4 ∷ pos 7 ∷ []

parse_cpu_list_runs : parse_cpu_list (codes " 0,2-4, 7\n") ≡ ok cpus
unfolding parse_cpu_list trim_space split contains parse_int ◌-ℤ◌ ◌+ℤ◌
parse_cpu_list_runs = refl

parse_cpu_list_refuses : parse_cpu_list (codes "4-2") ≡ err start_after_end
unfolding parse_cpu_list trim_space split contains parse_int ◌-ℤ◌ ◌+ℤ◌
parse_cpu_list_refuses = refl

parse_cpu_list-IsCpu_example : All IsCpu cpus
parse_cpu_list-IsCpu_example = parse_cpu_list-IsCpu (codes " 0,2-4, 7\n") cpus parse_cpu_list_runs
