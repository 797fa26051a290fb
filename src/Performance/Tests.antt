-- ===== src/Performance/Tests.antt =====
-- A collector of numbers, and a registry of collectors on a process with CAP_BPF and CAP_PERFMON.
use system_agent.Prelude.{
  ℕ, true, false, List, [], ◌∷◌, ◌++◌, Option, none, some, if◌then◌else◌, ltb, ◌≡◌, ◌≢◌, ◌⊎◌, ◌↔◌,
  refl, arith,
}
use system_agent.Prelude.Text.{Str, codes, str_eq, split, fields, has_prefix}
use system_agent.Prelude.Hex.{parse_uint_hex, hex_value}
use system_agent.Prelude.Assoc.{lookup}
use system_agent.Prelude.Result.{Result, ok}
use system_agent.Performance.Capabilities.{cap_eff, cap_bpf, cap_syslog, AllSet}
use system_agent.Performance.Collector.{
  active, disabled, Event, CollectorCapabilities, PointCollector, ContinuousPointCollector,
  OnceContinuousCollector, new_continuous_point_collector, new_once_continuous_collector, launch,
  activate, finish, start_once,
}
use system_agent.Performance.Collector.Running.{
  started, ended, run, ticks, run-collects, finish-before-activate,
}
use system_agent.Performance.Collector.Once.{starts, start_once-repeats}
use system_agent.Performance.Registry.{
  can_run, Registry, examine, register, get_collector, get_collector_status,
}
use system_agent.Performance.Registry.Runnable.{can_run_iff, register_lem, verdict, factory}
use system_agent.Prelude.Int.{pos}
use system_agent.Delta.{unset}
use system_agent.Config.Types.{Instance}
use system_agent.Performance.CollectionConfig.{CollectionConfig, ValidateOptions}
use system_agent.Performance.Manager.{
  Message, host_stats_collection_config, Collectors, Manager, handle_config, collector_manager,
}
use system_agent.Performance.Manager.Contexts.{IsOwned, occurs, collector_manager-cancels}
use system_agent.Performance.Manager.Refinement.{
  view, configured, can_start, handle_config-configured,
}

abbrev caps : CollectorCapabilities
caps = record {
  supports_one_shot = true;
  supports_continuous = false;
  required_capabilities = cap_bpf ∷ cap_syslog ∷ [];
  min_kernel_version = [];
}

abbrev point : PointCollector
point = record { type = codes "load"; name = codes "load"; capabilities = caps }

abbrev collector : ContinuousPointCollector Str ℕ
collector = new_continuous_point_collector point

abbrev once_collector : OnceContinuousCollector Str ℕ
once_collector = new_once_continuous_collector point

abbrev event : ℕ → Event ℕ
event n = record { metric = codes "load"; data_ = some n }

abbrev outcomes : List (Event ℕ × Option Str)
outcomes = (event 1, none) ∷ (event 2, some (codes "no file")) ∷ (event 3, none) ∷ []

run-collects_example :
    run (started ∷ ticks outcomes ++ (ended ∷ [])) collector
    ≡ record collector { closed = (event 1 ∷ event 3 ∷ []) ∷ [] }
run-collects_example = run-collects outcomes collector refl

abbrev launched : ContinuousPointCollector Str ℕ
launched = record collector { channel = some []; running = true; starting = true }

launch_is : launch collector ≡ some launched
unfolding launch
launch_is = refl

finish-before-activate_example :
    ((activate (finish launched)).base.status ≡ active)
    × ((activate (finish launched)).running ≡ false)
    × (run (started ∷ ended ∷ []) (activate (finish launched)) ≡ activate (finish launched))
finish-before-activate_example =
    finish-before-activate collector launched (started ∷ ended ∷ []) launch_is

start_once-repeats_example :
    ((start_once (event 1) none once_collector).0 ≡ some (event 1 ∷ [], none))
    × ((start_once
          (event 3)
          (some (codes "no file"))
          (starts outcomes (start_once (event 1) none once_collector).1)).0
        ≡ some (event 1 ∷ [], none))
    × ((starts outcomes (start_once (event 1) none once_collector).1).base.status ≡ disabled)
start_once-repeats_example =
    start_once-repeats (event 1) (event 3) none (some (codes "no file")) outcomes once_collector
      refl refl

abbrev line : Str
line = codes "CapEff: 000000c000000000"

abbrev text : Str
text = codes "Name: agent" ++ (10 ∷ line) ++ (10 ∷ [])

line-value : cap_eff line ≡ some 824633720832
unfolding cap_eff parse_uint_hex hex_value fields has_prefix
line-value = refl

can_run_iff_example :
    (can_run (some text) caps ≡ none) ↔ AllSet 824633720832 (cap_bpf ∷ cap_syslog ∷ [])
unfolding split cap_eff has_prefix
can_run_iff_example =
    can_run_iff text (codes "Name: agent" ∷ []) ([] ∷ []) line 824633720832 caps refl (refl, tt)
      line-value

abbrev probe : CollectorCapabilities → Result Str CollectorCapabilities
probe c = ok c

abbrev empty : Registry Str CollectorCapabilities
empty = record { registry = []; unavailable_collectors = [] }

register_lem_example :
    (lookup (codes "load") empty.registry ≢ none
      × (register probe (some text) none (codes "load") caps empty ≡ none))
    ⊎ (lookup (codes "load") empty.registry ≡ none)
      × ((r' : Registry Str CollectorCapabilities) × (register probe
              (some text)
              none
              (codes "load")
              caps
              empty
            ≡ some r')
          × ((t : Str)
              → get_collector_status probe (some text) none t r' ≡ (
                  if str_eq (codes "load") t
                  then verdict probe
                      (some text)
                      none
                      (examine probe (some text) none (codes "load") caps)
                  else get_collector_status probe (some text) none t empty))
          × ((t : Str)
              → get_collector probe (some text) none t r' ≡ (
                  if str_eq (codes "load") t
                  then factory probe
                      (some text)
                      none
                      t
                      caps
                      (examine probe (some text) none (codes "load") caps)
                  else get_collector probe (some text) none t empty)))
register_lem_example = register_lem probe (some text) none (codes "load") caps empty

abbrev config_1 : CollectionConfig
config_1 = record {
  interval = pos 0;
  enabled_collectors = none;
  host_proc_path = codes "/host/proc";
  host_sys_path = [];
  host_dev_path = [];
  top_process_count = pos 0;
  delta = record { mode = unset; min_interval = pos 0; max_interval = pos 0 };
}

abbrev all_required : ValidateOptions
all_required = record {
  require_host_proc_path = true;
  require_host_sys_path = true;
  require_host_dev_path = true;
}

-- Collectors of which only "load" is registered; a factory is the name, and so is the channel.
abbrev collectors : Collectors Str Str Str Str
collectors = record {
  get_collector = λ name. if str_eq name (codes "load") then some name else none;
  create = λ f c. ok f;
  start = λ c. ok c;
}

abbrev configured_as : Str → Str → Instance Message
configured_as collector version = record {
  type_url = codes "config";
  name = codes "a";
  version = version;
  object = some (host_stats_collection_config collector 10);
  status = 1;
  expired = false;
}

abbrev manager : Manager Str
manager = record {
  proc_path = codes "/proc";
  sys_path = codes "/sys";
  dev_path = codes "/dev";
  running_collectors = [];
  events = [];
  contexts = 0;
  cancelled = [];
}

manager-IsOwned : IsOwned manager
unfolding occurs
manager-IsOwned = record { keys = tt; owned = λ id. ground arith }

abbrev configs : List (Instance Message)
configs =
    configured_as (codes "load") (codes "v1")
    ∷ configured_as (codes "load") (codes "v2")
    ∷ configured_as (codes "none") (codes "v3")
    ∷ configured_as (codes "load") (codes "v4")
    ∷ []

collector_manager-cancels_example :
    ((collector_manager collectors configs manager).running_collectors ≡ [])
    × ((id : ℕ)
        → occurs id (collector_manager collectors configs manager).cancelled
          ≡ (if ltb id (collector_manager collectors configs manager).contexts then 1 else 0))
collector_manager-cancels_example =
    collector_manager-cancels collectors configs manager manager-IsOwned

handle_config-configured_example :
    view collectors
      (handle_config collectors (configured_as (codes "load") (codes "v1")) manager)
      (codes "a")
    ≡ configured collectors
        (can_start collectors (configured_as (codes "load") (codes "v1")) manager)
        (configured_as (codes "load") (codes "v1"))
        (view collectors manager)
        (codes "a")
handle_config-configured_example =
    handle_config-configured collectors (configured_as (codes "load") (codes "v1")) manager
      (codes "a")
