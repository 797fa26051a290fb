-- ===== src/Performance/Manager.antt =====
-- internal/perf/manager/manager.go: the collectors that run, as the configurations say. A context made
-- for a collector is a number, its cancel function too. The registry, the factories and a collector's
-- `Start` are arguments; a `Start` returns a channel of `Ch`. Each handler holds the mutex.
pub mod Contexts
pub mod Refinement
use system_agent.Prelude.{
  ℕ, ◌+◌, ◌*◌, Bool, true, false, List, [], ◌∷◌, ◌++◌, map, Option, none, some, if◌then◌else◌, ◌≡◌,
}
use system_agent.Prelude.Int.{ℤ, pos}
use system_agent.Prelude.Text.{Str, str_eq}
use system_agent.Prelude.Assoc.{Assoc, lookup, insert, delete}
use system_agent.Prelude.Result.{Result, ok, err}
use system_agent.Delta.{unset}
use system_agent.Config.Types.{Instance}
use system_agent.Performance.CollectionConfig.{CollectionConfig, apply_defaults}

-- A configuration's object: the message HostStatsCollectionConfig, or another.
pub data Message : Type 0 where
  host_stats_collection_config : Str → ℕ → Message
  other_message : Message

pub record CollectorInstance : Type 0 where
  pub version : Str
  pub cancel : ℕ

-- `contexts` counts the contexts that were made, and `cancelled` holds those whose cancel function was
-- called, a context once for each call; `events` are the channels that `perfEvents` was given, each
-- with the context of its collector.
pub record Manager (Ch : Type 0) : Type 0 where
  pub proc_path : Str
  pub sys_path : Str
  pub dev_path : Str
  pub running_collectors : Assoc CollectorInstance
  pub events : List (ℕ × Ch)
  pub contexts : ℕ
  pub cancelled : List ℕ

pub data StartError (E : Type 0) : Type 0 where
  invalid_config_type collector_empty : StartError E
  not_found : Str → StartError E
  failed_to_create failed_to_start : E → StartError E

-- `performance.GetCollector`, and what a factory `F` and a collector `C` may return.
pub record Collectors (E F C Ch : Type 0) : Type 0 where
  pub get_collector : Str → Option F
  pub create : F → CollectionConfig → Result E C
  pub start : C → Result E Ch

abbrev pub versions : Assoc CollectorInstance → Assoc Str
versions [] = []
versions ((name, instance) ∷ rest) = (name, instance.version) ∷ versions rest

abbrev pub all_contexts : Assoc CollectorInstance → List ℕ
all_contexts [] = []
all_contexts ((name, instance) ∷ rest) = instance.cancel ∷ all_contexts rest

module _ {E F C Ch : Type 0} (collectors : Collectors E F C Ch) where
  -- What `startCollector` hands to the factory.
  abbrev pub collection_config : ℕ → Manager Ch → CollectionConfig
  collection_config interval_seconds m = apply_defaults (record {
    interval = pos (interval_seconds * 1000000000);
    enabled_collectors = none;
    host_proc_path = m.proc_path;
    host_sys_path = m.sys_path;
    host_dev_path = m.dev_path;
    top_process_count = pos 0;
    delta = record { mode = unset; min_interval = pos 0; max_interval = pos 0 };
  })

  -- The collector that `startCollector` starts, made but not started.
  unfoldable pub make_collector : Instance Message → Manager Ch → Result (StartError E) C
  make_collector config m = elim config.object [
    | none ↦ err invalid_config_type
    | some message ↦ elim message [
      | other_message ↦ err invalid_config_type
      | host_stats_collection_config collector interval_seconds ↦ elim collector [
        | [] ↦ err collector_empty
        | c ∷ s ↦ elim (collectors.get_collector (c ∷ s)) [
          | none ↦ err (not_found (c ∷ s))
          | some factory ↦ elim (collectors.create factory (collection_config interval_seconds m)) [
            | err e ↦ err (failed_to_create e)
            | ok collector' ↦ ok collector'
          ]
        ]
      ]
    ]
  ]

  unfoldable pub start_collector :
      Instance Message → Manager Ch → Result (StartError E) ℕ × Manager Ch
  start_collector config m = elim (make_collector config m) [
    | err e ↦ (err e, m)
    | ok c ↦ elim (collectors.start c) [
      | err e ↦ (
        err (failed_to_start e),
        record m { contexts = m.contexts + 1; cancelled = m.contexts ∷ m.cancelled },
      )
      | ok ch ↦ (
        ok m.contexts,
        record m { contexts = m.contexts + 1; events = m.events ++ ((m.contexts, ch) ∷ []) },
      )
    ]
  ]

  -- instance.cancel() and delete(m.runningCollectors, collectorKey)
  abbrev pub cancel_collector : Str → CollectorInstance → Manager Ch → Manager Ch
  cancel_collector key instance m = record m {
    running_collectors = delete key m.running_collectors;
    cancelled = instance.cancel ∷ m.cancelled;
  }

  -- The end of `handleActiveConfig`, from its call of `startCollector`.
  unfoldable pub run_collector : Instance Message → Manager Ch → Manager Ch
  run_collector config m =
      let (result, m') = start_collector config m in
      elim result [
        | err e ↦ m'
        | ok cancel ↦
            let instance : CollectorInstance = record {
              version = config.version;
              cancel = cancel;
            } in
            record m' { running_collectors = insert config.name instance m'.running_collectors }
      ]

  unfoldable pub handle_active_config : Instance Message → Manager Ch → Manager Ch
  handle_active_config config m = elim (lookup config.name m.running_collectors) [
    | none ↦ run_collector config m
    | some instance ↦
        if str_eq instance.version config.version
        then m
        else run_collector config (cancel_collector config.name instance m)
  ]

  unfoldable pub handle_expired_config : Instance Message → Manager Ch → Manager Ch
  handle_expired_config config m = elim (lookup config.name m.running_collectors) [
    | none ↦ m
    | some instance ↦ cancel_collector config.name instance m
  ]

  unfoldable pub stop_all_collectors : Manager Ch → Manager Ch
  stop_all_collectors m = record m {
    running_collectors = [];
    cancelled = all_contexts m.running_collectors ++ m.cancelled;
  }

  unfoldable pub get_running_collectors : Manager Ch → Assoc Str
  get_running_collectors m = versions m.running_collectors

  -- One round of the loop of `collectorManager` with a configuration.
  unfoldable pub handle_config : Instance Message → Manager Ch → Manager Ch
  handle_config config m =
      if config.expired then handle_expired_config config m else handle_active_config config m

  -- `collectorManager`, with the configurations that it receives until its context is done.
  unfoldable pub collector_manager : List (Instance Message) → Manager Ch → Manager Ch
  collector_manager [] m = stop_all_collectors m
  collector_manager (config ∷ configs) m = collector_manager configs (handle_config config m)
