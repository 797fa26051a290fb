-- ===== src/Performance/Registry.antt =====
-- pkg/performance/registry.go and `CanRun` of pkg/performance/collector.go: the factories of
-- collectors, by metric type. What is global there is the record `Registry`. A factory is `F`, and
-- `probe` what it returns for the default configuration, the error or the collector's capabilities;
-- `status` is the content of /proc/self/status, and `kernel` the kernel's version as text.
pub mod Runnable
use system_agent.Prelude.{
  Bool, true, false, List, [], ◌∷◌, Option, none, some, length, map, not, ◌&&◌, ltb, if◌then◌else◌,
  ◌≡◌,
}
use system_agent.Prelude.Text.{Str}
use system_agent.Prelude.Assoc.{Assoc, lookup, insert}
use system_agent.Prelude.Result.{Result, ok, err}
use system_agent.Performance.Capabilities.{Capability, StatusError, has_all_capabilities}
use system_agent.Performance.Collector.{CollectorCapabilities}

-- The errors of `CanRun`: the failed check, or one error for each capability that is missing.
pub data RunError : Type 0 where
  check_failed : StatusError → RunError
  missing_capabilities : List Capability → RunError

unfoldable pub can_run : Option Str → CollectorCapabilities → Option RunError
can_run status c = elim c.required_capabilities [
  | [] ↦ none
  | cap ∷ caps ↦ elim (has_all_capabilities status (cap ∷ caps)) [
    | err e ↦ some (check_failed e)
    | ok (has_all, missing) ↦
        if not has_all && ltb 0 (length missing) then some (missing_capabilities missing) else none
  ]
]

-- The texts of `Reason`.
pub data Reason (E : Type 0) : Type 0 where
  failed_to_create : E → Reason E
  lacks : List Capability → Reason E
  failed_to_check : RunError → Reason E

pub record UnavailableCollector (E : Type 0) : Type 0 where
  pub metric_type : Str
  pub reason : Reason E
  pub missing_capabilities : List Capability
  pub min_kernel_version : Str
  pub current_kernel_version : Str

pub record Registry (E F : Type 0) : Type 0 where
  pub registry : Assoc F
  pub unavailable_collectors : Assoc (UnavailableCollector E)

-- What `GetCollectorStatus` returns.
pub data Availability (E : Type 0) : Type 0 where
  available not_found : Availability E
  unavailable : Reason E → Availability E

pub data NotFound : Type 0 where
  collector_not_found : Str → NotFound

module _ {E F : Type 0} (probe : F → Result E CollectorCapabilities) (status : Option Str)
    (kernel : Option Str) where
  -- The string of the detected version, empty where there is none.
  abbrev current_kernel_version : Str
  current_kernel_version = elim kernel [ none ↦ [] | some v ↦ v ]

  -- What `Register` notes of a collector that cannot run.
  abbrev pub unavailable_of : Str → CollectorCapabilities → RunError → UnavailableCollector E
  unavailable_of metric_type caps (missing_capabilities []) = record {
    metric_type = metric_type;
    reason = failed_to_check (missing_capabilities []);
    missing_capabilities = [];
    min_kernel_version = [];
    current_kernel_version = current_kernel_version;
  }
  unavailable_of metric_type caps (missing_capabilities (c ∷ cs)) = record {
    metric_type = metric_type;
    reason = lacks (c ∷ cs);
    missing_capabilities = c ∷ cs;
    min_kernel_version = caps.min_kernel_version;
    current_kernel_version = current_kernel_version;
  }
  unavailable_of metric_type caps (check_failed e) = record {
    metric_type = metric_type;
    reason = failed_to_check (check_failed e);
    missing_capabilities = [];
    min_kernel_version = [];
    current_kernel_version = current_kernel_version;
  }

  -- What `Register` finds: the factory can run, or why not.
  unfoldable pub examine : Str → F → Option (UnavailableCollector E)
  examine metric_type collector = elim (probe collector) [
    | err e ↦ some (record {
      metric_type = metric_type;
      reason = failed_to_create e;
      missing_capabilities = [];
      min_kernel_version = [];
      current_kernel_version = [];
    })
    | ok caps ↦ elim (can_run status caps) [
      | some e ↦ some (unavailable_of metric_type caps e)
      | none ↦ none
    ]
  ]

  -- `Register`, where `none` is its panic.
  unfoldable pub register : Str → F → Registry E F → Option (Registry E F)
  register metric_type collector r = elim (lookup metric_type r.registry) [
    | some _ ↦ none
    | none ↦ elim (examine metric_type collector) [
      | some u ↦
          some (record r { unavailable_collectors = insert metric_type u r.unavailable_collectors })
      | none ↦ some (record r { registry = insert metric_type collector r.registry })
    ]
  ]

  unfoldable pub get_collector : Str → Registry E F → Result NotFound F
  get_collector metric_type r = elim (lookup metric_type r.registry) [
    | none ↦ err (collector_not_found metric_type)
    | some collector ↦ ok collector
  ]

  -- The keys of the map, in one order of the many that Go may choose.
  unfoldable pub get_available_collectors : Registry E F → List Str
  get_available_collectors r = map (λ e. e.0) r.registry

  unfoldable pub get_unavailable_collectors : Registry E F → Assoc (UnavailableCollector E)
  get_unavailable_collectors r = r.unavailable_collectors

  unfoldable pub get_collector_status : Str → Registry E F → Bool × Availability E
  get_collector_status metric_type r = elim (lookup metric_type r.registry) [
    | some _ ↦ (true, available)
    | none ↦ elim (lookup metric_type r.unavailable_collectors) [
      | some u ↦ (false, unavailable u.reason)
      | none ↦ (false, not_found)
    ]
  ]
