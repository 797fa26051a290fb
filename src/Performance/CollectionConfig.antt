-- ===== src/Performance/CollectionConfig.antt =====
-- The configuration of a collection of pkg/performance/types.go, its defaults and its validation.
use Prim.Native.String.{String}
use system_agent.Prelude.{
  Bool, true, false, List, [], ◌∷◌, Option, none, some, not, ◌&&◌, ◌==◌, if◌then◌else◌, ◌≡◌, refl,
  arith,
}
use system_agent.Prelude.Int.{ℤ, pos, eqb_ℤ}
use system_agent.Prelude.Text.{Str, codes}
use system_agent.Prelude.Assoc.{Assoc}
use system_agent.Delta.{DeltaConfig, DeltaCalculationMode, disabled, enabled, unset}

-- A nil map is `none`, an interval is in nanoseconds.
pub record CollectionConfig : Type 0 where
  pub interval : ℤ
  pub enabled_collectors : Option (Assoc Bool)
  pub host_proc_path : Str
  pub host_sys_path : Str
  pub host_dev_path : Str
  pub top_process_count : ℤ
  pub delta : DeltaConfig

abbrev pub enabled_types : List String
enabled_types =
    "load" ∷ "memory" ∷ "cpu" ∷ "process" ∷ "disk" ∷ "network" ∷ "tcp" ∷ "system" ∷ "kernel"
    ∷ "cgroup_cpu" ∷ "cgroup_memory" ∷ "cpu_info" ∷ "memory_info" ∷ "disk_info" ∷ "network_info"
    ∷ "numa_stats" ∷ []

abbrev all_enabled : List String → Assoc Bool
all_enabled [] = []
all_enabled (t ∷ ts) = (codes t, true) ∷ all_enabled ts

abbrev pub default_delta_config : DeltaConfig
default_delta_config = record {
  mode = enabled;
  min_interval = pos 100000000;
  max_interval = pos 300000000000;
}

abbrev pub default_collection_config : CollectionConfig
default_collection_config = record {
  interval = pos 1000000000;
  enabled_collectors = some (all_enabled enabled_types);
  host_proc_path = codes "/proc";
  host_sys_path = codes "/sys";
  host_dev_path = codes "/dev";
  top_process_count = pos 0;
  delta = default_delta_config;
}

abbrev or_duration : ℤ → ℤ → ℤ
or_duration default d = if eqb_ℤ d (pos 0) then default else d

abbrev or_path : Str → Str → Str
or_path default [] = default
or_path default (c ∷ s) = c ∷ s

abbrev or_map : Option (Assoc Bool) → Option (Assoc Bool) → Option (Assoc Bool)
or_map default none = default
or_map default (some m) = some m

abbrev or_mode : DeltaCalculationMode → DeltaCalculationMode → DeltaCalculationMode
or_mode default unset = default
or_mode default disabled = disabled
or_mode default enabled = enabled

unfoldable pub apply_defaults : CollectionConfig → CollectionConfig
apply_defaults c =
    let defaults = default_collection_config in
    record c {
      interval = or_duration defaults.interval c.interval;
      enabled_collectors = or_map defaults.enabled_collectors c.enabled_collectors;
      host_proc_path = or_path defaults.host_proc_path c.host_proc_path;
      host_sys_path = or_path defaults.host_sys_path c.host_sys_path;
      host_dev_path = or_path defaults.host_dev_path c.host_dev_path;
      delta = record {
        mode = or_mode defaults.delta.mode c.delta.mode;
        min_interval = or_duration defaults.delta.min_interval c.delta.min_interval;
        max_interval = or_duration defaults.delta.max_interval c.delta.max_interval;
      };
    }

pub record ValidateOptions : Type 0 where
  pub require_host_proc_path : Bool
  pub require_host_sys_path : Bool
  pub require_host_dev_path : Bool

pub data PathError : Type 0 where
  proc_required sys_required dev_required proc_relative sys_relative dev_relative : PathError

abbrev is_empty : Str → Bool
is_empty [] = true
is_empty (c ∷ s) = false

-- filepath.IsAbs
abbrev is_abs : Str → Bool
is_abs [] = false
is_abs (c ∷ s) = c == b'/'

abbrev is_relative : Str → Bool
is_relative path = not (is_empty path) && not (is_abs path)

-- The result of `Validate`; `none` is a nil error.
unfoldable pub validate : ValidateOptions → CollectionConfig → Option PathError
validate opt c =
    if opt.require_host_proc_path && is_empty c.host_proc_path
    then some proc_required
    else if opt.require_host_sys_path && is_empty c.host_sys_path
    then some sys_required
    else if opt.require_host_dev_path && is_empty c.host_dev_path
    then some dev_required
    else if is_relative c.host_proc_path
    then some proc_relative
    else if is_relative c.host_sys_path
    then some sys_relative
    else if is_relative c.host_dev_path
    then some dev_relative
    else none

-- A path that is not given, or is absolute.
abbrev pub IsUsable : Str → Type 0
IsUsable [] = Unit
IsUsable (c ∷ s) = c ≡ b'/'

usable_lem :
    (default p : Str) (required : Bool)
    → is_empty default ≡ false
    → is_relative default ≡ false
    → IsUsable p
    → ((required && is_empty (or_path default p)) ≡ false)
      × (is_relative (or_path default p) ≡ false)
usable_lem default [] required e a u = (ground arith, a)
usable_lem default (c ∷ s) required e a u = (ground arith, ground arith)

-- With the defaults applied, a configuration whose paths are each empty or absolute is valid, whatever
-- paths are required.
pub validate-apply_defaults :
    (opt : ValidateOptions) (c : CollectionConfig)
    → IsUsable c.host_proc_path
    → IsUsable c.host_sys_path
    → IsUsable c.host_dev_path
    → validate opt (apply_defaults c) ≡ none
unfolding validate apply_defaults
validate-apply_defaults opt c proc sys dev =
    let p = usable_lem (codes "/proc") c.host_proc_path opt.require_host_proc_path refl refl proc in
    let s = usable_lem (codes "/sys") c.host_sys_path opt.require_host_sys_path refl refl sys in
    let d = usable_lem (codes "/dev") c.host_dev_path opt.require_host_dev_path refl refl dev in
    rw (p.0, s.0, d.0, p.1, s.1, d.1) refl
