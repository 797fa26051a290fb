-- ===== src/Config/Parser.antt =====
-- internal/config/parser.go. Protobuf and the registry of collectors enter as the fields of `Env`.
pub mod Versions
pub mod Outcome
pub mod Accepted
use system_agent.Prelude.{
  ℕ, Bool, true, false, List, [], ◌∷◌, Option, none, some, ◌||◌, if◌then◌else◌, ◌≡◌, refl, ◌⊎◌, inl,
  inr, arith,
}
use system_agent.Prelude.Int.{ℤ, pos, negsuc, ltb_ℤ}
use system_agent.Prelude.Text.{Str, codes, str_eq, trim_prefix, atoi}
use system_agent.Prelude.Result.{Result, ok, err, ◌>>=◌}
use system_agent.Config.Types.{Instance, TypeDescriptor, Object, status_ok, status_invalid}

pub record Env (Msg : Type 0) : Type 0 where
  -- the full name of agentv1.HostStatsCollectionConfig
  pub host_stats_collection_config_name : Str
  -- proto.Unmarshal into such a message, and its `GetCollector`
  pub unmarshal : Str → Option Msg
  pub get_collector : Msg → Str
  -- performance.GetCollectorStatus
  pub is_available : Str → Bool
  -- proto.Marshal of a parsed configuration
  pub marshal : Msg → Option Str

pub data Error : Type 0 where
  object_nil type_nil type_empty name_empty payload_empty unrecognized_type : Error
  unmarshal_failed collector_empty collector_unavailable : Error
  bad_version version_below_current : Error

abbrev pub is_empty : Str → Bool
is_empty [] = true
is_empty (_ ∷ _) = false

-- The `Instance{}` of Go.
abbrev pub zero_instance : {Msg : Type 0} → Instance Msg
zero_instance = record {
  type_url = [];
  name = [];
  version = [];
  object = none;
  status = 0;
  expired = false;
}

module _ {Msg : Type 0} (env : Env Msg) where
  open env use {host_stats_collection_config_name, unmarshal, get_collector, is_available}

  -- The payload of an object that reaches a parser is not nil.
  parse_host_stats_collection_config : Str → Result Error Msg
  parse_host_stats_collection_config payload = elim (unmarshal payload) [
    | none ↦ err unmarshal_failed
    | some config ↦
        if is_empty (get_collector config)
        then err collector_empty
        else if is_available (get_collector config)
        then ok config
        else err collector_unavailable
  ]

  -- `configParsers`, the table of one parser.
  config_parser : Str → Option (Str → Result Error Msg)
  config_parser type_url =
      if str_eq type_url host_stats_collection_config_name
      then some parse_host_stats_collection_config
      else none

  -- The instance with what the parser returned.
  parsed : Instance Msg → Result Error Msg → Instance Msg × Option Error
  parsed instance_ (err e) = (record instance_ { status = status_invalid }, some e)
  parsed instance_ (ok msg) = (record instance_ { object = some msg; status = status_ok }, none)

  run_parser : Instance Msg → Option (Str → Result Error Msg) → Str → Instance Msg × Option Error
  unfolding parsed
  run_parser instance_ none p =
      (record instance_ { status = status_invalid }, some unrecognized_type)
  run_parser instance_ (some parser) p = parsed instance_ (parser p)

  -- The instance before any check.
  abbrev unchecked : Object → TypeDescriptor → Instance Msg
  unchecked obj desc = record {
    type_url = desc.type;
    name = obj.name;
    version = obj.version;
    object = none;
    status = 0;
    expired = false;
  }

  parse_payload : Instance Msg → Option Str → Instance Msg × Option Error
  unfolding run_parser config_parser parse_host_stats_collection_config
  parse_payload instance_ none = (record instance_ { status = status_invalid }, some payload_empty)
  parse_payload instance_ (some p) = run_parser instance_ (config_parser instance_.type_url) p

  -- From the check of the type's name on.
  parse_typed : Instance Msg → Option Str → Instance Msg × Option Error
  unfolding parse_payload
  parse_typed instance_ payload =
      let invalid = record instance_ { status = status_invalid } in
      if is_empty instance_.type_url
      then (invalid, some type_empty)
      else if is_empty instance_.name
      then (invalid, some name_empty)
      else parse_payload instance_ payload

  parse_descriptor : Object → Option TypeDescriptor → Instance Msg × Option Error
  unfolding parse_typed
  parse_descriptor obj none = (record zero_instance { status = status_invalid }, some type_nil)
  parse_descriptor obj (some desc) = parse_typed (unchecked obj desc) obj.payload

  -- `Parse`: the instance, and an error or `none` for nil.
  unfoldable pub parse : Option Object → Instance Msg × Option Error
  unfolding parse_descriptor
  parse none = (record zero_instance { status = status_invalid }, some object_nil)
  parse (some obj) = parse_descriptor obj obj.type

-- What is done with the two numbers.
compare_numbers : ℤ → ℤ → Result Error ℤ
compare_numbers current prev =
    if ltb_ℤ current (pos 0) || ltb_ℤ prev (pos 0)
    then err bad_version
    else if ltb_ℤ current prev
    then ok (negsuc 0)
    else if ltb_ℤ prev current
    then ok (pos 1)
    else ok (pos 0)

compare_trimmed : Str → Str → Result Error ℤ
unfolding compare_numbers
compare_trimmed current prev = elim (atoi current) [
  | none ↦ err bad_version
  | some current_num ↦ if is_empty prev then ok (pos 1) else elim (atoi prev) [
    | none ↦ err bad_version
    | some prev_num ↦ compare_numbers current_num prev_num
  ]
]

-- `CompareVersions`.
unfoldable pub compare_versions : Str → Str → Result Error ℤ
unfolding compare_trimmed
compare_versions current prev =
    compare_trimmed (trim_prefix current (codes "v")) (trim_prefix prev (codes "v"))
