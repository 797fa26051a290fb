-- ===== src/Config/Types.antt =====
-- internal/config/types.go, and the protobuf messages that the loaders exchange. `Msg` is the type
-- of parsed configurations, `none` a nil message.
use system_agent.Prelude.{ℕ, Bool, List, Option, ◌++◌, ◌∷◌}
use system_agent.Prelude.Int.{ℤ}
use system_agent.Prelude.Text.{Str}

-- `Status` is a bit mask in a byte.
abbrev pub status_ok : ℕ
status_ok = 1

abbrev pub status_invalid : ℕ
status_invalid = 2

pub record Instance (Msg : Type 0) : Type 0 where
  pub type_url : Str
  pub name : Str
  pub version : Str
  pub object : Option Msg
  pub status : ℕ
  pub expired : Bool

-- `Copy`: proto.Clone of the object is the same value.
abbrev pub copy : {Msg : Type 0} → Instance Msg → Instance Msg
copy i = record {
  type_url = i.type_url;
  name = i.name;
  version = i.version;
  object = i.object;
  status = i.status;
  expired = i.expired;
}

pub record Filters : Type 0 where
  pub types : List Str
  pub status : ℕ

pub record TypeDescriptor : Type 0 where
  pub kind : Str
  pub type : Str

-- typesv1.Object: `none` for a nil field.
pub record Object : Type 0 where
  pub type : Option TypeDescriptor
  pub name : Str
  pub version : Str
  pub payload : Option Str
  pub ttl : Option ℤ

-- `getCacheKey` of both loaders.
abbrev pub cache_key : Str → Str → Str
cache_key config_type name = config_type ++ (b':' ∷ name)
