-- ===== src/Store/Types.antt =====
-- The messages of pkg/api/resource/v1 that internal/resource/store reads and writes, the events of
-- internal/resource/store.go, and the ways in which an operation ends without a result. A pointer to
-- a message is an Option where the code tests it or passes nil.
use system_agent.Prelude.{List, Option}
use system_agent.Prelude.Int.{ℤ}
use system_agent.Prelude.Text.{Str}
pub use system_agent.Config.Types.{TypeDescriptor}

-- The oneof of a namespace. The account of a cloud namespace stands for its id, as the getters on a
-- nil account answer "".
pub data Namespace : Type 0 where
  unset : Namespace
  cloud : Str → Str → Str → Namespace
  kube : Str → Str → Namespace

pub record ResourceRef : Type 0 where
  pub type_url : Str
  pub name : Str
  pub namespace : Option Namespace

-- `fields` holds the other fields, which the store carries as they are.
pub record ResourceMeta : Type 0 where
  pub name : Str
  pub namespace : Option Namespace
  pub created_at : Option ℤ
  pub updated_at : Option ℤ
  pub deleted_at : Option ℤ
  pub fields : Str

-- anypb.Any
pub record Any : Type 0 where
  pub type_url : Str
  pub value : Str

pub record Resource : Type 0 where
  pub type : Option TypeDescriptor
  pub metadata : Option ResourceMeta
  pub spec : Option Any

pub record Relationship : Type 0 where
  pub type : Option TypeDescriptor
  pub id : Str
  pub subject : Option ResourceRef
  pub object : Option ResourceRef
  pub predicate : Option Any

-- resourcev1.Object
pub record Object : Type 0 where
  pub type : Option TypeDescriptor
  pub object : Any

pub data EventType : Type 0 where
  add update delete : EventType

pub record Event : Type 0 where
  pub type : EventType
  pub objs : List Object

-- `panicked` is a panic; the others are errors.
pub data Failure : Type 0 where
  closed nil_ref missing_type already_exists key_not_found database marshal unmarshal
        resource_not_found :
      Failure
  relationships_not_found nil_predicate equal_ends panicked : Failure
