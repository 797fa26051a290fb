-- ===== src/Config/Ams/Stream.antt =====
-- The requests that the loader of internal/config/ams.go sends on a stream, and how it answers a
-- response. The stream itself is the environment: a response is an argument, a request a result.
-- `pack` is anypb.New of a configuration error, `none` where it fails; the identity of the agent,
-- which every request carries unchanged, is left out.
pub mod Ack
pub mod Reply
use system_agent.Prelude.{
  ℕ, Bool, true, false, List, [], ◌∷◌, ◌++◌, Option, none, some, ◌==◌, ◌&&◌, if◌then◌else◌, length,
}
use system_agent.Prelude.Int.{ℤ}
use system_agent.Prelude.Text.{Str}
use system_agent.Prelude.Assoc.{Assoc}
use system_agent.Prelude.Partial.{◌>>=◌}
use system_agent.Config.Types.{Instance, TypeDescriptor, Object, status_ok}
use system_agent.Config.Parser.{Env, Error}
use system_agent.Config.Subscriptions
use system_agent.Config.Ams.{AmsLoader, CacheEntry, process_config}

pub data RequestType : Type 0 where
  initial ack nack : RequestType

-- agentv1.ConfigError: what it refers to, and the reason.
pub record ConfigError : Type 0 where
  pub type : Option TypeDescriptor
  pub name : Str
  pub reason : Error

-- status.Status with the code InvalidArgument.
pub record Status (Detail : Type 0) : Type 0 where
  pub message : Option Error
  pub details : List Detail

pub record WatchConfigRequest (Detail : Type 0) : Type 0 where
  pub type : RequestType
  pub response_seq_num : Str
  pub initial_configs : List Object
  pub error_detail : Option (Status Detail)

abbrev pub name_of : Option Object → Str
name_of none = []
name_of (some obj) = obj.name

abbrev pub type_of : Option Object → Option TypeDescriptor
type_of none = none
type_of (some obj) = obj.type

-- `configError`, where processing returned an error.
abbrev pub error_of : Option Object → Option Error → List ConfigError
error_of obj none = []
error_of obj (some x) = record { type = type_of obj; name = name_of obj; reason = x } ∷ []

module _ {Msg : Type 0} (env : Env Msg) where
  -- `instanceToPbObject`; `none` is nil.
  unfoldable pub instance_to_pb_object : Instance Msg → Option Object
  instance_to_pb_object i = do
    obj ← i.object
    payload ← env.marshal obj
    some (record {
      type = some (record { kind = []; type = i.type_url });
      name = i.name;
      version = i.version;
      payload = some payload;
      ttl = none;
    })

  abbrev pub initial_object : Instance Msg → Option Object
  initial_object i = if i.status == status_ok then instance_to_pb_object i else none

  -- The loop of `sendInitialRequest` over the cache.
  unfoldable pub initial_configs : Assoc (CacheEntry Msg) → List Object
  initial_configs [] = []
  initial_configs ((k, e) ∷ cache) =
      let rest = initial_configs cache in
      elim (initial_object e.instance_) [ none ↦ rest | some obj ↦ obj ∷ rest ]

  module _ {Detail : Type 0} where
    unfoldable pub initial_request : AmsLoader Msg → WatchConfigRequest Detail
    initial_request l = record {
      type = initial;
      response_seq_num = [];
      initial_configs = initial_configs l.cache;
      error_detail = none;
    }

  -- The loop of `recvMessages` over the configurations of a response, at the instant `now`.
  unfoldable pub process_configs :
      ℤ → List (Option Object) → AmsLoader Msg → Option (List ConfigError × AmsLoader Msg)
  process_configs now [] l = some ([], l)
  process_configs now (obj ∷ objs) l = do
    (i, e, l') ← process_config env now obj l
    (errors, l'') ←
        process_configs now objs (record l' { subs = Subscriptions.send (i ∷ []) l'.subs })
    some (error_of obj e ++ errors, l'')

module _ {Detail : Type 0} (pack : ConfigError → Option Detail) where
  -- The loop of `ack` over the errors.
  unfoldable pub pack_all : List ConfigError → List Detail
  pack_all [] = []
  pack_all (e ∷ es) = let rest = pack_all es in elim (pack e) [ none ↦ rest | some d ↦ d ∷ rest ]

  -- The text of the first error.
  abbrev pub first_reason : List ConfigError → Option Error
  first_reason [] = none
  first_reason (e ∷ _) = some e.reason

  -- The request of `ack`, where the message is that of the first error.
  unfoldable pub ack_request : Str → List ConfigError → WatchConfigRequest Detail
  ack_request seq_num [] = record {
    type = ack;
    response_seq_num = seq_num;
    initial_configs = [];
    error_detail = none;
  }
  ack_request seq_num (e ∷ es) = record {
    type = nack;
    response_seq_num = seq_num;
    initial_configs = [];
    error_detail = some (record { message = first_reason (e ∷ es); details = pack_all (e ∷ es) });
  }

  -- One round of `recvMessages`: a response with its sequence number, and the request in reply.
  unfoldable pub receive :
      {Msg : Type 0}
      → Env Msg
      → ℤ
      → Str
      → List (Option Object)
      → AmsLoader Msg
      → Option (WatchConfigRequest Detail × AmsLoader Msg)
  receive env now seq_num configs l = do
    (errors, l') ← process_configs env now configs (record l { last_seq_num = seq_num })
    some (ack_request l'.last_seq_num errors, l')
