-- ===== src/Config/Parser/Accepted.antt =====
-- The instances that `Parse` accepts.
use system_agent.Prelude.{
  ◌≡◌, refl, Option, none, some, true, false, arith, Bool-cases, inl, inr, [],
}
use system_agent.Prelude.Text.{Str, str_eq}
use system_agent.Prelude.Result.{ok, Result-cases}
use system_agent.Config.Types.{Instance, TypeDescriptor, Object, status_ok}
use system_agent.Config.Parser.{
  Env, parse, parsed, run_parser, unchecked, parse_typed, parse_payload, parse_descriptor,
  config_parser, parse_host_stats_collection_config, is_empty,
}

pub record IsAccepted {Msg : Type 0} (env : Env Msg) (i : Instance Msg) (msg : Msg) : Type 0 where
  pub type_known : str_eq i.type_url env.host_stats_collection_config_name ≡ true
  pub type_given : is_empty i.type_url ≡ false
  pub name_given : is_empty i.name ≡ false
  pub collector_given : is_empty (env.get_collector msg) ≡ false
  pub collector_known : env.is_available (env.get_collector msg) ≡ true
  pub object_is : i.object ≡ some msg
  pub status_is : i.status ≡ status_ok
  pub expired_is : i.expired ≡ false

module _ {Msg : Type 0} (env : Env Msg) where
  -- The object that says what an instance says, with a payload.
  abbrev pub object_of : Instance Msg → Str → Object
  object_of i p = record {
    type = some (record { kind = []; type = i.type_url });
    name = i.name;
    version = i.version;
    payload = some p;
    ttl = none;
  }

  host_ok :
      (p : Str) (msg : Msg)
      → env.unmarshal p ≡ some msg
      → is_empty (env.get_collector msg) ≡ false
      → env.is_available (env.get_collector msg) ≡ true
      → parse_host_stats_collection_config env p ≡ ok msg
  unfolding parse_host_stats_collection_config
  host_ok p msg u g k = rw (u, parse_host_stats_collection_config) (rw (g, k))

  host_inv :
      (p : Str) (msg : Msg)
      → parse_host_stats_collection_config env p ≡ ok msg
      → (env.unmarshal p ≡ some msg)
        × (is_empty (env.get_collector msg) ≡ false)
        × (env.is_available (env.get_collector msg) ≡ true)
  unfolding parse_host_stats_collection_config
  host_inv p msg e = ground arith

  pub parse_of_IsAccepted :
      (i : Instance Msg) (msg : Msg) (p : Str)
      → IsAccepted env i msg
      → env.unmarshal p ≡ some msg
      → parse env (some (object_of i p)) ≡ (i, none)
  unfolding parse
  parse_of_IsAccepted i msg p a u =
      rw
        (
          a.type_given,
          a.name_given,
          a.type_known,
          host_ok p msg u a.collector_given a.collector_known,
        )
        (ground (arith, a.object_is, a.status_is, a.expired_is))

  collector-IsAccepted :
      (i j : Instance Msg) (p : Str)
      → str_eq i.type_url env.host_stats_collection_config_name ≡ true
      → is_empty i.type_url ≡ false
      → is_empty i.name ≡ false
      → i.expired ≡ false
      → parsed env i (parse_host_stats_collection_config env p) ≡ (j, none)
      → (msg : Msg) × IsAccepted env j msg
  unfolding parsed
  collector-IsAccepted i j p k t n x e =
      elim (Result-cases (parse_host_stats_collection_config env p)) [
        | inl (y, f) ↦ absurd (cc (rw (f, parsed) at e))
        | inr (msg, f) ↦
            let g = rw (f, parsed) at e in
            let (u, given, known) = host_inv p msg f in (msg, ground arith)
      ]

  payload-IsAccepted :
      (i j : Instance Msg) (payload : Option Str)
      → is_empty i.type_url ≡ false
      → is_empty i.name ≡ false
      → i.expired ≡ false
      → parse_payload env i payload ≡ (j, none)
      → (msg : Msg) × IsAccepted env j msg
  unfolding parse_payload run_parser config_parser
  payload-IsAccepted i j none t n x e = absurd (cc)
  payload-IsAccepted i j (some p) t n x e =
      elim (Bool-cases (str_eq i.type_url env.host_stats_collection_config_name)) [
        | inl k ↦ collector-IsAccepted i j p k t n x (rw (k, run_parser) at e)
        | inr k ↦ absurd (cc (rw (k, run_parser) at e))
      ]

  typed-IsAccepted :
      (i j : Instance Msg) (payload : Option Str)
      → i.expired ≡ false
      → parse_typed env i payload ≡ (j, none)
      → (msg : Msg) × IsAccepted env j msg
  typed-IsAccepted i j payload x e =
      unfold parse_typed in
      elim (Bool-cases (is_empty i.type_url)) [
        | inl t ↦ absurd (cc (rw t at e))
        | inr t ↦ elim (Bool-cases (is_empty i.name)) [
          | inl n ↦ absurd (cc (rw (t, n) at e))
          | inr n ↦ payload-IsAccepted i j payload t n x (rw (t, n) at e)
        ]
      ]

  descriptor-IsAccepted :
      (obj : Object) (d : Option TypeDescriptor) (j : Instance Msg)
      → parse_descriptor env obj d ≡ (j, none)
      → (msg : Msg) × IsAccepted env j msg
  unfolding parse_descriptor
  descriptor-IsAccepted obj none j e = absurd (cc)
  descriptor-IsAccepted obj (some d) j e =
      typed-IsAccepted (unchecked env obj d) j obj.payload refl e

  -- An instance that `Parse` returns without an error is accepted, with its message.
  pub parse-IsAccepted :
      (obj : Option Object) (j : Instance Msg)
      → parse env obj ≡ (j, none)
      → (msg : Msg) × IsAccepted env j msg
  unfolding parse
  parse-IsAccepted none j e = absurd (cc)
  parse-IsAccepted (some obj) j e = descriptor-IsAccepted obj obj.type j e
