-- ===== src/Config/Ams/Tests.antt =====
-- The loader at concrete configurations.
use system_agent.Prelude.{◌≡◌, ◌↔◌, refl, sym, false, [], ◌∷◌, Option, none, some}
use system_agent.Prelude.Int.{pos, negsuc}
use system_agent.Prelude.Text.{Str, codes, str_eq, trim_prefix, has_prefix, atoi}
use system_agent.Prelude.Assoc.{lookup, insert, delete}
use system_agent.Prelude.Partial.{◌>>=◌}
use system_agent.Config.Types.{Instance, Object, cache_key}
use system_agent.Config.Parser.{parse, compare_versions}
use system_agent.Config.Tests.{env, cpu_object, cpu_instance}
use system_agent.Config.TtlHeap.Tests.{heap, heap-IsWellFormed}
use system_agent.Config.Subscriptions.{send, offer_all}
use system_agent.Config.Ams.{
  AmsLoader, CacheEntry, schedule, heap_idx, store_instance, process_config, expire_one,
  add_cfg_to_ttl_heap, update_cfg_in_ttl_heap,
}
use system_agent.Config.Ams.Cache.{instance_at}
use system_agent.Config.Parser.Versions.{Reads}
use system_agent.Config.Ams.Processed.{Succeeds, process_config-Succeeds}
use system_agent.Config.Ams.Expiry.{Ticked, expire_one-Ticked}
use system_agent.Config.Ams.Stale.{update-panics_after_expiry}
use system_agent.Config.Ams.Stream.{
  WatchConfigRequest, ConfigError, instance_to_pb_object, process_configs, ack_request, receive,
  ack,
}
use system_agent.Config.Ams.Stream.Reply.{AllAccepted, receive-AllAccepted}
use system_agent.Config.Ams.Stream.Ack.{parse-instance_to_pb_object, receive-Succeeds}

abbrev key : Str
key = cache_key (codes "host") (codes "a")

abbrev other : Str
other = cache_key (codes "host") (codes "b")

abbrev cached : Instance Str → CacheEntry Str
cached i = record { instance_ = i; ttl_heap_idx = negsuc 0 }

abbrev loader : AmsLoader Str
loader = record {
  subs = record { subs = []; closed = false };
  cache =
      (key, cached cpu_instance) ∷ (other, cached (record cpu_instance { name = codes "b" })) ∷ [];
  ttl_heap = [];
  last_seq_num = [];
}

abbrev newer_object : Object
newer_object = record cpu_object { version = codes "v4" }

abbrev newer : Instance Str
newer = record cpu_instance { version = codes "v4" }

-- `loader` with the newer version.
abbrev updated : Str → AmsLoader Str
updated seq_num = record loader {
  cache = (key, cached newer) ∷ (other, cached (record cpu_instance { name = codes "b" })) ∷ [];
  last_seq_num = seq_num;
}

process_config_runs :
    process_config env (pos 9) (some newer_object) loader ≡ some (newer, none, updated [])
unfolding process_config parse str_eq compare_versions atoi trim_prefix has_prefix lookup schedule
    update_cfg_in_ttl_heap heap_idx store_instance insert delete
process_config_runs = refl

cpu_version-Reads : Reads (codes "v3") (pos 3)
unfolding trim_prefix has_prefix atoi
cpu_version-Reads = refl

process_config-Succeeds_example :
    (new : Instance Str) × (instance_at key (updated []) ≡ some new) × Succeeds cpu_instance 3 new
unfolding lookup str_eq
process_config-Succeeds_example =
    process_config-Succeeds env (pos 9) (some newer_object) loader newer none (updated []) key
      cpu_instance 3 process_config_runs refl cpu_version-Reads

abbrev no_detail : ConfigError → Option Str
no_detail e = none

receive_runs :
    receive no_detail env (pos 9) (codes "1") (some newer_object ∷ []) loader
    ≡ some (
      record {
        type = ack;
        response_seq_num = codes "1";
        initial_configs = [];
        error_detail = none;
      },
      updated (codes "1"),
    )
unfolding receive process_configs process_config compare_versions atoi trim_prefix has_prefix parse
    str_eq lookup schedule update_cfg_in_ttl_heap heap_idx store_instance insert ack_request send
    delete offer_all
receive_runs = refl

receive-Succeeds_example :
    (new : Instance Str) × (instance_at key (updated (codes "1")) ≡ some new)
    × Succeeds cpu_instance 3 new
unfolding lookup str_eq
receive-Succeeds_example =
    receive-Succeeds env no_detail (pos 9) (codes "1") (some newer_object ∷ []) loader _
      (updated (codes "1")) key cpu_instance 3 receive_runs refl cpu_version-Reads

-- The reply to a response that the loader accepts.
abbrev accepted : WatchConfigRequest Str
accepted = record {
  type = ack;
  response_seq_num = codes "1";
  initial_configs = [];
  error_detail = none;
}

receive-AllAccepted_example :
    (accepted.type ≡ ack)
    ↔ AllAccepted env (pos 9) (some newer_object ∷ []) (record loader { last_seq_num = codes "1" })
receive-AllAccepted_example =
    receive-AllAccepted env no_detail (pos 9) (codes "1") (some newer_object ∷ []) loader accepted
      (updated (codes "1")) receive_runs

-- The object that the loader reports of `cpu_instance`.
abbrev reported : Object
reported = record cpu_object { ttl = none }

parse-instance_to_pb_object_example : parse env (some reported) ≡ (cpu_instance, none)
unfolding parse str_eq instance_to_pb_object
parse-instance_to_pb_object_example =
    parse-instance_to_pb_object env (some cpu_object) cpu_instance reported (λ msg p e. sym e) refl
      refl

expire_one-Ticked_example :
    (l' : AmsLoader Str) × (expire_one (pos 9) (record loader { ttl_heap = heap }) ≡ some l')
    × Ticked (pos 9) (record loader { ttl_heap = heap }) l'
expire_one-Ticked_example =
    expire_one-Ticked (pos 9) (record loader { ttl_heap = heap }) heap-IsWellFormed

update-panics_after_expiry_example :
    (do
      l₁ ← add_cfg_to_ttl_heap key (pos 5) loader
      l₂ ← add_cfg_to_ttl_heap other (pos 7) l₁
      l₃ ← expire_one (pos 6) l₂
      update_cfg_in_ttl_heap other (pos 20) l₃)
    ≡ none
unfolding lookup str_eq
update-panics_after_expiry_example =
    update-panics_after_expiry key other (pos 5) (pos 7) (pos 6) (pos 20) (cached cpu_instance)
      (cached (record cpu_instance { name = codes "b" })) loader refl refl refl refl refl refl
