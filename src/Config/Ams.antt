-- ===== src/Config/Ams.antt =====
-- internal/config/ams.go: the loader fed by the management service. Its goroutines share the cache
-- and the heap under mutexes; a step is what one of them does under the locks. The stream, its
-- retries and the clock are the environment: messages and instants are arguments.
pub mod Cache
pub mod Processed
pub mod Expiry
pub mod Stale
pub mod Stream
mod Tests
use Prim.Native.Nat.{bit_and}
use system_agent.Prelude.{
  ℕ, zero, suc, ◌+◌, Bool, true, false, List, [], ◌∷◌, ◌++◌, Option, none, some, ◌==◌, ◌&&◌, not,
  if◌then◌else◌, length, get_elem?, set,
}
use system_agent.Prelude.Int.{ℤ, pos, negsuc, ltb_ℤ, ◌+ℤ◌}
use system_agent.Prelude.Text.{Str}
use system_agent.Prelude.Assoc.{Assoc, lookup, insert, delete}
use system_agent.Prelude.Result.{Result, ok, err}
use system_agent.Prelude.Partial.{◌>>=◌}
use system_agent.Config.Types.{
  Instance, Filters, TypeDescriptor, Object, status_ok, status_invalid, cache_key,
}
use system_agent.Config.Parser.{
  Env, Error, parse, compare_versions, zero_instance, bad_version, version_below_current,
}
use system_agent.Config.Subscriptions
use system_agent.Config.Subscriptions.{Subscriptions, matches}
use system_agent.Config.TtlHeap.{TtlEntry, TtlHeap, heap_push, heap_pop, heap_remove, heap_fix}

-- `ttl_heap_idx` is -1 where the entry has no expiry.
pub record CacheEntry (Msg : Type 0) : Type 0 where
  pub instance_ : Instance Msg
  pub ttl_heap_idx : ℤ

pub record AmsLoader (Msg : Type 0) : Type 0 where
  pub subs : Subscriptions Msg
  pub cache : Assoc (CacheEntry Msg)
  pub ttl_heap : TtlHeap
  pub last_seq_num : Str

module _ {Msg : Type 0} where
  unfoldable pub new : AmsLoader Msg
  new = record {
    subs = record { subs = []; closed = false };
    cache = [];
    ttl_heap = [];
    last_seq_num = [];
  }

  -- The loop of `ListConfigs` over the cache, in the order of the association list.
  unfoldable pub list_entries :
      Filters → Assoc (CacheEntry Msg) → Assoc (List (Instance Msg)) → Assoc (List (Instance Msg))
  list_entries filters [] configs = configs
  list_entries filters ((k, e) ∷ cache) configs =
      let type = e.instance_.type_url in
      let old : List (Instance Msg) = elim (lookup type configs) [ none ↦ [] | some l ↦ l ] in
      list_entries filters cache (
        if matches e.instance_ filters
        then insert type (old ++ (e.instance_ ∷ [])) configs
        else configs)

  unfoldable pub list_configs : Filters → AmsLoader Msg → Assoc (List (Instance Msg))
  list_configs filters l = list_entries filters l.cache []

  -- `none` is the error that no such configuration is found.
  unfoldable pub get_config : Str → Str → AmsLoader Msg → Option (Instance Msg)
  get_config config_type name l = elim (lookup (cache_key config_type name) l.cache) [
    | none ↦ none
    | some e ↦ some e.instance_
  ]

  -- What `Watch` does before its goroutine.
  unfoldable pub watch : Filters → AmsLoader Msg → Option ℕ × AmsLoader Msg
  watch filters l =
      let (ch, subs) = Subscriptions.add filters l.subs in (ch, record l { subs = subs })

  unfoldable pub close : AmsLoader Msg → AmsLoader Msg
  close l = record l { subs = Subscriptions.close l.subs }

  -- `entry.ttlHeapIdx = idx`, where the key is cached.
  unfoldable pub set_idx : Str → ℤ → AmsLoader Msg → AmsLoader Msg
  set_idx key idx l = elim (lookup key l.cache) [
    | none ↦ l
    | some e ↦ record l { cache = insert key (record e { ttl_heap_idx = idx }) l.cache }
  ]

  unfoldable pub add_cfg_to_ttl_heap : Str → ℤ → AmsLoader Msg → Option (AmsLoader Msg)
  unfolding set_idx
  add_cfg_to_ttl_heap name ttl l = do
    r ← heap_push l.ttl_heap (record { cache_key = name; ttl = ttl; index = pos 0 })
    some (set_idx name r.1 (record l { ttl_heap = r.0 }))

  -- The index of the key's entry, if it is cached and the index is not negative.
  unfoldable pub heap_idx : Str → AmsLoader Msg → Option ℕ
  heap_idx name l = elim (lookup name l.cache) [
    | none ↦ none
    | some e ↦ elim e.ttl_heap_idx [ pos i ↦ some i | negsuc _ ↦ none ]
  ]

  unfoldable pub update_cfg_in_ttl_heap : Str → ℤ → AmsLoader Msg → Option (AmsLoader Msg)
  update_cfg_in_ttl_heap name ttl l = elim (heap_idx name l) [
    | none ↦ some l
    | some i ↦ (do
      e ← get_elem? l.ttl_heap i
      h ← heap_fix (set l.ttl_heap i (record e { ttl = ttl })) i
      some (record l { ttl_heap = h }))
  ]

  unfoldable pub remove_cfg_from_ttl_heap : Str → AmsLoader Msg → Option (AmsLoader Msg)
  remove_cfg_from_ttl_heap name l = elim (heap_idx name l) [
    | none ↦ some l
    | some i ↦ (do
      r ← heap_remove l.ttl_heap i
      some (set_idx name (negsuc 0) (record l { ttl_heap = r.1 })))
  ]

  -- The key's entry leaves the cache, and the subscribers hear of it.
  unfoldable pub drop_expired : Str → AmsLoader Msg → AmsLoader Msg
  drop_expired key l = elim (lookup key l.cache) [
    | none ↦ l
    | some e ↦ record l {
      cache = delete key l.cache;
      subs = Subscriptions.send (record e.instance_ { expired = true } ∷ []) l.subs;
    }
  ]

  -- What a tick of `manageConfigLifecyle` at the instant `now` does while it holds the heap's lock, with
  -- the key of the node that it takes off.
  unfoldable pub pop_expired : ℤ → AmsLoader Msg → Option (Option Str × AmsLoader Msg)
  pop_expired now l = elim (get_elem? l.ttl_heap 0) [
    | none ↦ some (none, l)
    | some top ↦
        let pop : Option (Option Str × AmsLoader Msg) = do
          r ← heap_pop l.ttl_heap
          some (some r.0.cache_key, record l { ttl_heap = r.1 })
        in if ltb_ℤ top.ttl now then pop else some (none, l)
  ]

  -- A tick, where no other goroutine takes the cache between its two locks, the heap's and then the
  -- cache's.
  unfoldable pub expire_one : ℤ → AmsLoader Msg → Option (AmsLoader Msg)
  expire_one now l = do
    r ← pop_expired now l
    some (elim r.0 [ none ↦ r.1 | some key ↦ drop_expired key r.1 ])

abbrev pub is_error : {E : Type 0} → Option E → Bool
is_error none = false
is_error (some _) = true

abbrev pub has_object : {Msg : Type 0} → Instance Msg → Bool
has_object i = elim i.object [ none ↦ false | some _ ↦ true ]

-- `obj.GetTtl().AsDuration()`, 0 for a nil duration or a nil object.
abbrev pub ttl_of : Option Object → ℤ
ttl_of none = pos 0
ttl_of (some obj) = elim obj.ttl [ none ↦ pos 0 | some d ↦ d ]

module _ {Msg : Type 0} where
  -- The instance that the cache holds under a key; Go's zero value where there is none.
  abbrev pub previous : Str → AmsLoader Msg → Instance Msg
  previous key l = elim (lookup key l.cache) [ none ↦ zero_instance | some e ↦ e.instance_ ]

  -- `configExists`
  abbrev pub is_cached : Str → AmsLoader Msg → Bool
  is_cached key l = elim (lookup key l.cache) [ none ↦ false | some _ ↦ true ]

  -- `prevEntry.Instance = instance`, or a new entry.
  unfoldable pub store_instance : Str → Instance Msg → AmsLoader Msg → AmsLoader Msg
  store_instance key i l = elim (lookup key l.cache) [
    | some e ↦ record l { cache = insert key (record e { instance_ = i }) l.cache }
    | none ↦ record l {
      cache = insert key (record { instance_ = i; ttl_heap_idx = negsuc 0 }) l.cache;
    }
  ]

  -- What `processConfig` does with the expiry, behind the update of the cache.
  unfoldable pub schedule : Str → Bool → ℤ → ℤ → AmsLoader Msg → Option (AmsLoader Msg)
  schedule key existed ttl now l =
      let remove = remove_cfg_from_ttl_heap key l in
      let add = add_cfg_to_ttl_heap key (now +ℤ ttl) l in
      let update = update_cfg_in_ttl_heap key (now +ℤ ttl) l in
      if ltb_ℤ (pos 0) ttl
      then (if existed then update else add)
      else (if existed then remove else some l)

module _ {Msg : Type 0} (env : Env Msg) where
  -- `processConfig` at the instant `now`: the instance, its error, and the loader.
  unfoldable pub process_config :
      ℤ → Option Object → AmsLoader Msg → Option (Instance Msg × Option Error × AmsLoader Msg)
  process_config now obj l =
      let (i, parse_err) = parse env obj in
      let key = cache_key i.type_url i.name in
      let prev = previous key l in
      let invalid = record i { status = status_invalid } in
      elim (compare_versions i.version prev.version) [
        | err _ ↦ some (invalid, some bad_version, l)
        | ok order ↦
            if ltb_ℤ order (pos 0)
            then some (invalid, some version_below_current, l)
            else if is_error parse_err && has_object prev
            then some (i, parse_err, l)
            else (do
              l' ← schedule key (is_cached key l) (ttl_of obj) now (store_instance key i l)
              some (i, parse_err, l'))
      ]
