-- ===== src/Config/Ams/Cache.antt =====
-- What the cache of the loader holds after a configuration was processed.
use mathlib.Core.Option
use system_agent.Prelude.{
  ◌≡◌, inl, inr, sym, ◌∙◌, ap, true, false, Bool, Option, none, some, if◌then◌else◌, arith,
  Bool-cases, Option-cases, get_elem?, set,
}
use system_agent.Prelude.Int.{ℤ, pos, negsuc, ltb_ℤ, ◌+ℤ◌}
use system_agent.Prelude.Text.{Str, str_eq, str_eq_iff}
use system_agent.Prelude.Assoc.{lookup, lookup-insert}
use system_agent.Prelude.Partial.{>>=-eq-some}
use system_agent.Config.Types.{Instance}
use system_agent.Config.TtlHeap.{heap_push, heap_fix, heap_remove}
use system_agent.Config.Ams.{
  AmsLoader, set_idx, add_cfg_to_ttl_heap, heap_idx, update_cfg_in_ttl_heap,
  remove_cfg_from_ttl_heap, store_instance, schedule,
}

module _ {Msg : Type 0} where
  -- The instance that is cached under a key.
  abbrev pub instance_at : Str → AmsLoader Msg → Option (Instance Msg)
  instance_at key l = elim (lookup key l.cache) [ none ↦ none | some e ↦ some e.instance_ ]

  -- The same instances under every key.
  abbrev pub SameInstances : AmsLoader Msg → AmsLoader Msg → Type 0
  SameInstances l l' = (j : Str) → instance_at j l' ≡ instance_at j l

  SameInstances-set_idx :
      (key : Str) (idx : ℤ) (l : AmsLoader Msg) → SameInstances l (set_idx key idx l)
  unfolding set_idx
  SameInstances-set_idx key idx l j = elim (Option-cases (lookup key l.cache)) [
    | inl e ↦ ground arith
    | inr (x, e) ↦
        ground
          (arith, lookup-insert key j (record x { ttl_heap_idx = idx }) l.cache, str_eq_iff key j)
  ]

  SameInstances-add :
      (key : Str) (t : ℤ) (l l' : AmsLoader Msg)
      → add_cfg_to_ttl_heap key t l ≡ some l'
      → SameInstances l l'
  unfolding add_cfg_to_ttl_heap
  SameInstances-add key t l l' h j =
      let (r, p, q) = >>=-eq-some (heap_push l.ttl_heap _) _ h in
      ap (instance_at j) (sym (Option.some-injective _ _ q))
      ∙ SameInstances-set_idx key r.1 (record l { ttl_heap = r.0 }) j

  SameInstances-update :
      (key : Str) (t : ℤ) (l l' : AmsLoader Msg)
      → update_cfg_in_ttl_heap key t l ≡ some l'
      → SameInstances l l'
  unfolding update_cfg_in_ttl_heap
  SameInstances-update key t l l' h j = elim (Option-cases (heap_idx key l)) [
    | inl e ↦
        ap (instance_at j) (sym (Option.some-injective _ _ (rw (e, update_cfg_in_ttl_heap) at h)))
    | inr (i, e) ↦
        let (x, p, q) =
          >>=-eq-some (get_elem? l.ttl_heap i) _ (rw (e, update_cfg_in_ttl_heap) at h) in
        let (y, r, s) = >>=-eq-some (heap_fix (set l.ttl_heap i (record x { ttl = t })) i) _ q in
        ap (instance_at j) (sym (Option.some-injective _ _ s))
  ]

  SameInstances-remove :
      (key : Str) (l l' : AmsLoader Msg)
      → remove_cfg_from_ttl_heap key l ≡ some l'
      → SameInstances l l'
  unfolding remove_cfg_from_ttl_heap
  SameInstances-remove key l l' h j = elim (Option-cases (heap_idx key l)) [
    | inl e ↦
        ap (instance_at j) (sym (Option.some-injective _ _ (rw (e, remove_cfg_from_ttl_heap) at h)))
    | inr (i, e) ↦
        let (r, p, q) =
          >>=-eq-some (heap_remove l.ttl_heap i) _ (rw (e, remove_cfg_from_ttl_heap) at h) in
        ap (instance_at j) (sym (Option.some-injective _ _ q))
        ∙ SameInstances-set_idx key (negsuc 0) (record l { ttl_heap = r.1 }) j
  ]

  -- Changing the expiry of a key leaves the cached instances alone.
  pub SameInstances-schedule :
      (key : Str) (existed : Bool) (ttl now : ℤ) (l l' : AmsLoader Msg)
      → schedule key existed ttl now l ≡ some l'
      → SameInstances l l'
  unfolding schedule
  SameInstances-schedule key existed ttl now l l' h = elim (Bool-cases (ltb_ℤ (pos 0) ttl)) [
    | inl p ↦ timed existed p h
    | inr p ↦ untimed existed p h
  ]
    where
      timed :
          (b : Bool)
          → ltb_ℤ (pos 0) ttl ≡ true
          → schedule key b ttl now l ≡ some l'
          → SameInstances l l'
      timed true p h = SameInstances-update key (now +ℤ ttl) l l' (rw p at h)
      timed false p h = SameInstances-add key (now +ℤ ttl) l l' (rw p at h)

      untimed :
          (b : Bool)
          → ltb_ℤ (pos 0) ttl ≡ false
          → schedule key b ttl now l ≡ some l'
          → SameInstances l l'
      untimed true p h = SameInstances-remove key l l' (rw p at h)
      untimed false p h = λ j. ap (instance_at j) (sym (Option.some-injective _ _ (rw p at h)))

  pub instance_at-store :
      (key j : Str) (i : Instance Msg) (l : AmsLoader Msg)
      → instance_at j (store_instance key i l) ≡ (if str_eq key j then some i else instance_at j l)
  unfolding store_instance
  instance_at-store key j i l = elim (Option-cases (lookup key l.cache)) [
    | inl e ↦
        ground
          (arith, lookup-insert key j (record { instance_ = i; ttl_heap_idx = negsuc 0 }) l.cache)
    | inr (x, e) ↦ ground (arith, lookup-insert key j (record x { instance_ = i }) l.cache)
  ]
