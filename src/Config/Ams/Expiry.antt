-- ===== src/Config/Ams/Expiry.antt =====
-- When cached configurations expire, and what becomes of the positions that the cache records.
use system_agent.Prelude.{
  suc, ◌<◌, ◌≡◌, ◌⊎◌, inl, inr, refl, sym, ◌∙◌, ap, false, ◌==◌, none, some, if◌then◌else◌, arith,
  Bool-cases, Option-cases, length,
}
use system_agent.Prelude.Int.{ℤ, ltb_ℤ, ◌<ℤ◌}
use system_agent.Prelude.Text.{Str, str_eq, str_eq_iff}
use system_agent.Prelude.Assoc.{lookup, lookup-delete}
use system_agent.Config.TtlHeap.Nodes.{node, ttl_at, get_elem?-node, get_elem?-empty}
use system_agent.Config.TtlHeap.Operations.{IsWellFormed}
use system_agent.Config.TtlHeap.Removal.{heap_pop-Removed}
use system_agent.Config.Ams.{AmsLoader, drop_expired, pop_expired, expire_one}
use system_agent.Config.Ams.Cache.{instance_at}

module _ {Msg : Type 0} where
  instance_at-drop :
      (k j : Str) (l : AmsLoader Msg)
      → instance_at j (drop_expired k l) ≡ (if str_eq k j then none else instance_at j l)
  unfolding drop_expired
  instance_at-drop k j l = elim (Option-cases (lookup k l.cache)) [
    | inl e ↦ ground (arith, str_eq_iff k j)
    | inr (x, e) ↦ ground (arith, lookup-delete k j l.cache)
  ]

  ttl_heap-drop : (k : Str) (l : AmsLoader Msg) → (drop_expired k l).ttl_heap ≡ l.ttl_heap
  unfolding drop_expired
  ttl_heap-drop k l = elim (Option-cases (lookup k l.cache)) [
    | inl e ↦ rw (e, drop_expired)
    | inr (x, e) ↦ rw (e, drop_expired)
  ]

  -- What one tick may do: nothing, or take the key of a node that expires first and before `now`
  -- out of the cache.
  pub record Ticked (now : ℤ) (l l' : AmsLoader Msg) : Type 0 where
    pub well_formed : IsWellFormed l'.ttl_heap
    pub kept :
        (j : Str)
        → (instance_at j l' ≡ instance_at j l)
          ⊎ (instance_at j l' ≡ none)
            × ((node l.ttl_heap 0).cache_key ≡ j)
            × (ttl_at l.ttl_heap 0 <ℤ now)
    pub due :
        0 < length l.ttl_heap
        → ttl_at l.ttl_heap 0 <ℤ now
        → suc (length l'.ttl_heap) ≡ length l.ttl_heap

  still-Ticked :
      (now : ℤ) (l : AmsLoader Msg)
      → IsWellFormed l.ttl_heap
      → (0 < length l.ttl_heap → ltb_ℤ (ttl_at l.ttl_heap 0) now ≡ false)
      → Ticked now l l
  still-Ticked now l w h = record {
    well_formed = w;
    kept = λ j. inl refl;
    due = λ p q. absurd (let e = h p in ground arith);
  }

  -- A tick of the lifecycle on a well-formed heap does not panic and leaves a well-formed heap. Every
  -- configuration stays cached as it was, but the one whose key the root of the heap holds, and that
  -- one leaves the cache only if the root's time lies before the instant of the tick; where it does,
  -- the tick takes the root off the heap.
  pub expire_one-Ticked :
      (now : ℤ) (l : AmsLoader Msg)
      → IsWellFormed l.ttl_heap
      → (l' : AmsLoader Msg) × (expire_one now l ≡ some l') × Ticked now l l'
  unfolding expire_one pop_expired
  expire_one-Ticked now l w = elim (Bool-cases (length l.ttl_heap == 0)) [
    | inl empty ↦ (
      l,
      rw (get_elem?-empty l.ttl_heap empty, pop_expired),
      still-Ticked now l w (λ p. absurd (ground arith)),
    )
    | inr some_ ↦
        let p : 0 < length l.ttl_heap = ground arith in
        elim (Bool-cases (ltb_ℤ (ttl_at l.ttl_heap 0) now)) [
          | inr early ↦ (
            l,
            rw (get_elem?-node l.ttl_heap 0 p, early, pop_expired),
            still-Ticked now l w (λ _. early),
          )
          | inl late ↦
              let (e, h', q, r, first) = heap_pop-Removed l.ttl_heap w p in
              let l₁ = record l { ttl_heap = h' } in
              let at = λ (j : Str). instance_at-drop e.cache_key j l₁ in
              let root : e.cache_key ≡ (node l.ttl_heap 0).cache_key =
                ap (λ (k : Str × ℤ). k.0) r.found in
              (
                drop_expired e.cache_key l₁,
                rw (get_elem?-node l.ttl_heap 0 p, late, q, pop_expired),
                record {
                  well_formed = rw (ttl_heap-drop e.cache_key l₁) r.well_formed;
                  kept = λ j. elim (Bool-cases (str_eq e.cache_key j)) [
                    | inl same ↦ inr (
                      rw same at (at j),
                      sym root ∙ (str_eq_iff e.cache_key j).0 same,
                      ground arith,
                    )
                    | inr other ↦ inl (rw other at (at j))
                  ];
                  due = λ a b. rw (ttl_heap-drop e.cache_key l₁) r.size;
                },
              )
        ]
  ]
