-- ===== src/Config/Ams/Stale.antt =====
-- The positions that the cache records are not kept up to date: `heap.Pop` and the other operations
-- move nodes, and tell the nodes their new positions, but not the cache.
use system_agent.Prelude.{
  ℕ, zero, suc, ◌≤◌, ◌≡◌, refl, ◌∙◌, true, false, List, [], ◌∷◌, none, some, if◌then◌else◌, arith,
  Option-cases, get_elem?, length, inl, inr,
}
use system_agent.Prelude.Int.{ℤ, pos, negsuc, ltb_ℤ}
use system_agent.Prelude.Text.{Str, str_eq, str_eq_refl}
use system_agent.Prelude.Assoc.{lookup, lookup-insert, lookup-delete}
use system_agent.Prelude.Partial.{◌>>=◌}
use system_agent.Config.TtlHeap.{
  TtlEntry, TtlHeap, heap_push, heap_pop, up, down, less, swap, push_back, pop_back,
}
use system_agent.Config.Ams.{
  AmsLoader, CacheEntry, set_idx, add_cfg_to_ttl_heap, update_cfg_in_ttl_heap, heap_idx,
  drop_expired, pop_expired, expire_one,
}

get_elem?-beyond {ℓ} : {A : Type ℓ} (xs : List A) (i : ℕ) → length xs ≤ i → get_elem? xs i ≡ none
get_elem?-beyond [] i p = refl
get_elem?-beyond (x ∷ xs) zero p = absurd (omega arith)
get_elem?-beyond (x ∷ xs) (suc i) p = get_elem?-beyond xs i (omega arith)

abbrev entry : Str → ℤ → ℕ → TtlEntry
entry k t i = record { cache_key = k; ttl = t; index = pos i }

push_first : (a : Str) (s : ℤ) → heap_push [] (entry a s 0) ≡ some (entry a s 0 ∷ [], pos 0)
unfolding heap_push push_back up
push_first a s = refl

push_second :
    (a b : Str) (s t : ℤ)
    → ltb_ℤ t s ≡ false
    → heap_push (entry a s 0 ∷ []) (entry b t 0) ≡ some (entry a s 0 ∷ entry b t 1 ∷ [], pos 1)
unfolding heap_push push_back up less
push_second a b s t h = rw (h, up)

pop_first :
    (a b : Str) (s t : ℤ)
    → heap_pop (entry a s 0 ∷ entry b t 1 ∷ [])
      ≡ some (record (entry a s 0) { index = negsuc 0 }, entry b t 0 ∷ [])
unfolding heap_pop swap down pop_back
pop_first a b s t = refl

module _ {Msg : Type 0} where
  -- A recorded position outside the heap makes an update of the time to live panic.
  update-panics :
      (name : Str) (ttl : ℤ) (i : ℕ) (l : AmsLoader Msg)
      → heap_idx name l ≡ some i
      → length l.ttl_heap ≤ i
      → update_cfg_in_ttl_heap name ttl l ≡ none
  unfolding update_cfg_in_ttl_heap
  update-panics name ttl i l e p = rw (e, get_elem?-beyond l.ttl_heap i p, update_cfg_in_ttl_heap)

  heap_idx-set_idx :
      (k j : Str) (i : ℕ) (x : CacheEntry Msg) (l : AmsLoader Msg)
      → lookup k l.cache ≡ some x
      → heap_idx j (set_idx k (pos i) l) ≡ (if str_eq k j then some i else heap_idx j l)
  unfolding set_idx heap_idx
  heap_idx-set_idx k j i x l e =
      ground (arith, lookup-insert k j (record x { ttl_heap_idx = pos i }) l.cache)

  heap_idx-drop :
      (k j : Str) (l : AmsLoader Msg)
      → str_eq k j ≡ false
      → heap_idx j (drop_expired k l) ≡ heap_idx j l
  unfolding drop_expired heap_idx
  heap_idx-drop k j l h = elim (Option-cases (lookup k l.cache)) [
    | inl e ↦ ground arith
    | inr (x, e) ↦ ground (arith, lookup-delete k j l.cache)
  ]

  lookup-set_idx :
      (k j : Str) (i : ℤ) (l : AmsLoader Msg)
      → str_eq k j ≡ false
      → lookup j (set_idx k i l).cache ≡ lookup j l.cache
  unfolding set_idx
  lookup-set_idx k j i l h = elim (Option-cases (lookup k l.cache)) [
    | inl e ↦ rw (e, set_idx)
    | inr (x, e) ↦ ground (arith, lookup-insert k j (record x { ttl_heap_idx = i }) l.cache)
  ]

  ttl_heap-set_idx : (k : Str) (i : ℤ) (l : AmsLoader Msg) → (set_idx k i l).ttl_heap ≡ l.ttl_heap
  unfolding set_idx
  ttl_heap-set_idx k i l = elim (Option-cases (lookup k l.cache)) [
    | inl e ↦ rw (e, set_idx)
    | inr (x, e) ↦ rw (e, set_idx)
  ]

  ttl_heap-drop : (k : Str) (l : AmsLoader Msg) → (drop_expired k l).ttl_heap ≡ l.ttl_heap
  unfolding drop_expired
  ttl_heap-drop k l = elim (Option-cases (lookup k l.cache)) [
    | inl e ↦ rw (e, drop_expired)
    | inr (x, e) ↦ rw (e, drop_expired)
  ]

  expire_one-due :
      (now : ℤ) (l : AmsLoader Msg) (top e : TtlEntry) (h : TtlHeap)
      → get_elem? l.ttl_heap 0 ≡ some top
      → ltb_ℤ top.ttl now ≡ true
      → heap_pop l.ttl_heap ≡ some (e, h)
      → expire_one now l ≡ some (drop_expired e.cache_key (record l { ttl_heap = h }))
  unfolding expire_one pop_expired
  expire_one-due now l top e h p q r = rw (p, q, r, pop_expired)

  module _ (a b : Str) (s t : ℤ) (l : AmsLoader Msg) where
    -- The loader behind the two additions.
    abbrev one_timed : AmsLoader Msg
    one_timed = set_idx a (pos 0) (record l { ttl_heap = entry a s 0 ∷ [] })

    abbrev two_timed : AmsLoader Msg
    two_timed = set_idx b (pos 1) (record one_timed { ttl_heap = entry a s 0 ∷ entry b t 1 ∷ [] })

    -- The loader behind the first expiry.
    abbrev one_left : AmsLoader Msg
    one_left = drop_expired a (record two_timed { ttl_heap = entry b t 0 ∷ [] })

    add_first : l.ttl_heap ≡ [] → add_cfg_to_ttl_heap a s l ≡ some one_timed
    unfolding add_cfg_to_ttl_heap
    add_first h = rw (h, push_first a s)

    add_second : ltb_ℤ t s ≡ false → add_cfg_to_ttl_heap b t one_timed ≡ some two_timed
    unfolding add_cfg_to_ttl_heap
    add_second h = rw (ttl_heap-set_idx a (pos 0), push_second a b s t h)

    expire_first : (now : ℤ) → ltb_ℤ s now ≡ true → expire_one now two_timed ≡ some one_left
    expire_first now h =
        let heap : two_timed.ttl_heap ≡ entry a s 0 ∷ entry b t 1 ∷ [] =
          ttl_heap-set_idx b (pos 1) _ in
        expire_one-due now two_timed (entry a s 0) (record (entry a s 0) { index = negsuc 0 })
          (entry b t 0 ∷ []) (rw heap refl) h (rw heap (pop_first a b s t))

  -- Where the heap is empty and two different keys are cached: the first gets an expiry and then the
  -- second one that is no earlier; at an instant behind the first one's expiry the lifecycle takes the
  -- first off; then a new expiry for the second, whatever it is, makes the loader panic.
  pub update-panics_after_expiry :
      (a b : Str) (s t now u : ℤ) (x y : CacheEntry Msg) (l : AmsLoader Msg)
      → str_eq a b ≡ false
      → l.ttl_heap ≡ []
      → lookup a l.cache ≡ some x
      → lookup b l.cache ≡ some y
      → ltb_ℤ t s ≡ false
      → ltb_ℤ s now ≡ true
      → (do
        l₁ ← add_cfg_to_ttl_heap a s l
        l₂ ← add_cfg_to_ttl_heap b t l₁
        l₃ ← expire_one now l₂
        update_cfg_in_ttl_heap b u l₃)
        ≡ none
  unfolding heap_idx
  update-panics_after_expiry a b s t now u x y l h e p q f g =
      rw (add_first a b s t l e, add_second a b s t l f, expire_first a b s t l now g)
        (update-panics b u 1 (one_left a b s t l) position (rw (ttl_heap-drop a _) (omega arith)))
    where
      known : lookup b (one_timed a b s t l).cache ≡ some y
      known = lookup-set_idx a b (pos 0) _ h ∙ q

      position : heap_idx b (one_left a b s t l) ≡ some 1
      position =
          heap_idx-drop a b (record (two_timed a b s t l) { ttl_heap = entry b t 0 ∷ [] }) h
          ∙ rw (str_eq_refl b) at (
              heap_idx-set_idx b b 1 y
                (record (one_timed a b s t l) { ttl_heap = entry a s 0 ∷ entry b t 1 ∷ [] }) known)
