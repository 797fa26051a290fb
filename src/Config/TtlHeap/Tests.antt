-- ===== src/Config/TtlHeap/Tests.antt =====
-- The heap of expiry times at concrete nodes.
use system_agent.Prelude.{ℕ, zero, suc, ◌≡◌, ◌<◌, refl, [], ◌∷◌, some, arith, length}
use system_agent.Prelude.Int.{pos, ◌≤ℤ◌}
use system_agent.Prelude.Text.{codes}
use system_agent.Config.TtlHeap.{TtlEntry, TtlHeap, less, swap, push_back, up, heap_push, heap_pop}
use system_agent.Config.TtlHeap.Order.{parent}
use system_agent.Config.TtlHeap.Nodes.{node, ttl_at}
use system_agent.Config.TtlHeap.Operations.{IsWellFormed, Pushed, Removed, heap_push-Pushed}
use system_agent.Config.TtlHeap.Removal.{heap_pop-Removed}

abbrev pub first : TtlEntry
first = record { cache_key = codes "a"; ttl = pos 5; index = pos 0 }

abbrev pub heap : TtlHeap
heap = first ∷ record { cache_key = codes "b"; ttl = pos 7; index = pos 1 } ∷ []

abbrev early : TtlEntry
early = record { cache_key = codes "c"; ttl = pos 2; index = pos 0 }

pub heap-IsWellFormed : IsWellFormed heap
heap-IsWellFormed = record { heap = λ c p q. ordered c p q; indexed = λ c p. positions c p }
  where
    ordered : (c : ℕ) → 0 < c → c < 2 → ttl_at heap (parent c) ≤ℤ ttl_at heap c
    ordered zero p q = absurd (omega arith)
    ordered (suc zero) p q = omega arith
    ordered (suc (suc c)) p q = absurd (omega arith)

    positions : (c : ℕ) → c < 2 → (node heap c).index ≡ pos c
    positions zero p = refl
    positions (suc zero) p = refl
    positions (suc (suc c)) p = absurd (omega arith)

-- The new node rises to the root.
heap_push_runs :
    heap_push heap early
    ≡ some (
      early
          ∷ record { cache_key = codes "b"; ttl = pos 7; index = pos 1 }
          ∷ record { cache_key = codes "a"; ttl = pos 5; index = pos 2 }
          ∷ [],
      pos 0,
    )
unfolding heap_push up less push_back swap
heap_push_runs = refl

heap_push-Pushed_example :
    (h' : TtlHeap) × (k : ℕ) × (heap_push heap early ≡ some (h', pos k)) × Pushed heap early h' k
heap_push-Pushed_example = heap_push-Pushed heap early heap-IsWellFormed

heap_pop-Removed_example :
    (e : TtlEntry) × (h' : TtlHeap) × (heap_pop heap ≡ some (e, h'))
    × Removed heap 0 e h'
    × ((c : ℕ) → c < length heap → e.ttl ≤ℤ ttl_at heap c)
heap_pop-Removed_example = heap_pop-Removed heap heap-IsWellFormed (omega arith)
