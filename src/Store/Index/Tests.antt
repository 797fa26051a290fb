-- ===== src/Store/Index/Tests.antt =====
-- The indexes at concrete keys.
use system_agent.Prelude.{ℕ, ◌≡◌, refl, List, [], ◌∷◌, ◌++◌, map, some, replicate}
use mathlib.Core.List.{Perm}
use system_agent.Prelude.Text.{Str}
use system_agent.Prelude.Result.{ok}
use system_agent.Store.Index.{
  join, added, deleted, find_obj, num_objects, obj_at, without_obj, intersect_indexes, has_obj,
  bytes_compare,
}
use system_agent.Store.Index.Split.{AreKeys}
use system_agent.Store.Index.Sorted.{IsSorted, added-Sorted}
use system_agent.Store.Index.Removal.{deleted-removes}
use system_agent.Store.Index.Common.{in_all, intersect_indexes_lem}

-- The keys of the index of the test: the byte `n`, 32 times.
abbrev hash : ℕ → Str
hash n = replicate 32 n

added-Sorted_example :
    (js : List Str) × (added (join (hash 7 ∷ [])) (hash 5) ≡ ok (join js))
    × IsSorted js
    × AreKeys js
    × Perm js (hash 7 ∷ hash 5 ∷ [])
added-Sorted_example = added-Sorted (hash 7 ∷ []) (hash 5) (refl, tt) refl

intersect_indexes_lem_example :
    (r : List Str) × (intersect_indexes (map join ((hash 5 ∷ hash 7 ∷ []) ∷ (hash 7 ∷ []) ∷ []))
      ≡ ok r)
    × ((k : Str) → has_obj k r ≡ in_all k ((hash 5 ∷ hash 7 ∷ []) ∷ (hash 7 ∷ []) ∷ []))
intersect_indexes_lem_example =
    intersect_indexes_lem (hash 5 ∷ hash 7 ∷ []) ((hash 7 ∷ []) ∷ [])
      ((refl, (refl, tt)), ((refl, tt), tt))

deleted_runs : deleted (join (hash 5 ∷ hash 7 ∷ [])) (hash 7) ≡ some (join (hash 5 ∷ []))
unfolding bytes_compare deleted find_obj num_objects join obj_at without_obj
deleted_runs = refl

deleted-removes_example :
    (before : List Str) × (behind : List Str) × (hash 5 ∷ hash 7 ∷ [] ≡ before ++ hash 7 ∷ behind)
    × (join (hash 5 ∷ []) ≡ join (before ++ behind))
deleted-removes_example =
    deleted-removes (hash 5 ∷ hash 7 ∷ []) (hash 7) (join (hash 5 ∷ [])) (refl, (refl, tt))
      deleted_runs
