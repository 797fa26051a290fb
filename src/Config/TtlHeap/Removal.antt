-- ===== src/Config/TtlHeap/Removal.antt =====
-- `Pop`, `Remove` and `Fix` on a heap of well-indexed nodes.
use mathlib.Core.List.Perm
use system_agent.Prelude.{
  ℕ, zero, suc, ◌-◌, ◌≤◌, ◌<◌, ◌≡◌, ap, ◌∙◌, some, ◌==◌, false, arith, length, set, length-set,
  Bool-cases, inl, inr,
}
use system_agent.Prelude.Int.{ℤ, ◌≤ℤ◌}
use system_agent.Prelude.Text.{Str}
use system_agent.Config.TtlHeap.{TtlEntry, TtlHeap, pop_back, heap_pop, heap_remove, heap_fix}
use system_agent.Config.TtlHeap.Nodes.{
  node, ttl_at, plain, SameNodes, node-set, swapped, swap_lem, length-swapped, node-swapped,
}
use system_agent.Config.TtlHeap.Order.{parent, IsHeap, IsHeapBelow, swapped-Kept}
use system_agent.Config.TtlHeap.Down.{Loose, Restored, settle-Restored, down-Restored}
use system_agent.Config.TtlHeap.Operations.{IsWellFormed, Removed, pop_back-Removed}

-- The root is the first to expire.
root_first_below :
    (k n : ℕ) (h : TtlHeap) (c : ℕ) → IsHeapBelow n h → c < k → c < n → ttl_at h 0 ≤ℤ ttl_at h c
root_first_below zero n h c o p q = absurd (omega arith)
root_first_below (suc k) n h zero o p q = omega arith
root_first_below (suc k) n h (suc c) o p q = omega (
  arith,
  o (suc c) (omega arith) q,
  root_first_below k n h (parent (suc c)) o (omega arith) (omega arith),
)

pub root_first : (h : TtlHeap) (c : ℕ) → IsHeap h → c < length h → ttl_at h 0 ≤ℤ ttl_at h c
root_first h c o p = root_first_below (suc c) (length h) h c o (omega arith) p

module _ (h : TtlHeap) (n i : ℕ) (size : length h ≡ suc n) (p : i ≤ n) (w : IsWellFormed h) where
  -- The slice behind `Swap(i, n)`.
  abbrev taken : TtlHeap
  taken = swapped h i n (omega arith) (omega arith)

  taken-Loose : Loose n taken i
  taken-Loose =
      let at = node-swapped h i n (omega arith) (omega arith) in
      record {
        edges = λ c a b q r. ground (arith, w.heap c, at c, at (parent c));
        bridged = λ c a b q r. ground (arith, w.heap c, w.heap i, at c, at (parent i));
      }

  -- The last node of the slice is cut off, and is the one that stood at `i`.
  cut-Removed :
      (h' : TtlHeap)
      → Restored n taken h'
      → (e : TtlEntry) × (r : TtlHeap) × (pop_back h' ≡ some (e, r)) × Removed h i e r
  cut-Removed h' s =
      let k = swapped-Kept (suc n) h i n (omega arith) (omega arith) (omega arith) (omega arith) in
      let (e, r, q, t) =
        pop_back-Removed n h' (omega (arith, s.kept.size, k.size)) s.heap
          (s.kept.indexed (k.indexed w.indexed)) in
      let last : plain (node h' n) ≡ plain (node h i) =
        ap plain (s.kept.beyond n (omega arith))
        ∙ ground (arith, node-swapped h i n (omega arith) (omega arith) n) in
      (
        e,
        r,
        q,
        record {
          well_formed = t.well_formed;
          nodes = Perm.trans t.nodes (Perm.trans s.kept.same k.same);
          found = t.found ∙ last;
          size = omega (arith, t.size, s.kept.size, k.size);
        },
      )

-- `heap.Pop` on a heap that is not empty returns the node that expires first, and leaves a
-- well-formed heap of the others; it does not panic.
pub heap_pop-Removed :
    (h : TtlHeap)
    → IsWellFormed h
    → 0 < length h
    → (e : TtlEntry) × (h' : TtlHeap) × (heap_pop h ≡ some (e, h'))
      × Removed h 0 e h'
      × ((c : ℕ) → c < length h → e.ttl ≤ℤ ttl_at h c)
unfolding heap_pop
heap_pop-Removed h w p =
    let n = length h - 1 in
    let size : length h ≡ suc n = omega arith in
    let hi : 0 < length h = p in
    let hn : n < length h = omega arith in
    let some_ : length h == 0 ≡ false = ground arith in
    let q : 0 ≤ n = omega arith in
    let (r, e, s) =
      down-Restored n (taken h n 0 size q w) (length h) (omega arith)
        (omega (arith, length-swapped h 0 n hi hn)) (taken-Loose h n 0 size q w) in
    let (x, h', f, t) = cut-Removed h n 0 size q w r.0 s in
    (
      x,
      h',
      rw (some_, swap_lem h 0 n hi hn, e) f,
      t,
      λ c b. rw (ap (λ (k : Str × ℤ). k.1) t.found) (root_first h c w.heap b),
    )

-- `heap.Remove(h, i)` within the heap returns the node at `i` and leaves a well-formed heap of the
-- others; it does not panic.
pub heap_remove-Removed :
    (h : TtlHeap) (i : ℕ)
    → IsWellFormed h
    → i < length h
    → (e : TtlEntry) × (h' : TtlHeap) × (heap_remove h i ≡ some (e, h')) × Removed h i e h'
unfolding heap_remove
heap_remove-Removed h i w p = elim (Bool-cases (length h - 1 == i)) [
  | inl last ↦
      rw last (pop_back-Removed i h (ground arith) (λ c a b. w.heap c a (omega arith)) w.indexed)
  | inr before ↦
      let n = length h - 1 in
      let size : length h ≡ suc n = omega arith in
      let q : i ≤ n = ground arith in
      let hi : i < length h = omega arith in
      let hn : n < length h = omega arith in
      let (h', e, s) =
        settle-Restored n (taken h n i size q w) i (ground arith)
          (omega (arith, length-swapped h i n hi hn)) (taken-Loose h n i size q w) in
      rw (before, swap_lem h i n hi hn, e) (cut-Removed h n i size q w h' s)
]

-- `heap.Fix(h, i)` puts a heap in order of which the node at `i` was given another time.
pub heap_fix-IsWellFormed :
    (h : TtlHeap) (i : ℕ) (t : ℤ)
    → IsWellFormed h
    → i < length h
    → (h' : TtlHeap) × (heap_fix (set h i (record (node h i) { ttl = t })) i ≡ some h')
      × IsWellFormed h'
      × SameNodes (set h i (record (node h i) { ttl = t })) h'
unfolding heap_fix
heap_fix-IsWellFormed h i t w p =
    let e = record (node h i) { ttl = t } in
    let size = length-set h i e in
    let at = λ (c : ℕ). node-set h i c e p in
    let (h', q, s) =
      settle-Restored (length (set h i e)) (set h i e) i (omega (arith, size)) (omega arith)
        (record {
          edges = λ c a b q r. ground (arith, w.heap c, at c, at (parent c), size);
          bridged = λ c a b q r. ground (arith, w.heap c, w.heap i, at c, at (parent i), size);
        }) in
    (
      h',
      q,
      record {
        heap = λ c a b. s.heap c a (omega (arith, s.kept.size, size));
        indexed = s.kept.indexed (λ c a. ground (arith, w.indexed c, at c, size));
      },
      s.kept.same,
    )
