-- ===== src/Config/TtlHeap/Order.antt =====
-- The heap order on the first nodes, and what `up` restores.
use mathlib.Core.List.Perm
use system_agent.Prelude.{
  ℕ, zero, suc, ◌-◌, ◌/◌, ◌≤◌, ◌<◌, ◌≡◌, ◌≢◌, refl, ◌∙◌, map, some, ◌==◌, true, arith, length,
  Bool-cases, inl, inr,
}
use system_agent.Prelude.Int.{◌≤ℤ◌, ltb_ℤ}
use system_agent.Config.TtlHeap.{TtlHeap, up}
use system_agent.Config.TtlHeap.Nodes.{
  node, ttl_at, plain, IsIndexed, SameNodes, swapped, swap_lem, less_lem, length-swapped,
  node-swapped, swapped-IsIndexed, swapped-SameNodes,
}

abbrev pub parent : ℕ → ℕ
parent c = (c - 1) / 2

-- No node of the first `n` expires before its parent.
abbrev pub IsHeapBelow : ℕ → TtlHeap → Type 0
IsHeapBelow n h = (c : ℕ) → 0 < c → c < n → ttl_at h (parent c) ≤ℤ ttl_at h c

abbrev pub IsHeap : TtlHeap → Type 0
IsHeap h = IsHeapBelow (length h) h

-- What every operation on the first `n` nodes leaves alone.
pub record Kept (n : ℕ) (h h' : TtlHeap) : Type 0 where
  pub size : length h' ≡ length h
  pub same : SameNodes h h'
  pub indexed : IsIndexed h → IsIndexed h'
  pub beyond : (c : ℕ) → n ≤ c → node h' c ≡ node h c

pub Kept-refl : (n : ℕ) (h : TtlHeap) → Kept n h h
Kept-refl n h = record {
  size = refl;
  same = Perm.refl (map plain h);
  indexed = λ x. x;
  beyond = λ c p. refl;
}

pub Kept-trans : {n : ℕ} {a b c : TtlHeap} → Kept n a b → Kept n b c → Kept n a c
Kept-trans p q = record {
  size = q.size ∙ p.size;
  same = Perm.trans q.same p.same;
  indexed = λ x. q.indexed (p.indexed x);
  beyond = λ c h. q.beyond c h ∙ p.beyond c h;
}

pub swapped-Kept :
    (n : ℕ) (h : TtlHeap) (i j : ℕ) (hi : i < length h) (hj : j < length h)
    → i < n
    → j < n
    → Kept n h (swapped h i j hi hj)
swapped-Kept n h i j hi hj p q = record {
  size = length-swapped h i j hi hj;
  same = swapped-SameNodes h i j hi hj;
  indexed = swapped-IsIndexed h i j hi hj;
  beyond = λ c r. ground (arith, node-swapped h i j hi hj c);
}

-- Only the edge above `i` may be out of order.
pub record UpInv (n : ℕ) (h : TtlHeap) (i : ℕ) : Type 0 where
  pub edges : (c : ℕ) → 0 < c → c < n → c ≢ i → ttl_at h (parent c) ≤ℤ ttl_at h c
  pub bridged : (c : ℕ) → 0 < c → c < n → parent c ≡ i → 0 < i → ttl_at h (parent i) ≤ℤ ttl_at h c

swapped-UpInv :
    (n : ℕ) (h : TtlHeap) (i : ℕ) (hp : parent i < length h) (hi : i < length h)
    → UpInv n h i
    → 0 < i
    → ltb_ℤ (ttl_at h i) (ttl_at h (parent i)) ≡ true
    → UpInv n (swapped h (parent i) i hp hi) (parent i)
swapped-UpInv n h i hp hi v pos_ below =
    let at = node-swapped h (parent i) i hp hi in
    record {
      edges = λ c p q r. ground (arith, at c, at (parent c), v.edges c, v.edges i, v.bridged c);
      bridged = λ c p q r s.
          ground (arith, at c, at (parent (parent i)), v.edges c, v.edges (parent i), v.bridged c);
    }

-- Where the node comes to rest.
pub record Rests (n : ℕ) (h : TtlHeap) (i : ℕ) (r : TtlHeap × ℕ) : Type 0 where
  pub kept : Kept n h r.0
  pub heap : IsHeapBelow n r.0
  pub inside : r.1 < n
  pub found : plain (node r.0 r.1) ≡ plain (node h i)

-- `up` ends, does not panic, and turns nodes of which one may be too low into a heap.
pub up-Rests :
    (fuel n : ℕ) (h : TtlHeap) (i : ℕ)
    → i < fuel
    → i < n
    → n ≤ length h
    → UpInv n h i
    → (r : TtlHeap × ℕ) × (up fuel h i ≡ some r) × Rests n h i r
unfolding up
up-Rests zero n h i f p q v = absurd (omega arith)
up-Rests (suc fuel) n h i f p q v = elim (Bool-cases (parent i == i)) [
  | inl root ↦ rw root ((h, i), refl, stays (λ c a b. v.edges c a b (ground arith)))
  | inr inner ↦
      let hi : i < length h = omega arith in
      let hp : parent i < length h = omega arith in
      rw (inner, less_lem h i (parent i) hi hp)
        (elim (Bool-cases (ltb_ℤ (ttl_at h i) (ttl_at h (parent i)))) [
          | inr settled ↦ rw settled ((h, i), refl, stays (λ c a b. ground (arith, v.edges c)))
          | inl below ↦
              let h' = swapped h (parent i) i hp hi in
              let (r, e, s) =
                up-Rests fuel n h' (parent i) (ground arith) (omega arith)
                  (omega (arith, length-swapped h (parent i) i hp hi))
                  (swapped-UpInv n h i hp hi v (ground arith) below) in
              rw (below, swap_lem h (parent i) i hp hi)
                (
                  r,
                  e,
                  record {
                    kept = Kept-trans (swapped-Kept n h (parent i) i hp hi (omega arith) p) s.kept;
                    heap = s.heap;
                    inside = s.inside;
                    found = s.found ∙ ground (arith, node-swapped h (parent i) i hp hi (parent i));
                  },
                )
        ])
]
  where
    stays : IsHeapBelow n h → Rests n h i (h, i)
    stays o = record { kept = Kept-refl n h; heap = o; inside = p; found = refl }
