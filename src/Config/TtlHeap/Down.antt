-- ===== src/Config/TtlHeap/Down.antt =====
-- What `down` restores, and the two together as `Fix` and `Remove` call them.
use system_agent.Prelude.{
  ℕ, zero, suc, ◌+◌, ◌*◌, ◌≤◌, ◌<◌, ◌≡◌, ◌≢◌, ◌∙◌, ◌⊎◌, inl, inr, refl, some, ◌==◌, true, false,
  arith, length, ltb, Bool-cases,
}
use system_agent.Prelude.Int.{◌≤ℤ◌, ltb_ℤ}
use system_agent.Config.TtlHeap.{TtlHeap, child, down, settle}
use system_agent.Config.TtlHeap.Nodes.{ttl_at, swapped, swap_lem, less_lem, node-swapped}
use system_agent.Config.TtlHeap.Order.{
  parent, IsHeapBelow, Kept, Kept-refl, Kept-trans, swapped-Kept, up-Rests,
}

-- The edges below `i` and the one above it may be out of order.
pub record Loose (n : ℕ) (h : TtlHeap) (i : ℕ) : Type 0 where
  pub edges : (c : ℕ) → 0 < c → c < n → c ≢ i → parent c ≢ i → ttl_at h (parent c) ≤ℤ ttl_at h c
  pub bridged : (c : ℕ) → 0 < c → c < n → parent c ≡ i → 0 < i → ttl_at h (parent i) ≤ℤ ttl_at h c

-- The edges below `i` alone may be out of order.
abbrev DownInv : ℕ → TtlHeap → ℕ → Type 0
DownInv n h i = Loose n h i × (0 < i → ttl_at h (parent i) ≤ℤ ttl_at h i)

-- `m` is the child of `i` that expires first.
record IsFirstChild (n : ℕ) (h : TtlHeap) (i m : ℕ) : Type 0 where
  inside : m < n
  below : (m ≡ 2 * i + 1) ⊎ (m ≡ 2 * i + 2)
  first : (c : ℕ) → 0 < c → c < n → parent c ≡ i → ttl_at h m ≤ℤ ttl_at h c

children : (c i : ℕ) → 0 < c → parent c ≡ i → (c ≡ 2 * i + 1) ⊎ (c ≡ 2 * i + 1 + 1)
children c i p e = elim (Bool-cases (c == 2 * i + 1)) [
  | inl left ↦ inl (ground arith)
  | inr right ↦ inr (ground arith)
]

module _ (n : ℕ) (h : TtlHeap) (i : ℕ) (q : n ≤ length h) where
  child-IsFirstChild : 2 * i + 1 < n → (m : ℕ) × (child h i n ≡ some m) × IsFirstChild n h i m
  unfolding child
  child-IsFirstChild p = elim (Bool-cases (ltb (2 * i + 1 + 1) n)) [
    | inr only ↦
        rw only (
          2 * i + 1,
          refl,
          record { inside = p; below = inl refl; first = λ c a b e. ground arith },
        )
    | inl both ↦
        rw (both, less_lem h (2 * i + 1 + 1) (2 * i + 1) (ground arith) (omega arith))
          (elim (Bool-cases (ltb_ℤ (ttl_at h (2 * i + 1 + 1)) (ttl_at h (2 * i + 1)))) [
            | inl right ↦ rw right (
              2 * i + 1 + 1,
              refl,
              record {
                inside = ground arith;
                below = inr (omega arith);
                first = λ c a b e. ground (arith, children c i a e);
              },
            )
            | inr left ↦ rw left (
              2 * i + 1,
              refl,
              record {
                inside = p;
                below = inl refl;
                first = λ c a b e. ground (arith, children c i a e);
              },
            )
          ])
  ]

swapped-DownInv :
    (n : ℕ) (h : TtlHeap) (i m : ℕ) (hi : i < length h) (hm : m < length h)
    → Loose n h i
    → IsFirstChild n h i m
    → ltb_ℤ (ttl_at h m) (ttl_at h i) ≡ true
    → DownInv n (swapped h i m hi hm) m
swapped-DownInv n h i m hi hm v s below =
    let at = node-swapped h i m hi hm in
    let up_ : parent m ≡ i = omega (arith, s.below) in
    (
      record {
        edges = λ c p q r t.
            ground (arith, at c, at (parent c), v.edges c, v.bridged m, s.first c, s.inside);
        bridged = λ c p q r t. ground (arith, at c, at (parent m), v.edges c, s.below);
      },
      λ p. ground (arith, at m, at (parent m), s.below),
    )

-- Below `i` the nodes are in order.
abbrev Settled : ℕ → TtlHeap → ℕ → Type 0
Settled n h i = (c : ℕ) → 0 < c → c < n → parent c ≡ i → ttl_at h i ≤ℤ ttl_at h c

-- One round of `down`: either `i` stays, or it changes places with its first child.
down_round :
    (fuel n : ℕ) (h : TtlHeap) (i : ℕ)
    → n ≤ length h
    → Loose n h i
    → (down (suc fuel) h i n ≡ some (h, i)) × Settled n h i
      ⊎ ((h' : TtlHeap) × (m : ℕ) × (down (suc fuel) h i n ≡ down fuel h' m n)
          × Kept n h h'
          × DownInv n h' m
          × (i < m)
          × (m < n))
unfolding down
down_round fuel n h i q v = elim (Bool-cases (ltb (2 * i + 1) n)) [
  | inr leaf ↦ inl (rw leaf (refl, λ c a b e. absurd (ground arith)))
  | inl inner ↦
      let (m, e, s) = child-IsFirstChild n h i q (ground arith) in
      let hi : i < length h = ground arith in
      let hm : m < length h = omega (arith, s.inside) in
      rw (inner, e, less_lem h m i hm hi)
        (elim (Bool-cases (ltb_ℤ (ttl_at h m) (ttl_at h i))) [
          | inr settled ↦ inl (rw settled (refl, λ c a b e. ground (arith, s.first c)))
          | inl below ↦ inr (
              rw (below, swap_lem h i m hi hm)
                (
                  swapped h i m hi hm,
                  m,
                  refl,
                  swapped-Kept n h i m hi hm (ground arith) s.inside,
                  swapped-DownInv n h i m hi hm v s below,
                  omega (arith, s.below),
                  s.inside,
                ))
        ])
]

-- A node at rest below which and above which the nodes are in order.
rest-IsHeapBelow : (n : ℕ) (h : TtlHeap) (i : ℕ) → DownInv n h i → Settled n h i → IsHeapBelow n h
rest-IsHeapBelow n h i (v, above) s c p q = elim (Bool-cases (c == i)) [
  | inl same ↦ ground arith
  | inr other ↦ ground (arith, v.edges c, s c)
]

-- What `down` leaves, where it began at `i`.
record Sunk (n : ℕ) (h : TtlHeap) (i : ℕ) (r : TtlHeap × ℕ) : Type 0 where
  kept : Kept n h r.0
  heap : IsHeapBelow n r.0
  reached : i ≤ r.1

-- `down` ends, does not panic, and turns nodes of which one may be too high into a heap.
down-Sunk :
    (fuel n : ℕ) (h : TtlHeap) (i : ℕ)
    → n ≤ i + fuel
    → n ≤ length h
    → DownInv n h i
    → (r : TtlHeap × ℕ) × (down fuel h i n ≡ some r) × Sunk n h i r
down-Sunk zero n h i f q v = (
  (h, i),
  unfold down in refl,
  record {
    kept = Kept-refl n h;
    heap = rest-IsHeapBelow n h i v (λ c a b e. absurd (omega arith));
    reached = omega arith;
  },
)
down-Sunk (suc fuel) n h i f q v = elim (down_round fuel n h i q v.0) [
  | inl (e, s) ↦ (
    (h, i),
    e,
    record { kept = Kept-refl n h; heap = rest-IsHeapBelow n h i v s; reached = omega arith },
  )
  | inr (h', m, e, k, d, later, inside) ↦
      let (r, e', s) = down-Sunk fuel n h' m (omega arith) (omega (arith, k.size)) d in
      (
        r,
        e ∙ e',
        record { kept = Kept-trans k s.kept; heap = s.heap; reached = omega (arith, s.reached) },
      )
]

-- A heap of the same nodes.
pub record Restored (n : ℕ) (h h' : TtlHeap) : Type 0 where
  pub kept : Kept n h h'
  pub heap : IsHeapBelow n h'

-- Nodes of which one was changed are put in order by `down`, or by `up` where `down` did nothing.
pub settle-Restored :
    (n : ℕ) (h : TtlHeap) (i : ℕ)
    → i < n
    → n ≤ length h
    → Loose n h i
    → (h' : TtlHeap) × (settle h i n ≡ some h') × Restored n h h'
unfolding settle
settle-Restored zero h i p q v = absurd (omega arith)
settle-Restored (suc k) h i p q v = elim (down_round k (suc k) h i q v) [
  | inl (e, s) ↦
      let (r, e', t) =
        up-Rests (suc i) (suc k) h i (omega arith) p q
          (record { edges = λ c a b d. grind (arith, v.edges, s); bridged = v.bridged }) in
      let stay : ltb i i ≡ false = ground arith in
      (r.0, rw (e, stay, e'), record { kept = t.kept; heap = t.heap })
  | inr (h', m, e, kept, d, later, inside) ↦
      let (r, e', t) = down-Sunk k (suc k) h' m (omega arith) (omega (arith, kept.size)) d in
      let moved : ltb i r.1 ≡ true = ground (arith, t.reached) in
      (r.0, rw (e, e', moved), record { kept = Kept-trans kept t.kept; heap = t.heap })
]

-- `down` from the root of a heap whose root was changed.
pub down-Restored :
    (n : ℕ) (h : TtlHeap) (fuel : ℕ)
    → n ≤ fuel
    → n ≤ length h
    → Loose n h 0
    → (r : TtlHeap × ℕ) × (down fuel h 0 n ≡ some r) × Restored n h r.0
down-Restored n h fuel f q v =
    let (r, e, s) = down-Sunk fuel n h 0 (omega arith) q (v, λ p. absurd (omega arith)) in
    (r, e, record { kept = s.kept; heap = s.heap })
