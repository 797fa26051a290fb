-- ===== src/Config/TtlHeap/Nodes.antt =====
-- The nodes of the expiry heap by position, and what an exchange of two nodes does.
use mathlib.Core.List.{Perm}
use mathlib.Core.List.Perm
use system_agent.Prelude.{
  ℕ, zero, suc, ◌<◌, ◌≡◌, refl, [], ◌∷◌, map, none, some, true, ◌==◌, if◌then◌else◌, arith, length,
  get_elem?, get_or, set, length-set,
}
use system_agent.Prelude.Int.{ℤ, pos, ltb_ℤ}
use system_agent.Prelude.Text.{Str}
use system_agent.Config.TtlHeap.{TtlEntry, TtlHeap, less, swap}

abbrev pub no_node : TtlEntry
no_node = record { cache_key = []; ttl = pos 0; index = pos 0 }

-- `(*h)[i]`, within the slice.
abbrev pub node : TtlHeap → ℕ → TtlEntry
node h i = get_or h i no_node

abbrev pub ttl_at : TtlHeap → ℕ → ℤ
ttl_at h i = (node h i).ttl

-- What a node says, without its position.
abbrev pub plain : TtlEntry → Str × ℤ
plain e = (e.cache_key, e.ttl)

-- Every node knows its position.
abbrev pub IsIndexed : TtlHeap → Type 0
IsIndexed h = (c : ℕ) → c < length h → (node h c).index ≡ pos c

-- The heaps hold the same keys and times.
abbrev pub SameNodes : TtlHeap → TtlHeap → Type 0
SameNodes h h' = Perm (map plain h') (map plain h)

pub get_elem?-node : (h : TtlHeap) (i : ℕ) → i < length h → get_elem? h i ≡ some (node h i)
get_elem?-node [] i p = absurd (omega arith)
get_elem?-node (e ∷ h) zero p = refl
get_elem?-node (e ∷ h) (suc i) p = get_elem?-node h i (omega arith)

pub get_elem?-empty : (h : TtlHeap) → length h == 0 ≡ true → get_elem? h 0 ≡ none
get_elem?-empty [] p = refl
get_elem?-empty (e ∷ h) p = absurd (ground arith)

pub node-set :
    (h : TtlHeap) (i j : ℕ) (e : TtlEntry)
    → i < length h
    → node (set h i e) j ≡ (if i == j then e else node h j)
node-set [] i j e p = absurd (omega arith)
node-set (x ∷ h) zero zero e p = ground arith
node-set (x ∷ h) zero (suc j) e p = ground arith
node-set (x ∷ h) (suc i) zero e p = ground arith
node-set (x ∷ h) (suc i) (suc j) e p = ground (arith, node-set h i j e)

-- A write trades the node for the new one.
set-perm :
    (h : TtlHeap) (i : ℕ) (e : TtlEntry)
    → i < length h
    → Perm (plain (node h i) ∷ map plain (set h i e)) (plain e ∷ map plain h)
set-perm [] i e p = absurd (omega arith)
set-perm (x ∷ h) zero e p = Perm.swap (plain e) (plain x) (map plain h)
set-perm (x ∷ h) (suc i) e p =
    let front = Perm.swap (plain x) (plain (node h i)) (map plain (set h i e)) in
    let deep = Perm.cons (plain x) (set-perm h i e (omega arith)) in
    Perm.trans front (Perm.trans deep (Perm.swap (plain e) (plain x) (map plain h)))

module _ (h : TtlHeap) (i j : ℕ) (hi : i < length h) (hj : j < length h) where
  -- The slice behind `Swap(i, j)`.
  abbrev pub swapped : TtlHeap
  swapped =
      set (set h i (record (node h j) { index = pos i })) j (record (node h i) { index = pos j })

  pub swap_lem : swap h i j ≡ some swapped
  unfolding swap
  swap_lem = rw (get_elem?-node h i hi, get_elem?-node h j hj)

  pub less_lem : less h i j ≡ some (ltb_ℤ (ttl_at h i) (ttl_at h j))
  unfolding less
  less_lem = rw (get_elem?-node h i hi, get_elem?-node h j hj)

  pub length-swapped : length swapped ≡ length h
  length-swapped = simp length-set

  pub node-swapped :
      (c : ℕ)
      → node swapped c ≡ (
          if j == c
          then record (node h i) { index = pos j }
          else if i == c
          then record (node h j) { index = pos i }
          else node h c)
  node-swapped c = rw (
    node-set (set h i (record (node h j) { index = pos i })) j c
        (record (node h i) { index = pos j }) (rw length-set hj),
    node-set h i c (record (node h j) { index = pos i }) hi,
  )

  pub swapped-IsIndexed : IsIndexed h → IsIndexed swapped
  swapped-IsIndexed x c p = ground (arith, node-swapped c, x c, length-swapped)

  pub swapped-SameNodes : SameNodes h swapped
  swapped-SameNodes =
      let e = record (node h j) { index = pos i } in
      let f = record (node h i) { index = pos j } in
      let kept : plain (node (set h i e) j) ≡ plain (node h j) = ground (arith, node-set h i j e) in
      let second = rw kept at (set-perm (set h i e) j f (rw length-set hj)) in
      Perm.cons_inv (Perm.trans second (set-perm h i e hi))
