-- ===== src/Config/TtlHeap.antt =====
-- The heap of expiry times of internal/config/ams.go (`ttlHeap`, from line 521), with the functions
-- of container/heap that call its methods. A `*ttlEntry` is held by the heap alone, so the slice of
-- pointers is a list of entries. `none` is a panic: an index out of range.
pub mod Nodes
pub mod Order
pub mod Down
pub mod Operations
pub mod Removal
pub mod Tests
use system_agent.Prelude.{
  ℕ, zero, suc, ◌+◌, ◌-◌, ◌*◌, ◌/◌, Bool, true, false, List, [], ◌∷◌, ◌++◌, Option, none, some, ltb,
  ◌==◌, ◌||◌, not, if◌then◌else◌, length, get_elem?, set, take,
}
use system_agent.Prelude.Int.{ℤ, pos, negsuc, ltb_ℤ}
use system_agent.Prelude.Text.{Str}
use system_agent.Prelude.Partial.{◌>>=◌}

-- `index` is -1 behind `Pop`.
pub record TtlEntry : Type 0 where
  pub cache_key : Str
  pub ttl : ℤ
  pub index : ℤ

abbrev pub TtlHeap : Type 0
TtlHeap = List TtlEntry

unfoldable pub less : TtlHeap → ℕ → ℕ → Option Bool
less h i j = do x ← get_elem? h i; y ← get_elem? h j; some (ltb_ℤ x.ttl y.ttl)

-- The two entries change places, and each is told its new index.
unfoldable pub swap : TtlHeap → ℕ → ℕ → Option TtlHeap
swap h i j = do
  x ← get_elem? h i
  y ← get_elem? h j
  some (set (set h i (record y { index = pos i })) j (record x { index = pos j }))

-- The method `Push`: the node with its index at the end.
unfoldable pub push_back : TtlHeap → TtlEntry → TtlHeap
push_back h node = h ++ (record node { index = pos (length h) } ∷ [])

-- The method `Pop`: the last node, and the heap without it.
unfoldable pub pop_back : TtlHeap → Option (TtlEntry × TtlHeap)
pop_back h = do
  node ← if length h == 0 then none else get_elem? h (length h - 1)
  some (record node { index = negsuc 0 }, take (length h - 1) h)

-- container/heap `up`: the heap, and the index where the entry came to rest. `fuel` bounds the
-- rounds: `j` falls in each.
unfoldable pub up : ℕ → TtlHeap → ℕ → Option (TtlHeap × ℕ)
up zero h j = some (h, j)
up (suc fuel) h j =
    let i = (j - 1) / 2 in
    let rise = swap h i j >>= λ h'. up fuel h' i in
    let step = less h j i >>= λ below. if below then rise else some (h, j) in
    if i == j then some (h, j) else step

-- The child of `i` that `down` compares, of the first `n` entries.
unfoldable pub child : TtlHeap → ℕ → ℕ → Option ℕ
child h i n =
    let j1 = 2 * i + 1 in
    let j2 = j1 + 1 in
    if ltb j2 n then (do right ← less h j2 j1; some (if right then j2 else j1)) else some j1

-- container/heap `down`: the heap, and the index where the entry came to rest.
unfoldable pub down : ℕ → TtlHeap → ℕ → ℕ → Option (TtlHeap × ℕ)
down zero h i n = some (h, i)
down (suc fuel) h i n =
    let step : Option (TtlHeap × ℕ) = do
      j ← child h i n
      below ← less h j i
      let sink = swap h i j >>= λ h'. down fuel h' j n
      if below then sink else some (h, i)
    in if ltb (2 * i + 1) n then step else some (h, i)

-- `if !down(h, i, n) { up(h, i) }`
unfoldable pub settle : TtlHeap → ℕ → ℕ → Option TtlHeap
settle h i n = do
  r ← down n h i n
  if ltb i r.1 then some r.0 else (do q ← up (suc i) r.0 i; some q.0)

-- The heap, and `node.index` behind the call.
unfoldable pub heap_push : TtlHeap → TtlEntry → Option (TtlHeap × ℤ)
heap_push h node = do
  r ← up (suc (length h)) (push_back h node) (length h)
  e ← get_elem? r.0 r.1
  some (r.0, e.index)

unfoldable pub heap_pop : TtlHeap → Option (TtlEntry × TtlHeap)
heap_pop h = do
  h' ← if length h == 0 then none else swap h 0 (length h - 1)
  r ← down (length h) h' 0 (length h - 1)
  pop_back r.0

unfoldable pub heap_remove : TtlHeap → ℕ → Option (TtlEntry × TtlHeap)
heap_remove h i =
    let n = length h - 1 in
    let elsewhere = swap h i n >>= λ h'. settle h' i n in
    (if n == i then some h else elsewhere) >>= pop_back

unfoldable pub heap_fix : TtlHeap → ℕ → Option TtlHeap
heap_fix h i = settle h i (length h)
