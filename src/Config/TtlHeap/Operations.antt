-- ===== src/Config/TtlHeap/Operations.antt =====
-- The operations of container/heap that the loader calls, on a heap of well-indexed nodes.
use mathlib.Core.List.{Perm, perm_middle, map-append}
use mathlib.Core.List.Perm
use system_agent.Prelude.{
  ℕ, zero, suc, ◌-◌, ◌<◌, ◌≡◌, refl, ap, ◌∙◌, [], ◌∷◌, ◌++◌, map, append-nil, some, ◌==◌, false,
  arith, length, take, length-append, length-take, Bool-cases, inl, inr,
}
use system_agent.Prelude.Int.{pos, negsuc}
use system_agent.Config.TtlHeap.{TtlEntry, TtlHeap, push_back, pop_back, heap_push}
use system_agent.Config.TtlHeap.Nodes.{node, plain, IsIndexed, get_elem?-node}
use system_agent.Config.TtlHeap.Order.{parent, IsHeap, IsHeapBelow, UpInv, up-Rests}

pub record IsWellFormed (h : TtlHeap) : Type 0 where
  pub heap : IsHeap h
  pub indexed : IsIndexed h

node-append : (h : TtlHeap) (e : TtlEntry) (i : ℕ) → i < length h → node (h ++ e ∷ []) i ≡ node h i
node-append [] e i p = absurd (omega arith)
node-append (x ∷ h) e zero p = refl
node-append (x ∷ h) e (suc i) p = node-append h e i (omega arith)

node-append_last : (h : TtlHeap) (e : TtlEntry) → node (h ++ e ∷ []) (length h) ≡ e
node-append_last [] e = refl
node-append_last (x ∷ h) e = node-append_last h e

node-take : (n : ℕ) (h : TtlHeap) (i : ℕ) → i < n → node (take n h) i ≡ node h i
node-take zero h i p = absurd (omega arith)
node-take (suc n) [] i p = refl
node-take (suc n) (x ∷ h) zero p = refl
node-take (suc n) (x ∷ h) (suc i) p = node-take n h i (omega arith)

take-append-node : (n : ℕ) (h : TtlHeap) → length h ≡ suc n → take n h ++ node h n ∷ [] ≡ h
take-append-node n [] p = absurd (omega arith)
take-append-node zero (x ∷ []) p = refl
take-append-node zero (x ∷ y ∷ h) p = absurd (omega arith)
take-append-node (suc n) (x ∷ h) p = ap (λ l. x ∷ l) (take-append-node n h (omega arith))

append-perm : (h : TtlHeap) (e : TtlEntry) → Perm (map plain (h ++ e ∷ [])) (plain e ∷ map plain h)
append-perm h e =
    rw map-append (rw (append-nil (map plain h)) at (perm_middle {a = plain e} (map plain h) []))

-- A well-formed heap of the nodes of `h` and the new one, which stands at `k`.
pub record Pushed (h : TtlHeap) (e : TtlEntry) (h' : TtlHeap) (k : ℕ) : Type 0 where
  pub well_formed : IsWellFormed h'
  pub nodes : Perm (map plain h') (plain e ∷ map plain h)
  pub inside : k < length h'
  pub found : plain (node h' k) ≡ plain e

-- `heap.Push` on a well-formed heap does not panic, leaves a well-formed heap of the nodes and the
-- new one, and the index that the new node is told is the position where it stands.
pub heap_push-Pushed :
    (h : TtlHeap) (e : TtlEntry)
    → IsWellFormed h
    → (h' : TtlHeap) × (k : ℕ) × (heap_push h e ≡ some (h', pos k)) × Pushed h e h' k
unfolding heap_push push_back
heap_push-Pushed h e w =
    let x = record e { index = pos (length h) } in
    let size = length-append h (x ∷ []) in
    let start : UpInv (suc (length h)) (h ++ x ∷ []) (length h) = record {
      edges = λ c p q r. ground (arith, w.heap c, node-append h x c, node-append h x (parent c));
      bridged = λ c p q r s. absurd (omega arith);
    } in
    let (r, a, s) =
      up-Rests (suc (length h)) (suc (length h)) (h ++ x ∷ []) (length h) (omega arith)
        (omega arith) (omega (arith, size)) start in
    let indexed : IsIndexed r.0 = s.kept.indexed (λ c p. elim (Bool-cases (c == length h)) [
      | inl last ↦ ground (arith, node-append_last h x)
      | inr before ↦ ground (arith, node-append h x c, w.indexed c, size)
    ]) in
    let inside : r.1 < length r.0 = omega (arith, s.inside, s.kept.size, size) in
    (
      r.0,
      r.1,
      rw (a, get_elem?-node r.0 r.1 inside) (ap (λ i. some (r.0, i)) (indexed r.1 inside)),
      record {
        well_formed = record {
          heap = λ c p q. s.heap c p (omega (arith, s.kept.size, size));
          indexed = indexed;
        };
        nodes = Perm.trans s.kept.same (append-perm h x);
        inside = inside;
        found = s.found ∙ ap plain (node-append_last h x);
      },
    )

-- What `heap.Pop` and `heap.Remove` return: the node that stood at `i`, and a heap of the others.
pub record Removed (h : TtlHeap) (i : ℕ) (e : TtlEntry) (h' : TtlHeap) : Type 0 where
  pub well_formed : IsWellFormed h'
  pub nodes : Perm (plain e ∷ map plain h') (map plain h)
  pub found : plain e ≡ plain (node h i)
  pub size : suc (length h') ≡ length h

pub pop_back-Removed :
    (n : ℕ) (h : TtlHeap)
    → length h ≡ suc n
    → IsHeapBelow n h
    → IsIndexed h
    → (e : TtlEntry) × (h' : TtlHeap) × (pop_back h ≡ some (e, h')) × Removed h n e h'
unfolding pop_back
pop_back-Removed n h size o x =
    let some_ : length h == 0 ≡ false = ground arith in
    let last : length h - 1 ≡ n = omega arith in
    let short : length (take n h) ≡ n = omega (arith, length-take n h) in
    (
      record (node h n) { index = negsuc 0 },
      take n h,
      rw (some_, last, get_elem?-node h n (omega arith)),
      record {
        well_formed = record {
          heap = λ c p q. ground (arith, o c, node-take n h c, node-take n h (parent c), short);
          indexed = λ c p. ground (arith, x c, node-take n h c, short);
        };
        nodes = rw (take-append-node n h size) at (Perm.symm (append-perm (take n h) (node h n)));
        found = refl;
        size = omega (arith, short, size);
      },
    )
