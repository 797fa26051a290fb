-- ===== src/Store/Index/Sorted.antt =====
-- An index stays a sorted list of keys when a key is added.
use mathlib.Core.List.{Perm}
use mathlib.Core.List.Perm
use Prim.Native.Nat.{Ordering}
use system_agent.Prelude.{
  ◌≡◌, ◌≢◌, refl, sym, ◌∙◌, ap, List, [], ◌∷◌, ◌++◌, append-nil, arith, length, inl, inr, ◌⊎◌,
}
use system_agent.Prelude.Text.{Str}
use system_agent.Prelude.Result.{ok}
use system_agent.Store.Index.{join, obj_key_size, insert_obj, sort_objs, added, bytes_compare}
use system_agent.Store.Index.Split.{AreKeys, AreKeys-append, split_objects-join, join-append}

-- `a` does not come after `b` in the order of bytes.Compare.
abbrev pub NotAfter : Str → Str → Type 0
NotAfter a b = bytes_compare a b ≢ Ordering.gt

abbrev pub AreBehind : Str → List Str → Type 0
AreBehind a [] = Unit
AreBehind a (b ∷ bs) = (NotAfter a b) × AreBehind a bs

abbrev pub IsSorted : List Str → Type 0
IsSorted [] = Unit
IsSorted (a ∷ bs) = AreBehind a bs × IsSorted bs

compare-flip : (a b : Str) → bytes_compare a b ≡ Ordering.gt → NotAfter b a
unfolding bytes_compare
compare-flip [] [] h = cc
compare-flip [] (y ∷ b) h = cc
compare-flip (x ∷ a) [] h = λ q. cc
compare-flip (x ∷ a) (y ∷ b) h = ground (arith, compare-flip a b)

NotAfter-trans : (a b c : Str) → NotAfter a b → NotAfter b c → NotAfter a c
unfolding bytes_compare
NotAfter-trans [] b [] p q = λ h. cc
NotAfter-trans [] b (z ∷ c) p q = λ h. cc
NotAfter-trans (x ∷ a) [] c p q = absurd (p refl)
NotAfter-trans (x ∷ a) (y ∷ b) [] p q = absurd (q refl)
NotAfter-trans (x ∷ a) (y ∷ b) (z ∷ c) p q = ground (arith, NotAfter-trans a b c)

AreBehind-trans : (a b : Str) (bs : List Str) → NotAfter a b → AreBehind b bs → AreBehind a bs
AreBehind-trans a b [] p q = tt
AreBehind-trans a b (c ∷ bs) p (q, r) = (NotAfter-trans a b c p q, AreBehind-trans a b bs p r)

-- Where the new key goes: in front of the first key, or behind it.
abbrev Placed : Str → Str → List Str → Type 0
Placed k j js =
    NotAfter k j × (insert_obj k (j ∷ js) ≡ k ∷ j ∷ js)
    ⊎ NotAfter j k × (insert_obj k (j ∷ js) ≡ j ∷ insert_obj k js)

place : (k j : Str) (js : List Str) → Placed k j js
unfolding insert_obj
place k j js = go (bytes_compare k j) refl
  where
    go : (o : Ordering) → bytes_compare k j ≡ o → Placed k j js
    go Ordering.lt e = inl ((λ q. cc), (rw (e, insert_obj)))
    go Ordering.eq e = inl ((λ q. cc), (rw (e, insert_obj)))
    go Ordering.gt e = inr (compare-flip k j e, (rw (e, insert_obj)))

AreBehind-insert :
    (a k : Str) (js : List Str) → NotAfter a k → AreBehind a js → AreBehind a (insert_obj k js)
unfolding insert_obj
AreBehind-insert a k [] p q = (p, tt)
AreBehind-insert a k (j ∷ js) p (q, r) = elim (place k j js) [
  | inl (_, e) ↦ rw e (p, (q, r))
  | inr (_, e) ↦ rw e (q, AreBehind-insert a k js p r)
]

insert_obj-IsSorted : (k : Str) (js : List Str) → IsSorted js → IsSorted (insert_obj k js)
unfolding insert_obj
insert_obj-IsSorted k [] s = (tt, tt)
insert_obj-IsSorted k (j ∷ js) (b, s) = elim (place k j js) [
  | inl (p, e) ↦ rw e ((p, AreBehind-trans k j js p b), (b, s))
  | inr (p, e) ↦ rw e (AreBehind-insert j k js p b, insert_obj-IsSorted k js s)
]

insert_obj-AreKeys :
    (k : Str) (js : List Str) → length k ≡ obj_key_size → AreKeys js → AreKeys (insert_obj k js)
unfolding insert_obj
insert_obj-AreKeys k [] p a = (p, tt)
insert_obj-AreKeys k (j ∷ js) p (q, a) = elim (place k j js) [
  | inl (_, e) ↦ rw e (p, (q, a))
  | inr (_, e) ↦ rw e (q, insert_obj-AreKeys k js p a)
]

insert_obj-Perm : (k : Str) (js : List Str) → Perm (insert_obj k js) (k ∷ js)
unfolding insert_obj
insert_obj-Perm k [] = Perm.refl (k ∷ [])
insert_obj-Perm k (j ∷ js) = elim (place k j js) [
  | inl (_, e) ↦ rw e (Perm.refl (k ∷ j ∷ js))
  | inr (_, e) ↦ rw e (Perm.trans (Perm.cons j (insert_obj-Perm k js)) (Perm.swap k j js))
]

-- The sorted keys: the same keys in order.
sort_objs-Sorted :
    (ks : List Str)
    → AreKeys ks
    → IsSorted (sort_objs ks) × AreKeys (sort_objs ks) × Perm (sort_objs ks) ks
unfolding sort_objs
sort_objs-Sorted [] a = (tt, tt, Perm.refl [])
sort_objs-Sorted (k ∷ ks) (e, a) =
    let (s, b, p) = sort_objs-Sorted ks a in
    (
      insert_obj-IsSorted k (sort_objs ks) s,
      insert_obj-AreKeys k (sort_objs ks) e b,
      Perm.trans (insert_obj-Perm k (sort_objs ks)) (Perm.cons k p),
    )

-- Adding a key to an index of keys of the right size does not panic; it writes an index whose keys
-- are sorted, and are the keys there were and the new one.
pub added-Sorted :
    (ks : List Str) (k : Str)
    → AreKeys ks
    → length k ≡ obj_key_size
    → (js : List Str) × (added (join ks) k ≡ ok (join js))
      × IsSorted js
      × AreKeys js
      × Perm js (ks ++ k ∷ [])
unfolding added join
added-Sorted ks k a e =
    let all = AreKeys-append ks (k ∷ []) a (e, tt) in
    let (s, b, p) = sort_objs-Sorted (ks ++ k ∷ []) all in
    (sort_objs (ks ++ k ∷ []), rw (joined, split_objects-join (ks ++ k ∷ []) all), s, b, p)
  where
    joined : join ks ++ k ≡ join (ks ++ k ∷ [])
    joined = sym (join-append ks (k ∷ []) ∙ ap (λ l. join ks ++ l) (append-nil k))
