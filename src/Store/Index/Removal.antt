-- ===== src/Store/Index/Removal.antt =====
-- What `deleteObjKeyFromIndex` does to an index.
use Prim.Native.Nat.{Ordering}
use system_agent.Prelude.{
  ℕ, zero, suc, ◌+◌, ◌-◌, ◌*◌, ◌/◌, ◌<◌, ◌≡◌, refl, sym, ◌∙◌, ap, List, [], ◌∷◌, ◌++◌, append_assoc,
  some, none, arith, length, length-append, drop, take-append_length, drop-append_length, ltb,
  Bool-cases, Option-cases, ◌⊎◌, inl, inr,
}
use mathlib.Core.Option
use system_agent.Prelude.Text.{Str}
use system_agent.Store.Index.{
  join, obj_key_size, bytes_compare, obj_at, without_obj, find_obj, num_objects, deleted,
}
use system_agent.Store.Index.Split.{AreKeys, join-append}

length-join : (ks : List Str) → AreKeys ks → length (join ks) ≡ length ks * obj_key_size
unfolding join
length-join [] a = refl
length-join (k ∷ ks) (e, a) = omega (arith, length-append k (join ks), e, length-join ks a)

num_objects-join : (ks : List Str) → AreKeys ks → num_objects (join ks) ≡ length ks
unfolding num_objects
num_objects-join ks a = omega (arith, length-join ks a)

AreKeys-parts : (ks js : List Str) → AreKeys (ks ++ js) → AreKeys ks × AreKeys js
AreKeys-parts [] js a = (tt, a)
AreKeys-parts (k ∷ ks) js (e, a) = let (b, c) = AreKeys-parts ks js a in ((e, b), c)

-- The list around the place `m`.
around :
    (m : ℕ) (ks : List Str)
    → m < length ks
    → (before : List Str) × (k : Str) × (behind : List Str) × (length before ≡ m)
      × (ks ≡ before ++ k ∷ behind)
around m [] h = absurd (omega arith)
around zero (k ∷ ks) h = ([], k, ks, refl, refl)
around (suc m) (k ∷ ks) h =
    let (before, j, behind, e, p) = around m ks (omega arith) in
    (k ∷ before, j, behind, ap suc e, ap (λ l. k ∷ l) p)

module _ (before : List Str) (k : Str) (behind : List Str)
    (a : AreKeys (before ++ k ∷ behind)) where
  parts : AreKeys before × AreKeys (k ∷ behind)
  parts = AreKeys-parts before (k ∷ behind) a

  joined : join (before ++ k ∷ behind) ≡ join before ++ (k ++ join behind)
  unfolding join
  joined = join-append before (k ∷ behind)

  obj_at-join : obj_at (join (before ++ k ∷ behind)) (length before) ≡ k
  unfolding obj_at
  obj_at-join =
      rw
        (
          joined,
          drop-append_length (length before * obj_key_size) (join before) (k ++ join behind)
              (length-join before parts.0),
        )
        (take-append_length obj_key_size k (join behind) parts.1.0)

  without_obj-join :
      without_obj (join (before ++ k ∷ behind)) (length before) ≡ join (before ++ behind)
  unfolding without_obj
  without_obj-join =
      let size = length-join before parts.0 in
      let e : length (join before ++ k) ≡ suc (length before) * obj_key_size =
        omega (arith, length-append (join before) k, size, parts.1.0) in
      rw
        (
          joined,
          join-append before behind,
          take-append_length (length before * obj_key_size) (join before) (k ++ join behind) size,
        )
        (ap (λ l. join before ++ l)
          (ap (drop (suc (length before) * obj_key_size))
              (sym (append_assoc (join before) k (join behind)))
            ∙ drop-append_length (suc (length before) * obj_key_size) (join before ++ k)
                (join behind) e))

eq_of_compare : (a b : Str) → bytes_compare a b ≡ Ordering.eq → a ≡ b
unfolding bytes_compare
eq_of_compare [] [] h = refl
eq_of_compare [] (y ∷ b) h = cc
eq_of_compare (x ∷ a) [] h = cc
eq_of_compare (x ∷ a) (y ∷ b) h = ground (arith, eq_of_compare a b)

compare_turned : (a b : Str) → bytes_compare a b ≡ Ordering.lt → bytes_compare b a ≡ Ordering.gt
unfolding bytes_compare
compare_turned [] [] h = cc
compare_turned [] (y ∷ b) h = refl
compare_turned (x ∷ a) [] h = cc
compare_turned (x ∷ a) (y ∷ b) h = ground (arith, compare_turned a b)

Ordering-cases : (o : Ordering) → (o ≡ Ordering.lt) ⊎ (o ≡ Ordering.eq) ⊎ (o ≡ Ordering.gt)
Ordering-cases Ordering.lt = inl refl
Ordering-cases Ordering.eq = inr (inl refl)
Ordering-cases Ordering.gt = inr (inr refl)

find_obj-found :
    (fuel : ℕ) (val value : Str) (l h m : ℕ)
    → find_obj fuel val value l h ≡ some m
    → m < h × (bytes_compare (obj_at val m) value ≡ Ordering.eq)
unfolding find_obj
find_obj-found zero val value l h m p = cc
find_obj-found (suc fuel) val value l h m p = elim (Bool-cases (ltb l h)) [
  | inr done ↦ absurd (let q = rw (done, find_obj) at p in cc)
  | inl more ↦
      let some_ : l < h = ground arith in
      let q = rw (more, find_obj) at p in
      elim (Ordering-cases (bytes_compare (obj_at val ((l + h) / 2)) value)) [
        | inl e ↦ find_obj-found fuel val value (suc ((l + h) / 2)) h m (rw e at q)
        | inr (inl e) ↦
            let here = Option.some-injective _ _ (rw e at q) in
            (omega (arith, here, some_), rw here at e)
        | inr (inr e) ↦
            let (below, same) = find_obj-found fuel val value l ((l + h) / 2 - 1) m (rw e at q) in
            (omega (arith, below, some_), same)
      ]
]

-- Where the code finds a key in an index, it takes out one copy of that key and nothing else.
pub deleted-removes :
    (ks : List Str) (k val : Str)
    → AreKeys ks
    → deleted (join ks) k ≡ some val
    → (before : List Str) × (behind : List Str) × (ks ≡ before ++ k ∷ behind)
      × (val ≡ join (before ++ behind))
unfolding deleted
deleted-removes ks k val a h =
    elim (Option-cases
      (find_obj (suc (num_objects (join ks))) (join ks) k 0 (num_objects (join ks)))) [
        | inl e ↦ absurd (let q = rw (e, deleted) at h in cc)
        | inr (m, e) ↦
            let (below, same) = find_obj-found _ (join ks) k 0 (num_objects (join ks)) m e in
            let (before, j, behind, at, split) =
              around m ks (omega (arith, below, num_objects-join ks a)) in
            let keys = rw split at a in
            let found : j ≡ k =
              sym (
                (ap (λ l. obj_at (join l) m) split
                  ∙ ap (obj_at (join (before ++ j ∷ behind))) (sym at)
                  ∙ obj_at-join before j behind keys))
              ∙ eq_of_compare (obj_at (join ks) m) k same in
            (
              before,
              behind,
              split ∙ ap (λ i. before ++ i ∷ behind) found,
              sym (Option.some-injective _ _ (rw (e, deleted) at h))
                  ∙ ap (λ l. without_obj (join l) m) split
                  ∙ ap (without_obj (join (before ++ j ∷ behind))) (sym at)
                  ∙ without_obj-join before j behind keys,
            )
      ]

missed : (val k : Str) → bytes_compare (obj_at val 1) k ≡ Ordering.gt → find_obj 3 val k 0 2 ≡ none
unfolding find_obj
missed val k h = rw h

-- The search never finds the first of two keys: an index of two keys, in order, keeps both when the
-- first is to be deleted.
pub deleted-misses_first :
    (k j : Str)
    → AreKeys (k ∷ j ∷ [])
    → bytes_compare k j ≡ Ordering.lt
    → deleted (join (k ∷ j ∷ [])) k ≡ none
unfolding deleted
deleted-misses_first k j a h =
    let two : num_objects (join (k ∷ j ∷ [])) ≡ 2 = num_objects-join (k ∷ j ∷ []) a in
    let second : obj_at (join (k ∷ j ∷ [])) 1 ≡ j = obj_at-join (k ∷ []) j [] a in
    rw (deleted, two) (rw (missed (join (k ∷ j ∷ [])) k (rw second (compare_turned k j h))))
