-- ===== src/Store/Index/Split.antt =====
-- Indexes as lists of keys: what is joined is split again.
use system_agent.Prelude.{
  ℕ, zero, suc, ◌≤◌, ◌≡◌, refl, false, List, [], ◌∷◌, ◌++◌, append_assoc, arith, length,
  length-append, take-append_length, drop-append_length, ltb, ◌==◌,
}
use system_agent.Prelude.Text.{Str}
use system_agent.Prelude.Result.{ok}
use system_agent.Store.Index.{chunks, split_objects, join, obj_key_size}

-- Keys of the size of a hash.
abbrev pub AreKeys : List Str → Type 0
AreKeys [] = Unit
AreKeys (k ∷ ks) = (length k ≡ obj_key_size) × AreKeys ks

pub chunks-join :
    (fuel : ℕ) (ks : List Str)
    → AreKeys ks
    → length (join ks) ≤ fuel
    → chunks fuel (join ks) ≡ ok ks
unfolding chunks join
chunks-join zero [] a h = refl
chunks-join (suc fuel) [] a h = refl
chunks-join zero (k ∷ ks) (e, a) h = absurd (omega (arith, length-append k (join ks)))
chunks-join (suc fuel) (k ∷ ks) (e, a) h =
    let size = length-append k (join ks) in
    let nonempty : (length (k ++ join ks) == 0) ≡ false = ground arith in
    let enough : ltb (length (k ++ join ks)) obj_key_size ≡ false = ground arith in
    rw (
      nonempty,
      enough,
      drop-append_length obj_key_size k (join ks) e,
      take-append_length obj_key_size k (join ks) e,
      chunks-join fuel ks a (omega (arith, size)),
    )

-- Keys that are joined are split into the same keys.
pub split_objects-join : (ks : List Str) → AreKeys ks → split_objects (join ks) ≡ ok ks
unfolding split_objects
split_objects-join ks a = chunks-join (length (join ks)) ks a (omega arith)

pub join-append : (ks js : List Str) → join (ks ++ js) ≡ join ks ++ join js
unfolding join
join-append [] js = refl
join-append (k ∷ ks) js = rw (join-append ks js, append_assoc k (join ks) (join js))

pub AreKeys-append : (ks js : List Str) → AreKeys ks → AreKeys js → AreKeys (ks ++ js)
AreKeys-append [] js a b = b
AreKeys-append (k ∷ ks) js (e, a) b = (e, AreKeys-append ks js a b)
