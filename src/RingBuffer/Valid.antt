-- ===== src/RingBuffer/Valid.antt =====
-- The well-formed ring buffers, and what `GetAll` returns on them.
use native.Mathlib.Nat.{mod-eq_of_lt, mod_self}
use native.Mathlib.Decide.{dec_lt}
use system_agent.Prelude.{
  ℕ, zero, suc, ◌+◌, ◌≤◌, ◌<◌, ◌%◌, List, [], ◌++◌, length, take, drop, replicate, ◌≡◌, refl, arith,
  length-set, length-take, take-all, drop-all, take-append_length, drop-append_length, length-drop,
  length-replicate, length-append, append-nil, inl, inr, ◌⊎◌, min,
}
use system_agent.RingBuffer.{RingBuffer, copy, push, get_all}

-- The index behind `h`, going round at `n`.
pub wrap : (h n : ℕ) → h < n → (h + 1 < n) × ((h + 1) % n ≡ h + 1) ⊎ (h + 1 ≡ n) × ((h + 1) % n ≡ 0)
wrap h n p = elim (dec_lt (h + 1) n) [
  | yes q ↦ inl (q, mod-eq_of_lt q)
  | no q ↦ let e : h + 1 ≡ n = omega arith in inr (e, rw e (mod_self n))
]

module _ {A : Type 0} where
  pub record IsValid (r : RingBuffer A) : Type 0 where
    pub room : 0 < length r.items
    pub head_in : r.head < length r.items
    pub size_in : r.size ≤ length r.items
    pub filling : r.size < length r.items → r.head ≡ r.size

  pub copy-all : (dst src : List A) → length dst ≡ length src → copy dst src ≡ src
  copy-all dst src h =
      rw (
        take-all (length dst) src (omega arith),
        drop-all (length src) dst (omega arith),
        append-nil,
      )

  -- Two copies one behind the other fill the destination.
  pub copy_twice :
      (dst a b : List A)
      → length dst ≡ length a + length b
      → let n = min (length dst) (length a) in
        take n (copy dst a) ++ copy (drop n (copy dst a)) b ≡ a ++ b
  copy_twice dst a b h =
      let e : min (length dst) (length a) ≡ length a = omega arith in
      rw (
        e,
        take-all (length dst) a (omega arith),
        take-append_length (length a) a (drop (length a) dst) refl,
        drop-append_length (length a) a (drop (length a) dst) refl,
        copy-all (drop (length a) dst) b (omega (arith, length-drop (length a) dst)),
      )

  module _ (z : A) where
    -- What `get_all` returns, in two cases.
    pub get_all_filling :
        (r : RingBuffer A) → r.size < length r.items → get_all z r ≡ take r.size r.items
    unfolding get_all
    get_all_filling r h = ground (
      arith,
      copy-all (replicate r.size z) (take r.size r.items),
      length-replicate r.size z,
      length-take r.size r.items,
      take_none r.size r.items,
    )
      where
        take_none : (n : ℕ) (xs : List A) → n ≡ 0 → take n xs ≡ []
        take_none zero xs e = refl
        take_none (suc n) xs e = absurd (omega arith)

    pub get_all_full :
        (r : RingBuffer A)
        → IsValid r
        → r.size ≡ length r.items
        → get_all z r ≡ drop r.head r.items ++ take r.head r.items
    unfolding get_all
    get_all_full r v h = ground (
      arith,
      copy_twice (replicate r.size z) (drop r.head r.items) (take r.head r.items),
      length-replicate r.size z,
      length-take r.head r.items,
      length-drop r.head r.items,
    )

    pub length-get_all : (r : RingBuffer A) → IsValid r → length (get_all z r) ≡ r.size
    length-get_all r v = elim (dec_lt r.size (length r.items)) [
      | yes h ↦ rw (get_all_filling r h) (omega (arith, length-take r.size r.items))
      | no h ↦ rw (get_all_full r v (omega (arith, v.size_in))) (
          omega (
            arith,
            length-append (drop r.head r.items) (take r.head r.items),
            length-take r.head r.items,
            length-drop r.head r.items,
            v.size_in,
            v.head_in,
          ))
    ]

  -- `Push` keeps the buffer well formed.
  pub push-IsValid : (r : RingBuffer A) (x : A) → IsValid r → IsValid (push r x)
  unfolding push
  push-IsValid r x v = record {
    room = omega (arith, length-set r.items r.head x, v.room);
    head_in = ground (arith, wrap r.head (length r.items), length-set r.items r.head x);
    size_in = ground (arith, length-set r.items r.head x);
    filling = ground (arith, wrap r.head (length r.items), length-set r.items r.head x);
  }
