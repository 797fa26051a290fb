-- ===== src/RingBuffer/Window.antt =====
-- A ring buffer holds the window of the most recent elements, oldest first.
use mathlib.Core.List.{foldl, tail}
use mathlib.Core.Option.{some-injective}
use mathlib.Core.Path.{subst}
use native.Mathlib.Numerals.{add-one}
use native.Mathlib.Decide.{dec_lt}
use system_agent.Prelude.{
  ℕ, zero, suc, ◌+◌, ◌-◌, ◌<◌, ◌%◌, List, [], ◌∷◌, ◌++◌, some, length, set, take, drop, ltb, lt→ltb,
  false, if◌then◌else◌, ◌≡◌, refl, sym, ap, ◌∙◌, arith, length-set, take-all, drop-all, take-set,
  drop-set, tail-drop, drop-append_le, tail-drop_self, drop_zero, drop-nil, length-drop,
  length-replicate, length-append, append-nil, append_assoc, inl, inr, ◌⊎◌,
}
use system_agent.Prelude.Int.{ℤ, pos, negsuc, pos_part}
use system_agent.RingBuffer.{RingBuffer, new, push, get_all, clear, cap}
use system_agent.RingBuffer.Valid.{
  IsValid, wrap, get_all_filling, get_all_full, length-get_all, push-IsValid,
}

module _ {A : Type 0} where
  -- The window of at most `n` elements slides by one.
  abbrev pub slide : ℕ → List A → A → List A
  slide n q x = if ltb (length q) n then q ++ (x ∷ []) else tail q ++ (x ∷ [])

  last_step :
      (xs : List A) (i m : ℕ) (x : A)
      → i + 1 ≡ length xs
      → m ≡ 0
      → drop m (set xs i x) ++ take m (set xs i x) ≡ take i xs ++ (x ∷ [])
  last_step xs i m x h e =
      rw (e, append-nil)
        (sym (take-all (suc i) (set xs i x) (omega (arith, length-set xs i x)))
          ∙ take-set xs i x (omega arith))

  full_step :
      (xs : List A) (i m : ℕ) (x : A)
      → i < length xs
      → (i + 1 < length xs) × (m ≡ i + 1) ⊎ (i + 1 ≡ length xs) × (m ≡ 0)
      → drop m (set xs i x) ++ take m (set xs i x) ≡ tail (drop i xs ++ take i xs) ++ (x ∷ [])
  full_step xs i m x h (inl (p, e)) =
      rw (e, add-one, drop-set, take-set xs i x h, tail-drop i xs (take i xs) h, append_assoc)
  full_step xs i m x h (inr (p, e)) =
      rw (last_step xs i m x p e, tail-drop i xs (take i xs) h, drop-all (suc i) xs (omega arith))

  module _ (z : A) where
    push_filling :
        (r : RingBuffer A) (x : A)
        → IsValid r
        → r.size + 1 < length r.items
        → get_all z (push r x) ≡ take r.size r.items ++ (x ∷ [])
    unfolding push
    push_filling r x v h =
        rw (get_all_filling z (push r x) (ground (arith, length-set r.items r.head x)))
          (ground (arith, take-set r.items r.size x))

    push_last :
        (r : RingBuffer A) (x : A)
        → IsValid r
        → r.size + 1 ≡ length r.items
        → get_all z (push r x) ≡ take r.size r.items ++ (x ∷ [])
    unfolding push
    push_last r x v h =
        rw
          (get_all_full z (push r x) (push-IsValid r x v)
            (ground (arith, length-set r.items r.head x)))
          (let e : r.head ≡ r.size = v.filling (omega arith) in
            rw e (
              last_step r.items r.size ((r.size + 1) % length r.items) x h
                (ground (arith, wrap r.size (length r.items)))))

    push_full :
        (r : RingBuffer A) (x : A)
        → IsValid r
        → r.size ≡ length r.items
        → get_all z (push r x) ≡ tail (drop r.head r.items ++ take r.head r.items) ++ (x ∷ [])
    unfolding push
    push_full r x v h =
        rw
          (get_all_full z (push r x) (push-IsValid r x v)
            (ground (arith, length-set r.items r.head x)))
          (full_step r.items r.head ((r.head + 1) % length r.items) x v.head_in
            (wrap r.head (length r.items) v.head_in))

    -- `Push` adds its element at the end of what `GetAll` returns, and drops the oldest element
    -- if the buffer was full.
    pub get_all-push :
        (r : RingBuffer A) (x : A)
        → IsValid r
        → get_all z (push r x) ≡ slide (cap r) (get_all z r) x
    unfolding cap
    get_all-push r x v =
        let n : length (get_all z r) ≡ r.size = length-get_all z r v in
        rw n (elim (dec_lt r.size (length r.items)) [
          | yes h ↦
              rw (lt→ltb _ _ h, get_all_filling z r h)
                (elim (dec_lt (r.size + 1) (length r.items)) [
                  | yes k ↦ push_filling r x v k
                  | no k ↦ push_last r x v (omega arith)
                ])
          | no h ↦
              let e : r.size ≡ length r.items = omega (arith, v.size_in) in
              let f : ltb r.size (length r.items) ≡ false = ground arith in
              rw (f, get_all_full z r v e) (push_full r x v e)
        ])

  -- The elements pushed one after another, by `Push` and by the window.
  pub push_all : RingBuffer A → List A → RingBuffer A
  push_all = foldl push

  -- The last `n` elements of a list.
  abbrev pub last : ℕ → List A → List A
  last n xs = drop (length xs - n) xs

  pub cap-push : (r : RingBuffer A) (x : A) → cap (push r x) ≡ cap r
  unfolding cap push
  cap-push r x = length-set r.items r.head x

  slide-last :
      (n : ℕ) (xs : List A) (x : A) → 0 < n → slide n (last n xs) x ≡ last n (xs ++ (x ∷ []))
  slide-last n xs x h = elim (dec_lt (length xs) n) [
    | yes p ↦
        rw (drop_zero (length xs - n) xs (omega arith), lt→ltb _ _ p)
          (sym (drop_zero _ (xs ++ (x ∷ [])) (omega (arith, length-append xs (x ∷ [])))))
    | no p ↦
        let k : length (xs ++ (x ∷ [])) - n ≡ suc (length xs - n) =
          omega (arith, length-append xs (x ∷ [])) in
        let f : ltb (length (drop (length xs - n) xs)) n ≡ false =
          ground (arith, length-drop (length xs - n) xs) in
        rw (
          f,
          k,
          tail-drop_self (length xs - n) xs (omega arith),
          drop-append_le (suc (length xs - n)) xs (x ∷ []) (omega arith),
        )
  ]

  push_all-last :
      (z : A) (xs past : List A) (r : RingBuffer A)
      → IsValid r
      → get_all z r ≡ last (cap r) past
      → get_all z (push_all r xs) ≡ last (cap r) (past ++ xs)
  unfolding push_all
  push_all-last z [] past r v h = rw append-nil h
  push_all-last z (x ∷ xs) past r v h =
      let next : get_all z (push r x) ≡ last (cap (push r x)) (past ++ (x ∷ [])) =
        rw (get_all-push z r x v, h, cap-push) (slide-last (cap r) past x (unfold cap in v.room)) in
      rw (append_assoc past (x ∷ []) xs, cap-push) at
        (push_all-last z xs (past ++ (x ∷ [])) (push r x) (push-IsValid r x v) next)

  pub new-IsValid :
      (z : A) (n : ℤ) (r : RingBuffer A)
      → new z n ≡ some r
      → IsValid r × (get_all z r ≡ []) × (pos (cap r) ≡ n)
  unfolding new cap get_all
  new-IsValid z (negsuc n) r h = cc
  new-IsValid z (pos zero) r h = cc
  new-IsValid z (pos (suc n)) r h =
      subst (λ b. IsValid b × (get_all z b ≡ []) × (pos (cap b) ≡ pos (suc n)))
        (some-injective _ _ h)
        (
          record {
            room = omega (arith, length-replicate n z);
            head_in = omega (arith, length-replicate n z);
            size_in = omega (arith, length-replicate n z);
            filling = λ _. refl;
          },
          refl,
          ap (λ k. pos (suc k)) (length-replicate n z),
        )

  -- A buffer of a positive capacity, filled by any number of pushes, returns its last elements:
  -- as many as its capacity, or all of them, in the order of the pushes.
  pub get_all-push_all :
      (z : A) (n : ℕ) (xs : List A) (r : RingBuffer A)
      → new z (pos n) ≡ some r
      → get_all z (push_all r xs) ≡ last n xs
  get_all-push_all z n xs r h =
      let (v, e, c) = new-IsValid z (pos n) r h in
      let c' : cap r ≡ n = ap pos_part c in
      rw c' at (push_all-last z xs [] r v (rw (drop-nil (0 - cap r)) e))

  -- `Clear` empties the buffer and keeps its capacity, and the buffer stays well formed.
  pub clear-IsValid :
      (z : A) (r : RingBuffer A)
      → IsValid r
      → IsValid (clear z r) × (get_all z (clear z r) ≡ []) × (cap (clear z r) ≡ cap r)
  unfolding clear cap get_all
  clear-IsValid z r v = (
    record {
      room = omega (arith, length-replicate (length r.items) z, v.room);
      head_in = omega (arith, length-replicate (length r.items) z, v.room);
      size_in = omega arith;
      filling = λ _. refl;
    },
    refl,
    length-replicate (length r.items) z,
  )
