-- ===== src/Prelude/Slices.antt =====
-- Laws of the slices `xs[:n]` and `xs[n:]`, with writes and appends.
use Prim.Native.Nat.{ℕ, zero, suc, ◌≤◌, ◌<◌}
use mathlib.Core.Path.{◌≡◌, refl, ap}
use mathlib.Core.List.{List, [], ◌∷◌, ◌++◌, tail, append-nil}
use native.Mathlib.Omega.{arith}
use system_agent.Prelude.Lists.{length, set, take, drop}

module _ {ℓ} {A : Type ℓ} where
  pub take-all : (n : ℕ) (xs : List A) → length xs ≤ n → take n xs ≡ xs
  take-all zero [] h = refl
  take-all (suc n) [] h = refl
  take-all zero (x ∷ xs) h = absurd (omega arith)
  take-all (suc n) (x ∷ xs) h = ap (λ l. x ∷ l) (take-all n xs (omega arith))

  pub drop-all : (n : ℕ) (xs : List A) → length xs ≤ n → drop n xs ≡ []
  drop-all zero [] h = refl
  drop-all (suc n) [] h = refl
  drop-all zero (x ∷ xs) h = absurd (omega arith)
  drop-all (suc n) (x ∷ xs) h = drop-all n xs (omega arith)

  pub take-append_length : (n : ℕ) (xs ys : List A) → length xs ≡ n → take n (xs ++ ys) ≡ xs
  take-append_length zero [] ys h = refl
  take-append_length (suc n) [] ys h = absurd (omega arith)
  take-append_length zero (x ∷ xs) ys h = absurd (omega arith)
  take-append_length (suc n) (x ∷ xs) ys h =
      ap (λ l. x ∷ l) (take-append_length n xs ys (omega arith))

  pub drop-append_length : (n : ℕ) (xs ys : List A) → length xs ≡ n → drop n (xs ++ ys) ≡ ys
  drop-append_length zero [] ys h = refl
  drop-append_length (suc n) [] ys h = absurd (omega arith)
  drop-append_length zero (x ∷ xs) ys h = absurd (omega arith)
  drop-append_length (suc n) (x ∷ xs) ys h = drop-append_length n xs ys (omega arith)

  -- Reading the slots up to one just written.
  pub take-set :
      (xs : List A) (i : ℕ) (v : A)
      → i < length xs
      → take (suc i) (set xs i v) ≡ take i xs ++ (v ∷ [])
  take-set [] i v h = elim h [ ]
  take-set (x ∷ xs) zero v h = refl
  take-set (x ∷ xs) (suc i) v h = ap (λ l. x ∷ l) (take-set xs i v (omega arith))

  pub drop-set : (xs : List A) (i : ℕ) (v : A) → drop (suc i) (set xs i v) ≡ drop (suc i) xs
  drop-set [] i v = refl
  drop-set (x ∷ xs) zero v = refl
  drop-set (x ∷ xs) (suc i) v = drop-set xs i v

  pub tail-drop :
      (i : ℕ) (xs ys : List A) → i < length xs → tail (drop i xs ++ ys) ≡ drop (suc i) xs ++ ys
  tail-drop i [] ys h = elim h [ ]
  tail-drop zero (x ∷ xs) ys h = refl
  tail-drop (suc i) (x ∷ xs) ys h = tail-drop i xs ys (omega arith)

  pub drop-append_le :
      (k : ℕ) (xs ys : List A) → k ≤ length xs → drop k (xs ++ ys) ≡ drop k xs ++ ys
  drop-append_le zero xs ys h = refl
  drop-append_le (suc k) [] ys h = absurd (omega arith)
  drop-append_le (suc k) (x ∷ xs) ys h = drop-append_le k xs ys (omega arith)

  pub tail-drop_self : (k : ℕ) (xs : List A) → k < length xs → tail (drop k xs) ≡ drop (suc k) xs
  tail-drop_self k xs h = simp append-nil at (tail-drop k xs [] h)

  pub drop_zero : (k : ℕ) (xs : List A) → k ≡ 0 → drop k xs ≡ xs
  drop_zero zero xs e = refl
  drop_zero (suc k) xs e = absurd (omega arith)

  pub drop-nil : (n : ℕ) → drop {A = A} n [] ≡ []
  drop-nil zero = refl
  drop-nil (suc n) = refl
