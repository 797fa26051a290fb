-- ===== src/Prelude/Scan/Decimal.antt =====
-- Numbers in decimal, and what ParseUint makes of them.
use Prim.Native.Nat.{ℕ, ◌+◌, ◌-◌, ◌*◌, ◌^◌, ◌<◌, ◌≤◌}
use mathlib.Core.Path.{◌≡◌, refl, ap, ◌∙◌}
use mathlib.Core.Logic.{◌≢◌}
use mathlib.Core.Bool.{true, false, ◌&&◌}
use mathlib.Core.List.{[], ◌∷◌, ◌++◌, append_assoc, append-nil}
use native.Mathlib.Omega.{arith}
use system_agent.Prelude.Tests.{leb}
use system_agent.Prelude.Text.{Str, contains}
use system_agent.Prelude.Text.Columns.{AllVisible}
use system_agent.Prelude.Scan.{word_digits, parse_word}

-- The text writes the number: one digit, or the text of a tenth of the number and a digit behind it.
pub data IsDecimal : Str → ℕ → Type 0 where
  digit : (d : ℕ) → d < 10 → IsDecimal ((b'0' + d) ∷ []) d
  then_digit :
      (s : Str) (n d : ℕ) → IsDecimal s n → d < 10 → IsDecimal (s ++ ((b'0' + d) ∷ [])) (n * 10 + d)

word_digits-digit :
    (d n : ℕ) (t : Str)
    → d < 10
    → n * 10 + d < 2 ^ 64
    → word_digits ((b'0' + d) ∷ t) n ≡ word_digits t (n * 10 + d)
unfolding word_digits
word_digits-digit d n t h k =
    let value : b'0' + d - b'0' ≡ d = omega arith in
    let is_digit : (leb b'0' (b'0' + d) && leb (b'0' + d) b'9') ≡ true = ground (arith, h) in
    let fits : leb (2 ^ 64) (n * 10 + d) ≡ false = ground (arith, k) in
    rw (is_digit, value, fits) refl

word_digits-IsDecimal :
    (s : Str) (n : ℕ) (t : Str)
    → IsDecimal s n
    → n < 2 ^ 64
    → word_digits (s ++ t) 0 ≡ word_digits t n
word_digits-IsDecimal _ _ t (digit d h) k =
    let value : 0 * 10 + d ≡ d = omega arith in
    word_digits-digit d 0 t h (omega (arith, k)) ∙ ap (word_digits t) value
word_digits-IsDecimal _ _ t (then_digit s n d p h) k =
    rw append_assoc (
      word_digits-IsDecimal s n ((b'0' + d) ∷ t) p (omega (arith, k)) ∙ word_digits-digit d n t h k)

append-one-ne-nil : (s : Str) (c : ℕ) → s ++ (c ∷ []) ≢ []
append-one-ne-nil [] c h = cc
append-one-ne-nil (d ∷ s) c h = cc

pub IsDecimal-nonempty : (s : Str) (n : ℕ) → IsDecimal s n → s ≢ []
IsDecimal-nonempty _ _ (digit d h) e = cc
IsDecimal-nonempty _ _ (then_digit s n d p h) e = append-one-ne-nil s (b'0' + d) e

-- A number that 64 bits hold is read back from its decimal digits.
pub parse_word-IsDecimal : (s : Str) (n : ℕ) → IsDecimal s n → n < 2 ^ 64 → parse_word s ≡ (n, true)
unfolding parse_word word_digits
parse_word-IsDecimal [] n p h = absurd (IsDecimal-nonempty [] n p refl)
parse_word-IsDecimal (c ∷ s) n p h = rw append-nil at (word_digits-IsDecimal (c ∷ s) n [] p h)

-- Every byte is a digit.
abbrev AllDigits : Str → Type 0
AllDigits [] = Unit
AllDigits (c ∷ s) = (b'0' ≤ c) × (c ≤ b'9') × AllDigits s

AllDigits-append : (s : Str) (d : ℕ) → AllDigits s → d < 10 → AllDigits (s ++ ((b'0' + d) ∷ []))
AllDigits-append [] d p h = (omega arith, omega (arith, h), tt)
AllDigits-append (c ∷ s) d (a, b, p) h = (a, b, AllDigits-append s d p h)

IsDecimal-AllDigits : (s : Str) (n : ℕ) → IsDecimal s n → AllDigits s
IsDecimal-AllDigits _ _ (digit d h) = (omega arith, omega (arith, h), tt)
IsDecimal-AllDigits _ _ (then_digit s n d p h) = AllDigits-append s d (IsDecimal-AllDigits s n p) h

AllDigits-AllVisible : (s : Str) → AllDigits s → AllVisible s
AllDigits-AllVisible [] p = tt
AllDigits-AllVisible (c ∷ s) (a, b, p) = (ground (arith, a, b), AllDigits-AllVisible s p)

AllDigits-lacks : (s : Str) (b : ℕ) → b'9' < b → AllDigits s → contains s b ≡ false
unfolding contains
AllDigits-lacks [] b h p = refl
AllDigits-lacks (c ∷ s) b h (l, u, p) = ground (arith, h, u, AllDigits-lacks s b h p)

pub IsDecimal-AllVisible : (s : Str) (n : ℕ) → IsDecimal s n → AllVisible s
IsDecimal-AllVisible s n p = AllDigits-AllVisible s (IsDecimal-AllDigits s n p)

pub IsDecimal-lacks : (s : Str) (n b : ℕ) → b'9' < b → IsDecimal s n → contains s b ≡ false
IsDecimal-lacks s n b h p = AllDigits-lacks s b h (IsDecimal-AllDigits s n p)
