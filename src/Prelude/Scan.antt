-- ===== src/Prelude/Scan.antt =====
-- More of Go's strconv and bufio: unsigned numbers with the value beside the error, and lines.
pub mod Decimal
pub mod Lines
use Prim.Native.Nat.{ℕ, ◌+◌, ◌-◌, ◌*◌, ◌^◌, ◌<◌}
use mathlib.Core.Path.{◌≡◌, refl}
use mathlib.Core.Logic.{inl, inr}
use mathlib.Core.Bool.{Bool, true, false, ◌&&◌}
use mathlib.Core.List.{List, [], ◌∷◌, reverse}
use native.Mathlib.Omega.{arith}
use system_agent.Prelude.Tests.{leb, ◌==◌, if◌then◌else◌, Bool-cases}
use system_agent.Prelude.Text.{Str, split}

word_digits : Str → ℕ → ℕ × Bool
word_digits [] n = (n, true)
word_digits (c ∷ s) n =
    let next = n * 10 + (c - b'0') in
    let rest = word_digits s next in
    if leb b'0' c && leb c b'9'
    then (if leb (2 ^ 64) next then (2 ^ 64 - 1, false) else rest)
    else (0, false)

-- strconv.ParseUint(s, 10, 64): the value, and whether there is no error. On an error of the syntax
-- the value is 0, on one of the range the greatest.
unfoldable pub parse_word : Str → ℕ × Bool
unfolding word_digits
parse_word [] = (0, false)
parse_word (c ∷ s) = word_digits (c ∷ s) 0

word_digits_lt : (s : Str) (n : ℕ) → n < 2 ^ 64 → (word_digits s n).0 < 2 ^ 64
unfolding word_digits
word_digits_lt [] n h = h
word_digits_lt (c ∷ s) n h = elim (Bool-cases (leb b'0' c && leb c b'9')) [
  | inr e ↦ rw e (omega arith)
  | inl e ↦ rw e (
      in_range (leb (2 ^ 64) (n * 10 + (c - b'0'))) _ refl (word_digits_lt s (n * 10 + (c - b'0'))))
]
  where
    in_range :
        (b : Bool) (x : ℕ × Bool)
        → leb (2 ^ 64) (n * 10 + (c - b'0')) ≡ b
        → (n * 10 + (c - b'0') < 2 ^ 64 → x.0 < 2 ^ 64)
        → (if b then (2 ^ 64 - 1, false) else x).0 < 2 ^ 64
    in_range true x e p = omega arith
    in_range false x e p = p (ground (arith, e))

-- Whatever the text, the value is a 64-bit one.
pub parse_word_lt : (s : Str) → (parse_word s).0 < 2 ^ 64
unfolding parse_word
parse_word_lt [] = omega arith
parse_word_lt (c ∷ s) = word_digits_lt (c ∷ s) 0 (omega arith)

-- What a bufio.Scanner reads of an open file, and whether `Err` is an error behind the last line: the
-- file cannot be read further, or a line does not fit the buffer.
pub record Scanned : Type 0 where
  pub text : Str
  pub failed : Bool

-- A line without its carriage return.
abbrev drop_return : Str → Str
drop_return s = elim (reverse s) [ [] ↦ [] | c ∷ r ↦ if c == 13 then reverse r else s ]

-- What stands behind the last line feed is a line unless it is empty.
abbrev last_line : Str → List Str
last_line [] = []
last_line (c ∷ s) = drop_return (c ∷ s) ∷ []

abbrev lines_of : List Str → List Str
lines_of [] = []
lines_of (line ∷ rest) = elim rest [
  | [] ↦ last_line line
  | _ ∷ _ ↦ drop_return line ∷ lines_of rest
]

-- The lines that a bufio.Scanner gives, which are shorter than its buffer.
unfoldable pub scan_lines : Str → List Str
scan_lines s = lines_of (split s 10)
