-- ===== src/Prelude/Hex.antt =====
-- strconv.ParseUint in base 16.
use Prim.Native.Nat.{ℕ, ◌+◌, ◌-◌, ◌*◌}
use mathlib.Core.Bool.{◌&&◌}
use mathlib.Core.List.{[], ◌∷◌}
use mathlib.Core.Option.{Option, none, some}
use system_agent.Prelude.Tests.{leb, if◌then◌else◌}
use system_agent.Prelude.Text.{Str}

unfoldable pub hex_value : ℕ → Option ℕ
hex_value c =
    if leb b'0' c && leb c b'9'
    then some (c - b'0')
    else if leb b'a' c && leb c b'f'
    then some (c - b'a' + 10)
    else if leb b'A' c && leb c b'F'
    then some (c - b'A' + 10)
    else none

hex_digits : Str → ℕ → Option ℕ
hex_digits [] n = some n
hex_digits (c ∷ s) n = elim (hex_value c) [ none ↦ none | some d ↦ hex_digits s (n * 16 + d) ]

-- `cutoff` is two to the width.
unfoldable pub parse_uint_hex : ℕ → Str → Option ℕ
unfolding hex_digits
parse_uint_hex cutoff [] = none
parse_uint_hex cutoff (c ∷ s) = elim (hex_digits (c ∷ s) 0) [
  | none ↦ none
  | some n ↦ if leb cutoff n then none else some n
]
