-- ===== src/Prelude/Search.antt =====
-- More of Go's strings and path/filepath, on texts of bytes.
use mathlib.Core.Bool.{Bool, ◌&&◌, ◌||◌, not}
use mathlib.Core.List.{[], ◌∷◌, map, reverse}
use Prim.Native.Nat.{ℕ, ◌+◌, ◌-◌}
use system_agent.Prelude.Tests.{leb, ◌==◌, if◌then◌else◌}
use system_agent.Prelude.Lists.{length, take}
use system_agent.Prelude.Text.{Str, has_prefix, contains}

-- strings.ToLower, where every letter of the text is one byte.
abbrev pub lower : ℕ → ℕ
lower c = if leb b'A' c && leb c b'Z' then c + 32 else c

abbrev pub to_lower : Str → Str
to_lower s = map lower s

-- strings.HasSuffix
unfoldable pub has_suffix : Str → Str → Bool
has_suffix s suffix = has_prefix (reverse s) (reverse suffix)

-- strings.TrimSuffix
unfoldable pub trim_suffix : Str → Str → Str
unfolding has_suffix
trim_suffix s suffix = if has_suffix s suffix then take (length s - length suffix) s else s

-- strings.Contains
unfoldable pub contains_str : Str → Str → Bool
contains_str [] part = has_prefix [] part
contains_str (c ∷ s) part = has_prefix (c ∷ s) part || contains_str s part

-- filepath.Ext: from the last dot of the last element of the path, "" where it has none.
unfoldable pub ext : Str → Str
ext [] = []
ext (c ∷ s) =
    let rest = ext s in
    if not (length rest == 0)
    then rest
    else if c == b'.' && not (contains s b'/')
    then c ∷ s
    else []
