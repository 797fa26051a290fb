-- ===== src/Prelude/Scan/Lines.antt =====
-- Texts of whole lines, and what a scanner gives of them.
use mathlib.Core.List.{reverse-reverse}
use mathlib.Core.Path.{◌≡◌, refl, sym, ap, ◌∙◌}
use mathlib.Core.Bool.{false}
use mathlib.Core.List.{List, [], ◌∷◌, ◌++◌, reverse}
use native.Mathlib.Omega.{arith}
use system_agent.Prelude.Tests.{◌==◌, if◌then◌else◌}
use system_agent.Prelude.Text.{Str, contains, contains-reverse, split}
use system_agent.Prelude.Text.Columns.{split-at}
use system_agent.Prelude.Scan.{drop_return, lines_of, scan_lines}

-- Each line ends with a line feed.
abbrev pub text_of : List Str → Str
text_of [] = []
text_of (l ∷ ls) = l ++ (10 ∷ text_of ls)

-- No line holds a line feed or a carriage return.
abbrev pub AreLines : List Str → Type 0
AreLines [] = Unit
AreLines (l ∷ ls) = (contains l 10 ≡ false) × (contains l 13 ≡ false) × AreLines ls

drop_return-plain : (s : Str) → contains s 13 ≡ false → drop_return s ≡ s
unfolding contains
drop_return-plain s h = kept (reverse s) refl (contains-reverse s 13 ∙ h)
  where
    kept :
        (r : Str)
        → reverse s ≡ r
        → contains r 13 ≡ false
        → (elim r [ [] ↦ [] | c ∷ t ↦ if c == 13 then reverse t else s ]) ≡ s
    kept [] e p = sym (ap reverse e) ∙ reverse-reverse s
    kept (c ∷ t) e p = let other : (c == 13) ≡ false = ground (arith, p) in rw other refl

split-text_of : (ls : List Str) → AreLines ls → split (text_of ls) 10 ≡ ls ++ ([] ∷ [])
unfolding split
split-text_of [] h = refl
split-text_of (l ∷ ls) (a, b, h) =
    split-at l (text_of ls) 10 a ∙ ap (λ ps. l ∷ ps) (split-text_of ls h)

lines_of-ended : (ls : List Str) → AreLines ls → lines_of (ls ++ ([] ∷ [])) ≡ ls
lines_of-ended [] h = refl
lines_of-ended (l ∷ []) (a, b, h) = ap (λ m. m ∷ []) (drop_return-plain l b)
lines_of-ended (l ∷ k ∷ ls) (a, b, h) =
    ap (λ m. m ∷ lines_of (k ∷ ls ++ ([] ∷ []))) (drop_return-plain l b)
    ∙ ap (λ ms. l ∷ ms) (lines_of-ended (k ∷ ls) h)

-- A scanner gives the lines of a text back.
pub scan_lines-text_of : (ls : List Str) → AreLines ls → scan_lines (text_of ls) ≡ ls
unfolding scan_lines
scan_lines-text_of ls h = ap lines_of (split-text_of ls h) ∙ lines_of-ended ls h
