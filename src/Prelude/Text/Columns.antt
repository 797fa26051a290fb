-- ===== src/Prelude/Text/Columns.antt =====
-- Lines of columns: what the functions of the package strings give on texts of words between spaces.
use mathlib.Core.List.{reverse-reverse}
use Prim.Native.Nat.{ℕ, zero, suc}
use mathlib.Core.Path.{◌≡◌, refl, ap, ◌∙◌}
use mathlib.Core.Logic.{◌≢◌}
use mathlib.Core.Bool.{true, false}
use mathlib.Core.List.{List, [], ◌∷◌, ◌++◌, reverse, reverse-cons}
use native.Mathlib.Omega.{arith}
use system_agent.Prelude.Tests.{◌==◌}
use system_agent.Prelude.Text.{
  Str, is_space, drop_space, trim_space, contains, onto_first, split, fields,
}

pub split-at : (s t : Str) (b : ℕ) → contains s b ≡ false → split (s ++ (b ∷ t)) b ≡ s ∷ split t b
unfolding split contains
split-at [] t b h = ground arith
split-at (c ∷ s) t b h =
    let other : (c == b) ≡ false = ground (arith, h) in
    rw (other, split-at s t b (ground (arith, h))) refl

pub split-lacking : (s : Str) (b : ℕ) → contains s b ≡ false → split s b ≡ s ∷ []
unfolding split contains
split-lacking [] b h = refl
split-lacking (c ∷ s) b h =
    let other : (c == b) ≡ false = ground (arith, h) in
    rw (other, split-lacking s b (ground (arith, h))) refl

abbrev pub spaces : ℕ → Str
spaces zero = []
spaces (suc n) = 32 ∷ spaces n

-- No byte is white space.
abbrev pub AllVisible : Str → Type 0
AllVisible [] = Unit
AllVisible (c ∷ s) = (is_space c ≡ false) × AllVisible s

AllVisible-append : (s t : Str) → AllVisible s → AllVisible t → AllVisible (s ++ t)
AllVisible-append [] t p q = q
AllVisible-append (c ∷ s) t (h, p) q = (h, AllVisible-append s t p q)

AllVisible-reverse : (s : Str) → AllVisible s → AllVisible (reverse s)
AllVisible-reverse [] p = tt
AllVisible-reverse (c ∷ s) (h, p) =
    rw reverse-cons (AllVisible-append (reverse s) (c ∷ []) (AllVisible-reverse s p) (h, tt))

drop_space-visible : (s : Str) → AllVisible s → drop_space s ≡ s
unfolding drop_space
drop_space-visible [] p = refl
drop_space-visible (c ∷ s) (h, p) = rw h refl

drop_space-spaces : (n : ℕ) (s : Str) → drop_space (spaces n ++ s) ≡ drop_space s
unfolding drop_space
drop_space-spaces zero s = refl
drop_space-spaces (suc n) s = drop_space-spaces n s

-- Trimming takes the padding of a word away.
pub trim_space-padded : (n : ℕ) (s : Str) → AllVisible s → trim_space (spaces n ++ s) ≡ s
unfolding trim_space
trim_space-padded n s p =
    rw
      (
        drop_space-spaces n s,
        drop_space-visible s p,
        drop_space-visible (reverse s) (AllVisible-reverse s p),
      )
      (reverse-reverse s)

fields-spaces : (n : ℕ) (s : Str) → fields (spaces n ++ s) ≡ fields s
unfolding fields
fields-spaces zero s = refl
fields-spaces (suc n) s = fields-spaces n s

-- The text is empty, or begins with white space.
abbrev Breaks : Str → Type 0
Breaks [] = Unit
Breaks (c ∷ s) = is_space c ≡ true

fields-visible :
    (c d : ℕ) (s : Str)
    → is_space c ≡ false
    → is_space d ≡ false
    → fields (c ∷ d ∷ s) ≡ onto_first c (fields (d ∷ s))
unfolding fields
fields-visible c d s h k = rw (h, k) refl

fields-word :
    (c : ℕ) (w s : Str) → AllVisible (c ∷ w) → Breaks s → fields ((c ∷ w) ++ s) ≡ (c ∷ w) ∷ fields s
unfolding fields
fields-word c [] [] (h, p) q = rw h refl
fields-word c [] (d ∷ s) (h, p) q = rw (h, q) refl
fields-word c (d ∷ w) s (h, (k, p)) q =
    fields-visible c d (w ++ s) h k ∙ ap (onto_first c) (fields-word d w s (k, p) q)

-- Words, each behind one space and some more.
abbrev pub row : List (ℕ × Str) → Str
row [] = []
row ((n, w) ∷ cs) = spaces (suc n) ++ (w ++ row cs)

abbrev pub words : List (ℕ × Str) → List Str
words [] = []
words ((n, w) ∷ cs) = w ∷ words cs

-- No word is empty or holds white space.
abbrev pub AreWords : List (ℕ × Str) → Type 0
AreWords [] = Unit
AreWords ((n, w) ∷ cs) = (w ≢ []) × AllVisible w × AreWords cs

Breaks-row : (cs : List (ℕ × Str)) → Breaks (row cs)
Breaks-row [] = tt
Breaks-row ((n, w) ∷ cs) = refl

-- The fields of a row are its words.
pub fields-row : (cs : List (ℕ × Str)) → AreWords cs → fields (row cs) ≡ words cs
unfolding fields
fields-row [] h = refl
fields-row ((n, []) ∷ cs) (h, v, a) = absurd (h refl)
fields-row ((n, c ∷ w) ∷ cs) (h, v, a) =
    fields-spaces (suc n) ((c ∷ w) ++ row cs)
    ∙ fields-word c w (row cs) v (Breaks-row cs)
    ∙ ap (λ ws. (c ∷ w) ∷ ws) (fields-row cs a)

pub contains-spaces : (n b : ℕ) → b ≢ 32 → contains (spaces n) b ≡ false
unfolding contains
contains-spaces zero b h = refl
contains-spaces (suc n) b h = ground (arith, contains-spaces n b h, h)

pub AllVisible-lacks : (s : Str) (b : ℕ) → is_space b ≡ true → AllVisible s → contains s b ≡ false
unfolding contains
AllVisible-lacks [] b h p = refl
AllVisible-lacks (c ∷ s) b h (k, p) = ground (arith, h, k, AllVisible-lacks s b h p)
