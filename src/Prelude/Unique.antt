-- ===== src/Prelude/Unique.antt =====
-- Go maps with string keys whose list has every key once, as insertion and deletion keep them.
use mathlib.Core.Path.{◌≡◌, refl, ap, ◌∙◌}
use mathlib.Core.Logic.{◌≢◌, inl, inr}
use mathlib.Core.Bool.{Bool, true, false}
use mathlib.Core.List.{[], ◌∷◌}
use mathlib.Core.Option.{Option, none, some}
use system_agent.Prelude.Tests.{if◌then◌else◌, Bool-cases}
use system_agent.Prelude.Text.{Str, str_eq, str_eq_refl}
use system_agent.Prelude.Assoc.{Assoc, lookup, delete, insert, lookup-delete}

module _ {ℓ} {V : Type ℓ} where
  -- Every key stands once.
  abbrev pub IsUnique : Assoc V → Type ℓ
  IsUnique [] = Unit
  IsUnique ((j, v) ∷ m) = (lookup j m ≡ none) × IsUnique m

  some-ne-none : (v : V) → some v ≢ none
  some-ne-none v e = cc

  pub delete-absent : (k : Str) (m : Assoc V) → lookup k m ≡ none → delete k m ≡ m
  unfolding lookup delete
  delete-absent k [] h = refl
  delete-absent k ((j, v) ∷ m) h = elim (Bool-cases (str_eq j k)) [
    | inl e ↦ absurd (some-ne-none v (rw e at h))
    | inr e ↦ rw (e, delete) (ap (λ r. (j, v) ∷ r) (delete-absent k m (rw e at h)))
  ]

  P-none : (b : Bool) (o : Option V) → o ≡ none → (if b then none else o) ≡ none
  P-none true o e = refl
  P-none false o e = e

  pub delete-IsUnique : (k : Str) (m : Assoc V) → IsUnique m → IsUnique (delete k m)
  unfolding delete
  delete-IsUnique k [] u = tt
  delete-IsUnique k ((j, v) ∷ m) (a, u) = elim (Bool-cases (str_eq j k)) [
    | inl e ↦ rw (e, delete) (delete-IsUnique k m u)
    | inr e ↦
        rw (e, delete)
          (lookup-delete k j m ∙ P-none (str_eq k j) (lookup j m) a, delete-IsUnique k m u)
  ]

  pub insert-IsUnique : (k : Str) (v : V) (m : Assoc V) → IsUnique m → IsUnique (insert k v m)
  unfolding insert
  insert-IsUnique k v m u = (rw (lookup-delete, str_eq_refl k) refl, delete-IsUnique k m u)
