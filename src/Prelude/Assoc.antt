-- ===== src/Prelude/Assoc.antt =====
-- Go maps with string keys, as association lists. The laws are those of lookups.
use mathlib.Core.Path.{◌≡◌}
use mathlib.Core.List.{List, [], ◌∷◌}
use mathlib.Core.Option.{Option, none, some}
use native.Mathlib.Omega.{arith}
use system_agent.Prelude.Tests.{if◌then◌else◌}
use system_agent.Prelude.Text.{Str, str_eq, str_eq_iff}

abbrev pub Assoc {ℓ} : Type ℓ → Type ℓ
Assoc V = List (Str × V)

module _ {ℓ} {V : Type ℓ} where
  -- m[k], with its second result
  unfoldable pub lookup : Str → Assoc V → Option V
  lookup k [] = none
  lookup k ((j, v) ∷ m) = if str_eq j k then some v else lookup k m

  -- delete(m, k)
  unfoldable pub delete : Str → Assoc V → Assoc V
  delete k [] = []
  delete k ((j, v) ∷ m) = let rest = delete k m in if str_eq j k then rest else (j, v) ∷ rest

  -- m[k] = v
  unfoldable pub insert : Str → V → Assoc V → Assoc V
  insert k v m = (k, v) ∷ delete k m

  pub lookup-delete :
      (k j : Str) (m : Assoc V) → lookup j (delete k m) ≡ (if str_eq k j then none else lookup j m)
  unfolding lookup delete
  lookup-delete k j [] = ground arith
  lookup-delete k j ((i, v) ∷ m) =
      ground (arith, lookup-delete k j m, str_eq_iff i k, str_eq_iff i j, str_eq_iff k j)

  pub lookup-insert :
      (k j : Str) (v : V) (m : Assoc V)
      → lookup j (insert k v m) ≡ (if str_eq k j then some v else lookup j m)
  unfolding lookup insert
  lookup-insert k j v m = ground (arith, lookup-delete k j m)
