-- ===== src/Containers/Names/Nested.antt =====
-- The ID of a container's directory is extracted from the names of its subdirectories too.
use system_agent.Prelude.{
  ℕ, true, false, List, [], ◌∷◌, ◌++◌, none, some, ◌≡◌, refl, ap, ◌∙◌, arith,
}
use system_agent.Prelude.Text.{Str, codes, str_eq, split, contains}
use system_agent.Prelude.Search.{has_suffix}
use system_agent.Containers.Names.{
  all_hex, valid_id, or_else, scope_id, directory_id, last_part, extract_container_id,
}
use system_agent.Containers.Names.Extract.{IsContainerId, valid_id-accepts}

contains-hex : (id : Str) → all_hex id ≡ true → contains id b'/' ≡ false
unfolding contains
contains-hex [] h = refl
contains-hex (c ∷ id) h = ground (arith, h, contains-hex id)

split-append : (s t : Str) (b : ℕ) → contains s b ≡ false → split (s ++ (b ∷ t)) b ≡ s ∷ split t b
unfolding split contains
split-append [] t b h = ground arith
split-append (c ∷ s) t b h = rw (split-append s t b (ground (arith, h))) (ground (arith, h))

scope_id-none : (name : Str) → has_suffix name (codes ".scope") ≡ false → scope_id name ≡ none
unfolding scope_id
scope_id-none name h = rw (h, scope_id) refl

directory_id-docker :
    (id : Str) (parts : List Str)
    → IsContainerId id
    → directory_id ([] ∷ codes "docker" ∷ id ∷ parts) ≡ some id
unfolding directory_id str_eq
directory_id-docker id parts v =
    ap (λ o. or_else o (directory_id (id ∷ parts))) (valid_id-accepts id v)

-- A directory below the directory of a container that Docker made, unless its name is that of a scope
-- unit: what is extracted is the ID of the container above.
pub extract_container_id-nested :
    (id sub : Str)
    → IsContainerId id
    → has_suffix (codes "/docker/" ++ (id ++ (b'/' ∷ sub))) (codes ".scope") ≡ false
    → extract_container_id (codes "/docker/" ++ (id ++ (b'/' ∷ sub))) ≡ some id
unfolding extract_container_id split
extract_container_id-nested id sub v h =
    let name = codes "/docker/" ++ (id ++ (b'/' ∷ sub)) in
    let rest = or_else (valid_id (last_part (split name b'/'))) (valid_id name) in
    let parts : split name b'/' ≡ [] ∷ codes "docker" ∷ id ∷ split sub b'/' =
      ap (λ ps. [] ∷ codes "docker" ∷ ps) (split-append id sub b'/' (contains-hex id v.hex)) in
    ap (λ o. or_else o (or_else (directory_id (split name b'/')) rest)) (scope_id-none name h)
    ∙ ap (λ o. or_else o rest) (ap directory_id parts ∙ directory_id-docker id (split sub b'/') v)
