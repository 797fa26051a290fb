-- ===== src/Store/Index/Common.antt =====
-- The keys that several indexes have in common.
use system_agent.Prelude.{◌≡◌, refl, ◌∙◌, Bool, true, ◌&&◌, List, [], ◌∷◌, map, arith}
use system_agent.Prelude.Text.{Str, str_eq_iff}
use system_agent.Prelude.Result.{ok}
use system_agent.Store.Index.{join, has_obj, to_set, keep_all, intersect_rest, intersect_indexes}
use system_agent.Store.Index.Split.{AreKeys, split_objects-join}

has_obj-to_set : (k : Str) (ks : List Str) → has_obj k (to_set ks) ≡ has_obj k ks
unfolding has_obj to_set
has_obj-to_set k [] = refl
has_obj-to_set k (j ∷ js) = ground (arith, has_obj-to_set k js, str_eq_iff j k)

has_obj-keep_all :
    (k : Str) (ks s : List Str) → has_obj k (keep_all ks s) ≡ (has_obj k ks && has_obj k s)
unfolding has_obj keep_all
has_obj-keep_all k [] s = refl
has_obj-keep_all k (j ∷ js) s = ground (arith, has_obj-keep_all k js s, str_eq_iff j k)

abbrev pub AllKeys : List (List Str) → Type 0
AllKeys [] = Unit
AllKeys (ks ∷ kss) = AreKeys ks × AllKeys kss

-- Every list has the key.
abbrev pub in_all : Str → List (List Str) → Bool
in_all k [] = true
in_all k (ks ∷ kss) = has_obj k ks && in_all k kss

intersect_rest_lem :
    (cmp : List Str) (kss : List (List Str))
    → AllKeys kss
    → (r : List Str) × (intersect_rest cmp (map join kss) ≡ ok r)
      × ((k : Str) → has_obj k r ≡ (has_obj k cmp && in_all k kss))
unfolding intersect_rest
intersect_rest_lem cmp [] a = (cmp, refl, λ k. ground arith)
intersect_rest_lem cmp (ks ∷ kss) (a, b) =
    let (r, e, h) = intersect_rest_lem (keep_all cmp (to_set ks)) kss b in
    (
      r,
      rw (split_objects-join ks a) e,
      λ k. h k ∙ ground (arith, has_obj-keep_all k cmp (to_set ks), has_obj-to_set k ks),
    )

-- The intersection of indexes of keys of the right size does not panic, and has exactly the keys
-- that every index has.
pub intersect_indexes_lem :
    (ks : List Str) (kss : List (List Str))
    → AllKeys (ks ∷ kss)
    → (r : List Str) × (intersect_indexes (map join (ks ∷ kss)) ≡ ok r)
      × ((k : Str) → has_obj k r ≡ in_all k (ks ∷ kss))
unfolding intersect_indexes
intersect_indexes_lem ks kss (a, b) =
    let (r, e, h) = intersect_rest_lem (to_set ks) kss b in
    (r, rw (split_objects-join ks a) e, λ k. h k ∙ ground (arith, has_obj-to_set k ks))
