-- ===== src/Store/Index.antt =====
-- The indexes of internal/resource/store/store.go: under a key, the sorted keys of relationships one
-- after another, each `obj_key_size` bytes. An index whose length is no multiple of that makes the
-- code panic.
pub mod Split
pub mod Sorted
pub mod Removal
pub mod Common
mod Tests
use Prim.Native.Nat.{compare, Ordering}
use system_agent.Prelude.{
  ℕ, zero, suc, ◌+◌, ◌-◌, ◌*◌, ◌/◌, Bool, true, false, List, [], ◌∷◌, ◌++◌, Option, none, some,
  ◌==◌, ◌&&◌, ltb, if◌then◌else◌, length, take, drop,
}
use system_agent.Prelude.Text.{Str, str_eq}
use system_agent.Prelude.Result.{Result, ok, err, ◌>>=◌}
use system_agent.Store.Types.{Failure, panicked}
use system_agent.Store.Database.{Badger, or_missing}

abbrev pub obj_key_size : ℕ
obj_key_size = 32

-- bytes.Compare
unfoldable pub bytes_compare : Str → Str → Ordering
bytes_compare [] [] = Ordering.eq
bytes_compare [] (y ∷ ys) = Ordering.lt
bytes_compare (x ∷ xs) [] = Ordering.gt
bytes_compare (x ∷ xs) (y ∷ ys) =
    let rest = bytes_compare xs ys in
    elim (compare x y) [
      | Ordering.lt ↦ Ordering.lt
      | Ordering.eq ↦ rest
      | Ordering.gt ↦ Ordering.gt
    ]

-- The loop of `splitObjects`; `fuel` bounds the rounds, of which there is one for each key.
unfoldable pub chunks : ℕ → Str → Result Failure (List Str)
chunks zero b = ok []
chunks (suc fuel) b =
    let rest = chunks fuel (drop obj_key_size b) in
    if length b == 0
    then ok []
    else if ltb (length b) obj_key_size
    then err panicked
    else (do objs ← rest; ok (take obj_key_size b ∷ objs))

unfoldable pub split_objects : Str → Result Failure (List Str)
split_objects b = chunks (length b) b

unfoldable pub num_objects : Str → ℕ
num_objects b = length b / obj_key_size

-- slices.SortFunc with bytes.Compare, under which equal keys are the same bytes.
unfoldable pub insert_obj : Str → List Str → List Str
insert_obj k [] = k ∷ []
insert_obj k (j ∷ js) =
    let rest = insert_obj k js in
    elim (bytes_compare k j) [ Ordering.gt ↦ j ∷ rest | _ ↦ k ∷ j ∷ js ]

unfoldable pub sort_objs : List Str → List Str
sort_objs [] = []
sort_objs (k ∷ ks) = insert_obj k (sort_objs ks)

-- bytes.Join with the empty separator.
unfoldable pub join : List Str → Str
join [] = []
join (k ∷ ks) = k ++ join ks

-- What `addObjKeyToIndex` writes in the place of the value `val`.
unfoldable pub added : Str → Str → Result Failure Str
added val value = do objs ← split_objects (val ++ value); ok (join (sort_objs objs))

-- The key at the place `m`.
unfoldable pub obj_at : Str → ℕ → Str
obj_at val m = take obj_key_size (drop (m * obj_key_size) val)

unfoldable pub without_obj : Str → ℕ → Str
without_obj val m = take (m * obj_key_size) val ++ drop (suc m * obj_key_size) val

-- The loop of `deleteObjKeyFromIndex`: the place where the key was found. `h` is -1 where the source
-- has `m - 1` at `m = 0`, which ends the loop as 0 does. `fuel` bounds the rounds: `h - l` falls.
unfoldable pub find_obj : ℕ → Str → Str → ℕ → ℕ → Option ℕ
find_obj zero val value l h = none
find_obj (suc fuel) val value l h =
    let m = (l + h) / 2 in
    let right = find_obj fuel val value (suc m) h in
    let left = find_obj fuel val value l (m - 1) in
    if ltb l h
    then elim (bytes_compare (obj_at val m) value) [
      | Ordering.lt ↦ right
      | Ordering.gt ↦ left
      | Ordering.eq ↦ some m
    ]
    else none

-- What `deleteObjKeyFromIndex` writes in the place of `val`; `none` where it writes nothing.
unfoldable pub deleted : Str → Str → Option Str
deleted val value = elim (find_obj (suc (num_objects val)) val value 0 (num_objects val)) [
  | none ↦ none
  | some m ↦ some (without_obj val m)
]

-- The keys of a set: one of each.
unfoldable pub has_obj : Str → List Str → Bool
has_obj k [] = false
has_obj k (j ∷ js) = if str_eq j k then true else has_obj k js

unfoldable pub to_set : List Str → List Str
to_set [] = []
to_set (k ∷ ks) = let rest = to_set ks in if has_obj k ks then rest else k ∷ rest

unfoldable pub keep_all : List Str → List Str → List Str
keep_all [] s = []
keep_all (k ∷ ks) s = let rest = keep_all ks s in if has_obj k s then k ∷ rest else rest

-- The loop of `intersectIndexes` over the indexes behind the first.
unfoldable pub intersect_rest : List Str → List Str → Result Failure (List Str)
intersect_rest cmp [] = ok cmp
intersect_rest cmp (v ∷ vs) = do s ← split_objects v; intersect_rest (keep_all cmp (to_set s)) vs

-- The keys that every index holds; the order of a Go map is that of a list.
unfoldable pub intersect_indexes : List Str → Result Failure (List Str)
intersect_indexes [] = ok []
intersect_indexes (v ∷ vs) = do s ← split_objects v; intersect_rest (to_set s) vs

module _ {Db : Type 0} (badger : Badger Db) where
  unfoldable pub add_obj_key_to_index : Str → Str → Db → Result Failure Db
  add_obj_key_to_index key value db = do
    found ← or_missing (badger.get key db)
    val' ← elim found [ none ↦ ok value | some val ↦ added val value ]
    badger.set key val' db

  unfoldable pub delete_obj_key_from_index : Str → Str → Db → Result Failure Db
  delete_obj_key_from_index key value db = do
    found ← or_missing (badger.get key db)
    elim found [
      | none ↦ ok db
      | some val ↦ elim (deleted val value) [ none ↦ ok db | some val' ↦ badger.set key val' db ]
    ]

  -- The loop of `readObjKeysFromIndexes` that reads every index.
  unfoldable pub read_all : List Str → Db → Result Failure (List Str)
  read_all [] db = ok []
  read_all (k ∷ ks) db = do v ← badger.get k db; vs ← read_all ks db; ok (v ∷ vs)

  unfoldable pub read_obj_keys_from_indexes : List Str → Db → Result Failure (List Str)
  read_obj_keys_from_indexes [] db = ok []
  read_obj_keys_from_indexes (k ∷ []) db = do
    found ← or_missing (badger.get k db)
    elim found [ none ↦ ok [] | some val ↦ split_objects val ]
  read_obj_keys_from_indexes (k ∷ j ∷ ks) db = do
    vals ← read_all (k ∷ j ∷ ks) db
    intersect_indexes vals
