-- ===== src/Store/Relationships.antt =====
-- The operations of internal/resource/store/store.go on relationships.
use system_agent.Prelude.{
  Bool, true, false, List, [], ◌∷◌, ◌++◌, Option, none, some, ◌==◌, ◌&&◌, if◌then◌else◌, length,
}
use system_agent.Prelude.Text.{Str, codes, str_eq, trim_prefix}
use system_agent.Prelude.Result.{Result, ok, err, ◌>>=◌}
use system_agent.Store.Types.{
  Namespace, unset, cloud, kube, ResourceRef, Relationship, Any, Object, add, Failure, closed,
  marshal, unmarshal, relationships_not_found, nil_predicate, equal_ends, panicked,
}
use system_agent.Store.Subscriber.{Subscriber, route}
use system_agent.Store.Key.{
  encode_resource_key, build_key, relationship_key, index, subject_idx, object_idx, predicate_idx,
}
use system_agent.Store.Database.{Badger, update}
use system_agent.Store.Index.{add_obj_key_to_index, read_obj_keys_from_indexes}
use system_agent.Store.Resources.{Codec, Store, failing, event_of}

-- reflect.DeepEqual on the ends of a relationship, as far as their messages go: the caches inside
-- generated messages are not compared.
abbrev same_namespace : Namespace → Namespace → Bool
same_namespace unset unset = true
same_namespace (cloud a r g) (cloud b s h) = str_eq a b && str_eq r s && str_eq g h
same_namespace (kube c n) (kube d m) = str_eq c d && str_eq n m
same_namespace _ _ = false

abbrev same_optional_namespace : Option Namespace → Option Namespace → Bool
same_optional_namespace none none = true
same_optional_namespace (some n) (some m) = same_namespace n m
same_optional_namespace _ _ = false

unfoldable pub deep_equal : Option ResourceRef → Option ResourceRef → Bool
deep_equal none none = true
deep_equal (some r) (some q) =
    str_eq r.type_url q.type_url
    && str_eq r.name q.name
    && same_optional_namespace r.namespace q.namespace
deep_equal _ _ = false

-- The first loop of `AddRelationships`: its error, if any.
unfoldable pub check_relationships : List Relationship → Option Failure
check_relationships [] = none
check_relationships (rel ∷ rels) =
    let rest = check_relationships rels in
    elim rel.predicate [
      | none ↦ some nil_predicate
      | some _ ↦ if deep_equal rel.subject rel.object then some equal_ends else rest
    ]

-- The index keys of an end, and of the type of a predicate.
abbrev pub end_key : Str → Option ResourceRef → Result Failure Str
end_key idx r = do k ← encode_resource_key r; ok (build_key (index ∷ idx ∷ k ∷ []))

abbrev pub predicate_key : Str → Str
predicate_key name = build_key (index ∷ predicate_idx ∷ name ∷ [])

abbrev pub predicate_name : Option Any → Str
predicate_name none = trim_prefix [] (codes "type.googleapis.com/")
predicate_name (some p) = trim_prefix p.type_url (codes "type.googleapis.com/")

module _ {Db : Type 0} (badger : Badger Db) (codec : Codec) where
  -- One round of the transaction of `AddRelationships`.
  unfoldable pub write_relationship : Relationship → Db → Result Failure (Object × Db)
  write_relationship rel db = do
    any ← failing marshal (codec.new_relationship rel)
    let h = codec.sum256 any.value
    db₁ ← badger.set (build_key (relationship_key ∷ h ∷ [])) any.value db
    db₂ ← add_obj_key_to_index badger (predicate_key (predicate_name rel.predicate)) h db₁
    object_key ← end_key object_idx rel.object
    db₃ ← add_obj_key_to_index badger object_key h db₂
    subject_key ← end_key subject_idx rel.subject
    db₄ ← add_obj_key_to_index badger subject_key h db₃
    ok (record { type = rel.type; object = any }, db₄)

  unfoldable pub write_relationships : List Relationship → Db → Result Failure (List Object × Db)
  write_relationships [] db = ok ([], db)
  write_relationships (rel ∷ rels) db = do
    (obj, db') ← write_relationship rel db
    (objs, db'') ← write_relationships rels db'
    ok (obj ∷ objs, db'')

  -- One event for each object.
  unfoldable pub route_each : List Object → List Subscriber → List Subscriber
  route_each [] subs = subs
  route_each (obj ∷ objs) subs = route_each objs (route (event_of add obj.type obj.object) subs)

  unfoldable pub add_relationships : List Relationship → Store Db → Result Failure (Store Db)
  add_relationships rels s = elim (check_relationships rels) [
    | some e ↦ err e
    | none ↦ if s.closed then err closed else (do
      (objs, db) ← update badger (write_relationships rels) s.store
      ok (record s { store = db; subscribers = route_each objs s.subscribers }))
  ]

  -- The indexes that `GetRelationships` uses.
  abbrev pub optional_key : Str → Option ResourceRef → Result Failure (List Str)
  optional_key idx none = ok []
  optional_key idx (some r) = do k ← end_key idx (some r); ok (k ∷ [])

  abbrev pub optional_predicate : Option Str → List Str
  optional_predicate none = []
  optional_predicate (some name) = predicate_key name ∷ []

  unfoldable pub indexes_for :
      Option ResourceRef → Option ResourceRef → Option Str → Result Failure (List Str)
  indexes_for subject object predicate = do
    s ← optional_key subject_idx subject
    o ← optional_key object_idx object
    let keys = s ++ o ++ optional_predicate predicate
    if length keys == 0 then err relationships_not_found else ok keys

  -- The relationships of the keys, up to the first that fails, and its failure.
  unfoldable pub load_relationships : List Str → Db → List Relationship × Option Failure
  load_relationships [] db = ([], none)
  load_relationships (k ∷ ks) db =
      let (rels, e) = load_relationships ks db in
      let rel : Result Failure Relationship = do
        val ← badger.get (build_key (relationship_key ∷ k ∷ [])) db
        failing unmarshal (codec.unmarshal_relationship val)
      in elim rel [ err x ↦ ([], some x) | ok r ↦ (r ∷ rels, e) ]

  -- `predicate` is the name of the message of a predicate. The relationships come with an error where
  -- one of them cannot be read behind others that can.
  unfoldable pub get_relationships :
      Option ResourceRef
      → Option ResourceRef
      → Option Str
      → Store Db
      → Result Failure (List Relationship × Option Failure)
  get_relationships subject object predicate s =
      if s.closed
      then err closed
      else (let found : Result Failure (List Str) = do
        keys ← indexes_for subject object predicate
        read_obj_keys_from_indexes badger keys s.store
        in elim found [
          | err e ↦ elim e [ panicked ↦ err panicked | _ ↦ err relationships_not_found ]
          | ok objs ↦
              let (rels, e) = load_relationships objs s.store in
              if length rels == 0 then err relationships_not_found else ok (rels, e)
        ])
