-- ===== src/Store/Deletion.antt =====
-- `DeleteResource` of internal/resource/store/store.go: the resource, its relationships, and their
-- entries in the indexes.
pub mod Gone
use system_agent.Prelude.{List, [], ◌∷◌, ◌++◌, Option, none, some, if◌then◌else◌}
use system_agent.Prelude.Int.{ℤ}
use system_agent.Prelude.Text.{Str}
use system_agent.Prelude.Result.{Result, ok, err, ◌>>=◌}
use system_agent.Store.Types.{ResourceRef, Resource, delete, Failure, closed, marshal}
use system_agent.Store.Subscriber.{route}
use system_agent.Store.Key.{
  encode_resource_key, build_key, resource_key, relationship_key, index, subject_idx, object_idx,
  predicate_idx,
}
use system_agent.Store.Database.{Badger, update}
use system_agent.Store.Index.{delete_obj_key_from_index, read_obj_keys_from_indexes}
use system_agent.Store.Resources.{Codec, Store, event_of}

module _ {Db : Type 0} (badger : Badger Db) (codec : Codec) where
  -- The loop of `deleteIndexedObjects`.
  unfoldable pub delete_objects : List Str → Db → Result Failure Db
  delete_objects [] db = ok db
  delete_objects (k ∷ ks) db = do
    db' ← badger.delete (build_key (relationship_key ∷ k ∷ [])) db
    delete_objects ks db'

  unfoldable pub delete_indexed_objects : Str → Db → Result Failure (List Str × Db)
  delete_indexed_objects idx db = do
    objs ← read_obj_keys_from_indexes badger (idx ∷ []) db
    db' ← delete_objects objs db
    ok (objs, db')

  -- The two loops of `DeleteResource`: over the predicate indexes, and over the deleted keys.
  unfoldable pub delete_from_index : Str → List Str → Db → Result Failure Db
  delete_from_index idx [] db = ok db
  delete_from_index idx (k ∷ ks) db = do
    db' ← delete_obj_key_from_index badger idx k db
    delete_from_index idx ks db'

  unfoldable pub delete_from_indexes : List (Str × Str) → List Str → Db → Result Failure Db
  delete_from_indexes [] objs db = ok db
  delete_from_indexes ((idx, _) ∷ items) objs db = do
    db' ← delete_from_index idx objs db
    delete_from_indexes items objs db'

  -- The transaction of `DeleteResource`, with the keys of the deleted relationships. Deleting a key that is not there is no error of badger.
  unfoldable pub delete_all : Str → Db → Result Failure (List Str × Db)
  delete_all k db = do
    let subject_key = build_key (index ∷ subject_idx ∷ k ∷ [])
    let object_key = build_key (index ∷ object_idx ∷ k ∷ [])
    (subject_objs, db₁) ← delete_indexed_objects subject_key db
    (object_objs, db₂) ← delete_indexed_objects object_key db₁
    db₃ ← badger.delete subject_key db₂
    db₄ ← badger.delete object_key db₃
    db₅ ←
        delete_from_indexes (badger.items (build_key (index ∷ predicate_idx ∷ [])) db₄)
          (subject_objs ++ object_objs) db₄
    db₆ ← badger.delete (build_key (resource_key ∷ k ∷ [])) db₅
    ok (subject_objs ++ object_objs, db₆)

  -- The resource of the event that `DeleteResource` sends.
  abbrev pub tombstone : ℤ → ResourceRef → Resource
  tombstone now r = record {
    type = some (record { kind = codec.resource_name; type = r.type_url });
    metadata = some (record {
      name = r.name;
      namespace = r.namespace;
      created_at = none;
      updated_at = none;
      deleted_at = some now;
      fields = [];
    });
    spec = none;
  }

  -- The error, and the store: the deletion is committed before the event is built.
  unfoldable pub delete_resource : ℤ → Option ResourceRef → Store Db → Option Failure × Store Db
  delete_resource now r s =
      if s.closed
      then (some closed, s)
      else (let done : Result Failure Db = do
        k ← encode_resource_key r
        (_, db) ← update badger (delete_all k) s.store
        ok db
        in elim done [
          | err e ↦ (some e, s)
          | ok db ↦ elim r [
            | none ↦ (none, s)
            | some q ↦ elim (codec.new_resource (tombstone now q)) [
              | none ↦ (some marshal, record s { store = db })
              | some any ↦ (
                none,
                record s {
                  store = db;
                  subscribers = route (event_of delete (tombstone now q).type any) s.subscribers;
                },
              )
            ]
          ]
        ])
