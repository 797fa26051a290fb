-- ===== src/Store/Tests.antt =====
-- The store on a database that is an association list.
use system_agent.Prelude.{
  ℕ, ◌≡◌, ◌⊎◌, refl, sym, ap, ◌∙◌, false, [], ◌∷◌, ◌++◌, Option, none, some, arith, replicate,
  if◌then◌else◌,
}
use mathlib.Core.Option
use system_agent.Prelude.Int.{ℤ, pos}
use system_agent.Prelude.Text.{Str, codes, str_eq}
use system_agent.Prelude.Assoc.{Assoc, lookup, insert, delete, lookup-insert, lookup-delete}
use system_agent.Prelude.Result.{Result, ok, err, ok-injective}
use system_agent.Store.Types.{
  TypeDescriptor, Resource, Any, Failure, key_not_found, resource_not_found,
}
use system_agent.Store.Subscriber.{Subscriber, route}
use system_agent.Store.Key.{
  ref, encode_resource_key, qualified_name, build_key, resource_key, url_encode,
}
use system_agent.Store.Index.{read_obj_keys_from_indexes}
use system_agent.Store.Database.{Badger, IsBadger, update}
use system_agent.Store.Resources.{
  Codec, Store, insert_resource, replace_resource, write_resource, add_resource, update_resource,
  get_resource,
}
use system_agent.Store.Deletion.{
  delete_resource, delete_all, delete_indexed_objects, delete_objects, delete_from_indexes,
}
use system_agent.Store.Deletion.Gone.{delete_resource-Gone}
use system_agent.Store.Resources.Written.{RoundTrips}
use system_agent.Store.Resources.Stored.{Stored, add_resource-Stored, update_resource-Stored}

abbrev read : Str → Assoc Str → Result Failure Str
read k db = elim (lookup k db) [ none ↦ err key_not_found | some v ↦ ok v ]

abbrev badger : Badger (Assoc Str)
badger = record {
  get = read;
  set = λ k v db. ok (insert k v db);
  delete = λ k db. ok (delete k db);
  items = λ prefix db. [];
  commit = λ db. ok db;
}

badger-IsBadger : IsBadger badger
badger-IsBadger = record {
  get-set = λ k v j db db' e. set_lem k v j db db' e;
  get-delete = λ k j db db' e. delete_lem k j db db' e;
  get-commit = λ j db db' e. cc;
}
  where
    set_lem :
        (k v j : Str) (db db' : Assoc Str)
        → badger.set k v db ≡ ok db'
        → read j db' ≡ (if str_eq k j then ok v else read j db)
    set_lem k v j db db' e =
        ap (read j) (sym (ok-injective e)) ∙ ground (arith, lookup-insert k j v db)

    delete_lem :
        (k j : Str) (db db' : Assoc Str)
        → badger.delete k db ≡ ok db'
        → read j db' ≡ (if str_eq k j then err key_not_found else read j db)
    delete_lem k j db db' e =
        ap (read j) (sym (ok-injective e)) ∙ ground (arith, lookup-delete k j db)

abbrev pod_type : TypeDescriptor
pod_type = record { kind = codes "Resource"; type = codes "k8s.io.Pod" }

-- A pod that was created and updated at these times.
abbrev pod : Option ℤ → Option ℤ → Resource
pod created updated = record {
  type = some pod_type;
  metadata = some (record {
    name = codes "a";
    namespace = none;
    created_at = created;
    updated_at = updated;
    deleted_at = none;
    fields = [];
  });
  spec = none;
}

abbrev times : Option ℤ → Option ℤ → Option Any
times (some (pos c)) (some (pos u)) = some (record { type_url = []; value = c ∷ u ∷ [] })
times _ _ = some (record { type_url = []; value = [] })

abbrev pod_of : Str → Option Resource
pod_of (c ∷ u ∷ []) = some (pod (some (pos c)) (some (pos u)))
pod_of _ = none

-- The bytes of a pod are its times.
abbrev codec : Codec
codec = record {
  new_resource = λ r. elim r.metadata [ none ↦ none | some m ↦ times m.created_at m.updated_at ];
  unmarshal_resource = pod_of;
  new_relationship = λ r. none;
  unmarshal_relationship = λ val. none;
  resource_name = codes "Resource";
  resource_message = codes "resource.v1.Resource";
  relationship_message = codes "resource.v1.Relationship";
  sum256 = λ val. replicate 32 0;
}

abbrev pod_subscriber : Subscriber
pod_subscriber = record {
  sent = [];
  ch_closed = false;
  kind_match = [];
  type_match = (codes "k8s" ∷ []) ∷ [];
}

abbrev empty : Store (Assoc Str)
empty = record { closed = false; store = []; subscribers = [] }

-- The key of the pod.
abbrev pod_key : Str
pod_key =
    build_key (resource_key ∷ (codes "k8s.io.Pod" ++ codes "/" ++ url_encode (codes "a")) ∷ [])

abbrev with_pod : Str → Store (Assoc Str)
with_pod val = record { closed = false; store = (pod_key, val) ∷ []; subscribers = [] }

add_runs :
    add_resource badger codec (pos 3) (pod none none) empty
    ≡ ok (pod (some (pos 3)) (some (pos 3)), with_pod (3 ∷ 3 ∷ []))
unfolding add_resource encode_resource_key ref update insert_resource lookup write_resource insert
    route qualified_name delete
add_runs = refl

trips : (c u : ℕ) → RoundTrips codec (pod (some (pos c)) (some (pos u)))
trips c u any e = ap (λ (a : Any). pod_of a.value) (sym (Option.some-injective _ _ e))

add_resource-Stored_example :
    (get_resource badger codec (some (ref (pod none none))) empty ≡ err resource_not_found)
    × Stored badger codec
        (some (pos 3))
        (pos 3)
        (pod none none)
        empty
        (pod (some (pos 3)) (some (pos 3)))
        (with_pod (3 ∷ 3 ∷ []))
add_resource-Stored_example =
    add_resource-Stored badger codec badger-IsBadger (pos 3) (pod none none)
      (pod (some (pos 3)) (some (pos 3))) empty (with_pod (3 ∷ 3 ∷ [])) (trips 3 3) add_runs

update_runs :
    update_resource badger codec (pos 9) (pod none none) (with_pod (3 ∷ 3 ∷ []))
    ≡ ok (pod (some (pos 3)) (some (pos 9)), with_pod (3 ∷ 9 ∷ []))
unfolding update_resource encode_resource_key ref update replace_resource lookup str_eq
    write_resource insert route qualified_name delete build_key url_encode
update_runs = refl

update_resource-Stored_example :
    (get_resource badger codec (some (ref (pod none none))) (with_pod (3 ∷ 3 ∷ []))
        ≡ err resource_not_found)
      × Stored badger codec
          (some (pos 9))
          (pos 9)
          (pod none none)
          (with_pod (3 ∷ 3 ∷ []))
          (pod (some (pos 3)) (some (pos 9)))
          (with_pod (3 ∷ 9 ∷ []))
    ⊎ (old : Resource) × (get_resource badger codec
          (some (ref (pod none none)))
          (with_pod (3 ∷ 3 ∷ []))
        ≡ ok old)
      × Stored badger codec
          (elim old.metadata [ none ↦ none | some m ↦ m.created_at ])
          (pos 9)
          (pod none none)
          (with_pod (3 ∷ 3 ∷ []))
          (pod (some (pos 3)) (some (pos 9)))
          (with_pod (3 ∷ 9 ∷ []))
update_resource-Stored_example =
    update_resource-Stored badger codec badger-IsBadger (pos 9) (pod none none)
      (pod (some (pos 3)) (some (pos 9))) (with_pod (3 ∷ 3 ∷ [])) (with_pod (3 ∷ 9 ∷ []))
      (trips 3 9) update_runs

delete_runs :
    delete_resource badger codec (pos 9) (some (ref (pod none none))) (with_pod (3 ∷ 3 ∷ []))
    ≡ (none, empty)
unfolding delete_resource encode_resource_key ref update delete_all delete_indexed_objects
    read_obj_keys_from_indexes lookup str_eq build_key delete_objects delete_from_indexes delete
    route url_encode qualified_name
delete_runs = refl

delete_resource-Gone_example :
    get_resource badger codec (some (ref (pod none none))) empty ≡ err resource_not_found
delete_resource-Gone_example =
    delete_resource-Gone badger codec badger-IsBadger (pos 9) (ref (pod none none))
      (with_pod (3 ∷ 3 ∷ [])) empty refl delete_runs

abbrev watched : Store (Assoc Str)
watched = record empty { subscribers = pod_subscriber ∷ [] }
