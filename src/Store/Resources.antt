-- ===== src/Store/Resources.antt =====
-- The store of internal/resource/store/store.go, and its operations on resources. An operation runs
-- under the store's mutex. The event router takes an event before the operation returns, as its
-- channel has no buffer; what it does then is part of the operation here. A failed operation leaves
-- the store as it was. The clock, protobuf and badger are parameters. `opGauge`, which counts the
-- operations that run, is left out.
pub mod Written
pub mod Stored
pub mod Closing
use system_agent.Prelude.{
  ℕ, Bool, true, false, List, [], ◌∷◌, ◌++◌, Option, none, some, ◌==◌, if◌then◌else◌, length,
  get_elem?, set,
}
use system_agent.Prelude.Int.{ℤ}
use system_agent.Prelude.Text.{Str, codes}
use system_agent.Prelude.Result.{Result, ok, err, ◌>>=◌}
use system_agent.Store.Types.{
  TypeDescriptor, ResourceRef, ResourceMeta, Resource, Relationship, Any, Object, Event, EventType,
  add, delete, Failure, closed, already_exists, key_not_found, marshal, unmarshal,
  resource_not_found, panicked,
}
use system_agent.Store.Types as Types
use system_agent.Store.Subscriber.{Subscriber, matches, new_subscriber, route, close_all}
use system_agent.Store.Key.{ref, encode_resource_key, build_key, resource_key, relationship_key}
use system_agent.Store.Database.{Badger, or_missing, update}

-- anypb.New and proto.Unmarshal on the two messages, the names of the messages, and the hash of the
-- bytes of a relationship.
pub record Codec : Type 0 where
  pub new_resource : Resource → Option Any
  pub unmarshal_resource : Str → Option Resource
  pub new_relationship : Relationship → Option Any
  pub unmarshal_relationship : Str → Option Relationship
  pub resource_name : Str
  pub resource_message : Str
  pub relationship_message : Str
  pub sum256 : Str → Str

pub record Store (Db : Type 0) : Type 0 where
  pub closed : Bool
  pub store : Db
  pub subscribers : List Subscriber

-- The metadata with both times, where there is metadata.
abbrev pub stamped : Option ℤ → ℤ → Resource → Result Failure Resource
stamped created now rsrc = elim rsrc.metadata [
  | none ↦ err panicked
  | some m ↦
      ok
        (record rsrc { metadata = some (record m { created_at = created; updated_at = some now }) })
]

abbrev pub failing : {A : Type 0} → Failure → Option A → Result Failure A
failing e none = err e
failing e (some a) = ok a

-- One event for the routers of the subscribers, with one object.
abbrev pub event_of : EventType → Option TypeDescriptor → Any → Event
event_of t type any = record { type = t; objs = record { type = type; object = any } ∷ [] }

module _ {Db : Type 0} (badger : Badger Db) (codec : Codec) where
  -- The key under which the store keeps the resource of a reference.
  abbrev pub key_of : Option ResourceRef → Result Failure Str
  key_of r = do k ← encode_resource_key r; ok (build_key (resource_key ∷ k ∷ []))

  -- What `AddResource` and `UpdateResource` write: the stamped resource.
  unfoldable pub write_resource :
      Str → Option ℤ → ℤ → Resource → Db → Result Failure ((Resource × Any) × Db)
  write_resource key created now rsrc db = do
    rsrc' ← stamped created now rsrc
    any ← failing marshal (codec.new_resource rsrc')
    db' ← badger.set key any.value db
    ok ((rsrc', any), db')

  -- The transaction of `AddResource`.
  unfoldable pub insert_resource : Str → ℤ → Resource → Db → Result Failure ((Resource × Any) × Db)
  insert_resource key now rsrc db = do
    found ← or_missing (badger.get key db)
    elim found [ some _ ↦ err already_exists | none ↦ write_resource key (some now) now rsrc db ]

  -- The transaction of `UpdateResource`.
  unfoldable pub replace_resource : Str → ℤ → Resource → Db → Result Failure ((Resource × Any) × Db)
  replace_resource key now rsrc db = do
    found ← or_missing (badger.get key db)
    elim found [
      | none ↦ write_resource key (some now) now rsrc db
      | some val ↦ (do
        r ← failing unmarshal (codec.unmarshal_resource val)
        write_resource key (elim r.metadata [ none ↦ none | some m ↦ m.created_at ]) now rsrc db)
    ]

  -- The resource behind the call carries its times.
  unfoldable pub add_resource : ℤ → Resource → Store Db → Result Failure (Resource × Store Db)
  add_resource now rsrc s = if s.closed then err closed else (do
    key ← key_of (some (ref rsrc))
    ((rsrc', any), db) ← update badger (insert_resource key now rsrc) s.store
    ok (
      rsrc',
      record s { store = db; subscribers = route (event_of add rsrc'.type any) s.subscribers },
    ))

  unfoldable pub update_resource : ℤ → Resource → Store Db → Result Failure (Resource × Store Db)
  update_resource now rsrc s = if s.closed then err closed else (do
    key ← key_of (some (ref rsrc))
    ((rsrc', any), db) ← update badger (replace_resource key now rsrc) s.store
    ok (
      rsrc',
      record s {
        store = db;
        subscribers = route (event_of EventType.update rsrc'.type any) s.subscribers;
      },
    ))

  unfoldable pub get_resource : Option ResourceRef → Store Db → Result Failure Resource
  get_resource r s = if s.closed then err closed else (do
    key ← key_of r
    found ← or_missing (badger.get key s.store)
    val ← failing resource_not_found found
    failing unmarshal (codec.unmarshal_resource val))

  -- The position of the new channel, or `none` for a channel that is closed and not kept.
  unfoldable pub subscribe : List (Option TypeDescriptor) → Store Db → Option ℕ × Store Db
  subscribe type_defs s = if s.closed then (none, s) else (
    some (length s.subscribers),
    record s { subscribers = s.subscribers ++ (new_subscriber type_defs ∷ []) },
  )

  -- A loop of `sendInitialObjects`: the objects that the subscriber matches, of the items that
  -- unmarshal. `type_of` is the type of the unmarshalled message.
  unfoldable pub matching_objects :
      Subscriber → Str → (Str → Option (Option TypeDescriptor)) → List (Str × Str) → List Object
  matching_objects sub message type_of [] = []
  matching_objects sub message type_of ((k, val) ∷ items) =
      let rest = matching_objects sub message type_of items in
      let any : Any = record { type_url = codes "type.googleapis.com/" ++ message; value = val } in
      elim (type_of val) [
        | none ↦ rest
        | some t ↦ if matches sub t then record { type = t; object = any } ∷ rest else rest
      ]

  abbrev resource_type : Str → Option (Option TypeDescriptor)
  resource_type val = elim (codec.unmarshal_resource val) [ none ↦ none | some r ↦ some r.type ]

  abbrev relationship_type : Str → Option (Option TypeDescriptor)
  relationship_type val = elim (codec.unmarshal_relationship val) [
    | none ↦ none
    | some r ↦ some r.type
  ]

  -- The objects that `sendInitialObjects` collects.
  unfoldable pub initial_objects : Subscriber → Db → List Object
  initial_objects sub db =
      matching_objects sub codec.resource_message resource_type
        (badger.items (build_key (resource_key ∷ [])) db)
      ++ matching_objects sub codec.relationship_message relationship_type
          (badger.items (build_key (relationship_key ∷ [])) db)

  -- `sendInitialObjects` for the subscriber at a position.
  unfoldable pub send_initial_objects : ℕ → Store Db → Store Db
  send_initial_objects i s = elim (get_elem? s.subscribers i) [
    | none ↦ s
    | some sub ↦
        let objs = initial_objects sub s.store in
        if length objs == 0 then s else record s {
          subscribers =
              set s.subscribers i
                (record sub { sent = sub.sent ++ (record { type = add; objs = objs } ∷ []) });
        }
  ]

  -- `Close`, with the router's end. Closing the database is its own business.
  unfoldable pub close : Store Db → Store Db
  close s =
      if s.closed then s else record s { closed = true; subscribers = close_all s.subscribers }
