-- ===== src/Store/Resources/Stored.antt =====
-- `GetResource` behind `AddResource` and `UpdateResource`.
use mathlib.Core.Path.{subst}
use system_agent.Prelude.{
  ◌≡◌, ◌⊎◌, inl, inr, sym, ◌∙◌, ap, false, Option, none, some, if◌then◌else◌, Bool-cases, List,
}
use system_agent.Prelude.Int.{ℤ}
use system_agent.Prelude.Text.{Str, str_eq, str_eq_refl}
use system_agent.Prelude.Result.{Result, ok, err, ◌>>=◌, >>=-eq-ok, ok-injective, Result-cases}
use system_agent.Store.Types.{ResourceRef, Resource, Any, Failure, resource_not_found, unmarshal}
use system_agent.Store.Subscriber.{Subscriber}
use system_agent.Store.Key.{ref}
use system_agent.Store.Database.{Badger, IsBadger, or_missing, update}
use system_agent.Store.Resources.{
  Codec, Store, failing, key_of, write_resource, insert_resource, replace_resource, add_resource,
  update_resource, get_resource,
}
use system_agent.Store.Resources.Written.{RoundTrips, IsStamped, Written, write_resource-Written}

module _ {Db : Type 0} (badger : Badger Db) (codec : Codec) where
  -- Under the key of `r` the store has `r` with its times, and under every other key what it had.
  pub record Stored (created : Option ℤ) (now : ℤ) (rsrc : Resource) (s : Store Db) (r : Resource)
      (s' : Store Db) : Type 0 where
    pub key : Str
    pub key_is : key_of badger codec (some (ref rsrc)) ≡ ok key
    pub stamps : IsStamped created now r
    pub found :
        (q : Option ResourceRef)
        → key_of badger codec q ≡ ok key
        → get_resource badger codec q s' ≡ ok r
    pub others :
        (q : Option ResourceRef) (j : Str)
        → key_of badger codec q ≡ ok j
        → str_eq key j ≡ false
        → get_resource badger codec q s' ≡ get_resource badger codec q s

  -- What `GetResource` makes of a read.
  abbrev decoded : Result Failure Str → Result Failure Resource
  decoded r = do
    found ← or_missing r
    val ← failing resource_not_found found
    failing unmarshal (codec.unmarshal_resource val)

  get_resource-open :
      (q : Option ResourceRef) (j : Str) (s : Store Db)
      → s.closed ≡ false
      → key_of badger codec q ≡ ok j
      → get_resource badger codec q s ≡ decoded (badger.get j s.store)
  unfolding get_resource
  get_resource-open q j s o k = rw (o, k)

  module _ (laws : IsBadger badger) where
    Written-Stored :
        (created : Option ℤ) (now : ℤ) (rsrc r : Resource) (s : Store Db) (k : Str) (db : Db)
        (subs : List Subscriber)
        → s.closed ≡ false
        → key_of badger codec (some (ref rsrc)) ≡ ok k
        → Written badger codec laws k s.store created now r db
        → RoundTrips codec r
        → Stored created now rsrc s r (record s { store = db; subscribers = subs })
    Written-Stored created now rsrc r s k db subs o e w trip =
        let s' : Store Db = record s { store = db; subscribers = subs } in
        record {
          key = k;
          key_is = e;
          stamps = w.stamps;
          found = λ q f.
              get_resource-open q k s' o f ∙ rw (w.reads k, str_eq_refl k, trip w.any w.marshalled);
          others = λ q j f n.
              get_resource-open q j s' o f
              ∙ (rw (w.reads j, n))
              ∙ sym (get_resource-open q j s o f);
        }

    open_of :
        {A : Type 0} (s : Store Db) (x : Result Failure A) {a : A}
        → (if s.closed then err Failure.closed else x) ≡ ok a
        → (s.closed ≡ false) × (x ≡ ok a)
    open_of s x h = elim (Bool-cases s.closed) [
      | inl c ↦ absurd (let q = rw c at h in cc)
      | inr o ↦ (o, rw o at h)
    ]

    update-parts :
        {A : Type 0} (f : Db → Result Failure (A × Db)) (db db₂ : Db) (a : A)
        → update badger f db ≡ ok (a, db₂)
        → (db₁ : Db) × (f db ≡ ok (a, db₁)) × (badger.commit db₁ ≡ ok db₂)
    unfolding update
    update-parts f db db₂ a h =
        let (x, p, h₁) = >>=-eq-ok (f db) _ h in
        let (d, q, h₂) = >>=-eq-ok (badger.commit x.1) _ h₁ in
        let e = ok-injective h₂ in
        (x.1, p ∙ ap (λ y. ok (y, x.1)) (ap (λ t. t.0) e), q ∙ ap (λ t. ok t.1) e)

    -- The parts of a successful operation: `write` is its transaction, `subs` its event.
    record Parts (write : Str → Db → Result Failure ((Resource × Any) × Db))
        (subs : Resource → Any → List Subscriber) (rsrc : Resource) (s : Store Db) (r : Resource)
        (s' : Store Db) : Type 0 where
      key : Str
      any : Any
      db₁ : Db
      db₂ : Db
      is_open : s.closed ≡ false
      key_is : key_of badger codec (some (ref rsrc)) ≡ ok key
      ran : write key s.store ≡ ok ((r, any), db₁)
      committed : badger.commit db₁ ≡ ok db₂
      after : record s { store = db₂; subscribers = subs r any } ≡ s'

    -- What the two operations have in common.
    abbrev operation :
        (Str → Db → Result Failure ((Resource × Any) × Db))
        → (Resource → Any → List Subscriber)
        → Resource
        → Store Db
        → Result Failure (Resource × Store Db)
    operation write subs rsrc s = if s.closed then err Failure.closed else (do
      key ← key_of badger codec (some (ref rsrc))
      ((r₁, any), db) ← update badger (write key) s.store
      ok (r₁, record s { store = db; subscribers = subs r₁ any }))

    operation-Parts :
        (write : Str → Db → Result Failure ((Resource × Any) × Db))
        (subs : Resource → Any → List Subscriber) (rsrc r : Resource) (s s' : Store Db)
        → operation write subs rsrc s ≡ ok (r, s')
        → Parts write subs rsrc s r s'
    operation-Parts write subs rsrc r s s' h =
        let (o, h₁) = open_of s _ h in
        let (k, e, h₂) = >>=-eq-ok (key_of badger codec (some (ref rsrc))) _ h₁ in
        let (x, u, h₃) = >>=-eq-ok (update badger (write k) s.store) _ h₂ in
        let end = ok-injective h₃ in
        let same_r : x.0.0 ≡ r = ap (λ (t : Resource × Store Db). t.0) end in
        let (db₁, f, c) =
          update-parts (write k) s.store x.1 (r, x.0.1)
            (u ∙ ap (λ (y : Resource). ok ((y, x.0.1), x.1)) same_r) in
        record {
          key = k;
          any = x.0.1;
          db₁ = db₁;
          db₂ = x.1;
          is_open = o;
          key_is = e;
          ran = f;
          committed = c;
          after =
              ap (λ (y : Resource). record s { store = x.1; subscribers = subs y x.0.1 })
                (sym same_r)
              ∙ ap (λ (t : Resource × Store Db). t.1) end;
        }

    stored :
        {write : Str → Db → Result Failure ((Resource × Any) × Db)}
        {subs : Resource → Any → List Subscriber} {rsrc r : Resource} {s s' : Store Db}
        (p : Parts write subs rsrc s r s') (created : Option ℤ) (now : ℤ)
        → write_resource badger codec p.key created now rsrc s.store ≡ ok ((r, p.any), p.db₁)
        → RoundTrips codec r
        → Stored created now rsrc s r s'
    stored {rsrc = rsrc} {r = r} {s = s} p c now w trip = subst (Stored c now rsrc s r) p.after (
        Written-Stored c now rsrc r s p.key p.db₂ _ p.is_open p.key_is
          (write_resource-Written badger codec laws p.key c now rsrc r p.any s.store p.db₁ p.db₂ w
            p.committed)
          trip)

    -- On a database with badger's laws, if the written resource round-trips, `AddResource` succeeds only where the store has no resource
    -- under the key; behind it the store
    -- has the new one there, with both times, and under every other key what it had.
    pub add_resource-Stored :
        (now : ℤ) (rsrc r : Resource) (s s' : Store Db)
        → RoundTrips codec r
        → add_resource badger codec now rsrc s ≡ ok (r, s')
        → (get_resource badger codec (some (ref rsrc)) s ≡ err resource_not_found)
          × Stored (some now) now rsrc s r s'
    unfolding add_resource insert_resource
    add_resource-Stored now rsrc r s s' trip h =
        let p = operation-Parts _ _ rsrc r s s' h in
        let at = get_resource-open (some (ref rsrc)) p.key s p.is_open p.key_is in
        elim (Result-cases (or_missing (badger.get p.key s.store))) [
          | inl (e, q) ↦ absurd (let z = rw q at p.ran in cc)
          | inr (some v, q) ↦ absurd (let z = rw q at p.ran in cc)
          | inr (none, q) ↦ (at ∙ (rw q), stored p (some now) now (rw q at p.ran) trip)
        ]

    -- On a database with badger's laws, if the written resource round-trips, a successful `UpdateResource` puts a new resource under the key with both times, or another in the place of
    -- the one that is there, whose time of creation it keeps; under every other key the store has
    -- what it had.
    pub update_resource-Stored :
        (now : ℤ) (rsrc r : Resource) (s s' : Store Db)
        → RoundTrips codec r
        → update_resource badger codec now rsrc s ≡ ok (r, s')
        → (get_resource badger codec (some (ref rsrc)) s ≡ err resource_not_found)
            × Stored (some now) now rsrc s r s'
          ⊎ (old : Resource) × (get_resource badger codec (some (ref rsrc)) s ≡ ok old)
            × Stored (elim old.metadata [ none ↦ none | some m ↦ m.created_at ]) now rsrc s r s'
    unfolding update_resource replace_resource
    update_resource-Stored now rsrc r s s' trip h =
        let p = operation-Parts _ _ rsrc r s s' h in
        let at = get_resource-open (some (ref rsrc)) p.key s p.is_open p.key_is in
        elim (Result-cases (or_missing (badger.get p.key s.store))) [
          | inl (e, q) ↦ absurd (let z = rw q at p.ran in cc)
          | inr (none, q) ↦ inl (at ∙ (rw q), stored p (some now) now (rw q at p.ran) trip)
          | inr (some v, q) ↦
              let (old, u, w) =
                >>=-eq-ok (failing unmarshal (codec.unmarshal_resource v)) _ (rw q at p.ran) in
              inr (old, at ∙ (rw (q, u)), stored p _ now w trip)
        ]
