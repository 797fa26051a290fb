-- ===== src/Store/Resources/Written.antt =====
-- What the store holds behind `AddResource` and `UpdateResource`.
use system_agent.Prelude.{
  ◌≡◌, inl, inr, refl, sym, ◌∙◌, ap, Option, none, some, if◌then◌else◌, Option-cases,
}
use system_agent.Prelude.Int.{ℤ}
use system_agent.Prelude.Text.{Str, str_eq}
use system_agent.Prelude.Result.{ok, >>=-eq-ok, ok-injective}
use system_agent.Store.Types.{ResourceMeta, Resource, Any, Failure, marshal}
use system_agent.Store.Database.{Badger, IsBadger}
use system_agent.Store.Resources.{Codec, stamped, failing, write_resource}

-- Marshalled, the resource unmarshals to itself, as protobuf documents.
abbrev pub RoundTrips : Codec → Resource → Type 0
RoundTrips codec r =
    (any : Any) → codec.new_resource r ≡ some any → codec.unmarshal_resource any.value ≡ some r

pub failing-eq : {A : Type 0} (e : Failure) (o : Option A) {a : A} → failing e o ≡ ok a → o ≡ some a
failing-eq e none h = cc
failing-eq e (some b) h = ap some (ok-injective h)

-- The times of a written resource.
pub record IsStamped (created : Option ℤ) (now : ℤ) (r : Resource) : Type 0 where
  pub meta : ResourceMeta
  pub metadata : r.metadata ≡ some meta
  pub created_at : meta.created_at ≡ created
  pub updated_at : meta.updated_at ≡ some now

stamped-IsStamped :
    (created : Option ℤ) (now : ℤ) (rsrc r : Resource)
    → stamped created now rsrc ≡ ok r
    → IsStamped created now r
stamped-IsStamped created now rsrc r h = elim (Option-cases rsrc.metadata) [
  | inl e ↦ absurd (let q = rw (e, stamped) at h in cc)
  | inr (m, e) ↦
      let q = ok-injective (rw (e, stamped) at h) in
      record {
        meta = record m { created_at = created; updated_at = some now };
        metadata = ap (λ (x : Resource). x.metadata) (sym q);
        created_at = refl;
        updated_at = refl;
      }
]

module _ {Db : Type 0} (badger : Badger Db) (codec : Codec) (laws : IsBadger badger) where
  -- What a committed write of `r` under the key leaves in the database.
  pub record Written (key : Str) (db : Db) (created : Option ℤ) (now : ℤ) (r : Resource) (db' : Db)
      : Type 0 where
    pub any : Any
    pub marshalled : codec.new_resource r ≡ some any
    pub stamps : IsStamped created now r
    pub reads :
        (j : Str) → badger.get j db' ≡ (if str_eq key j then ok any.value else badger.get j db)

  pub write_resource-Written :
      (key : Str) (created : Option ℤ) (now : ℤ) (rsrc r : Resource) (any : Any) (db db₁ db₂ : Db)
      → write_resource badger codec key created now rsrc db ≡ ok ((r, any), db₁)
      → badger.commit db₁ ≡ ok db₂
      → Written key db created now r db₂
  unfolding write_resource
  write_resource-Written key created now rsrc r any db db₁ db₂ h c =
      let (r₁, p, h₁) = >>=-eq-ok (stamped created now rsrc) _ h in
      let (any₁, q, h₂) = >>=-eq-ok (failing marshal (codec.new_resource r₁)) _ h₁ in
      let (d, w, h₃) = >>=-eq-ok (badger.set key any₁.value db) _ h₂ in
      let e = ok-injective h₃ in
      let same_r : r₁ ≡ r = ap (λ (x : (Resource × Any) × Db). x.0.0) e in
      let same_db : d ≡ db₁ = ap (λ (x : (Resource × Any) × Db). x.1) e in
      record {
        any = any₁;
        marshalled = rw same_r at (failing-eq marshal (codec.new_resource r₁) q);
        stamps = stamped-IsStamped created now rsrc r (rw same_r at p);
        reads = λ j.
            laws.get-commit j db₁ db₂ c ∙ laws.get-set key any₁.value j db db₁ (rw same_db at w);
      }
