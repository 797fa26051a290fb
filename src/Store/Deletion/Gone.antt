-- ===== src/Store/Deletion/Gone.antt =====
-- What the store holds behind `DeleteResource`.
use system_agent.Prelude.{
  ◌≡◌, inl, inr, sym, ◌∙◌, ap, false, Option, none, some, List, [], ◌∷◌, ◌++◌, Option-cases,
}
use system_agent.Prelude.Int.{ℤ}
use system_agent.Prelude.Text.{Str, str_eq_refl}
use system_agent.Prelude.Result.{ok, err, >>=-eq-ok, ok-injective, Result-cases}
use system_agent.Store.Types.{ResourceRef, Failure, resource_not_found, key_not_found}
use system_agent.Store.Key.{
  encode_resource_key, build_key, resource_key, index, subject_idx, object_idx, predicate_idx,
}
use system_agent.Store.Database.{Badger, IsBadger, update}
use system_agent.Store.Resources.{Codec, Store, get_resource}
use system_agent.Store.Deletion.{
  delete_indexed_objects, delete_from_indexes, delete_all, delete_resource, tombstone,
}

module _ {Db : Type 0} (badger : Badger Db) (codec : Codec) where
  -- The last write of the transaction.
  delete_all-last :
      (k : Str) (db : Db) (x : List Str × Db)
      → delete_all badger codec k db ≡ ok x
      → (d : Db) × (badger.delete (build_key (resource_key ∷ k ∷ [])) d ≡ ok x.1)
  unfolding delete_all
  delete_all-last k db x h =
      let subject_key = build_key (index ∷ subject_idx ∷ k ∷ []) in
      let object_key = build_key (index ∷ object_idx ∷ k ∷ []) in
      let (a, _, h₁) = >>=-eq-ok (delete_indexed_objects badger codec subject_key db) _ h in
      let (b, _, h₂) = >>=-eq-ok (delete_indexed_objects badger codec object_key a.1) _ h₁ in
      let (d₃, _, h₃) = >>=-eq-ok (badger.delete subject_key b.1) _ h₂ in
      let (d₄, _, h₄) = >>=-eq-ok (badger.delete object_key d₃) _ h₃ in
      let (d₅, _, h₅) =
        >>=-eq-ok
          (delete_from_indexes badger codec
            (badger.items (build_key (index ∷ predicate_idx ∷ [])) d₄) (a.0 ++ b.0) d₄)
          _ h₄ in
      let (d₆, p, h₆) = >>=-eq-ok (badger.delete (build_key (resource_key ∷ k ∷ [])) d₅) _ h₅ in
      (d₅, p ∙ ap (λ (y : List Str × Db). ok y.1) (ok-injective h₆))

  get_resource-missing :
      (q : Option ResourceRef) (k : Str) (s : Store Db)
      → s.closed ≡ false
      → encode_resource_key q ≡ ok k
      → badger.get (build_key (resource_key ∷ k ∷ [])) s.store ≡ err key_not_found
      → get_resource badger codec q s ≡ err resource_not_found
  unfolding get_resource
  get_resource-missing q k s o e g = rw (o, e, g)

  -- The database behind the transaction has nothing under the key of the resource.
  update-gone :
      IsBadger badger
      → (k : Str) (db : Db) (x : List Str × Db)
      → update badger (delete_all badger codec k) db ≡ ok x
      → badger.get (build_key (resource_key ∷ k ∷ [])) x.1 ≡ err key_not_found
  unfolding update
  update-gone laws k db x h =
      let (y, p, h₁) = >>=-eq-ok (delete_all badger codec k db) _ h in
      let (d, c, h₂) = >>=-eq-ok (badger.commit y.1) _ h₁ in
      let (last, q) = delete_all-last k db y p in
      let key = build_key (resource_key ∷ k ∷ []) in
      ap (λ (z : List Str × Db). badger.get key z.1) (sym (ok-injective h₂))
      ∙ laws.get-commit key y.1 d c
      ∙ rw (str_eq_refl key) at (laws.get-delete key key last y.1 q)

  -- On a database with badger's laws, behind a `DeleteResource` of an open store without an error,
  -- `GetResource` of the same reference finds no resource.
  pub delete_resource-Gone :
      IsBadger badger
      → (now : ℤ) (q : ResourceRef) (s s' : Store Db) → s.closed ≡ false
      → delete_resource badger codec now (some q) s ≡ (none, s')
      → get_resource badger codec (some q) s' ≡ err resource_not_found
  unfolding delete_resource
  delete_resource-Gone laws now q s s' o h = elim (Result-cases (encode_resource_key (some q))) [
    | inl (e, p) ↦ absurd (
        let z = ap (λ (t : Option Failure × Store Db). t.0) (rw (o, p, delete_resource) at h) in cc)
    | inr (k, p) ↦ elim (Result-cases (update badger (delete_all badger codec k) s.store)) [
      | inl (e, u) ↦ absurd (
          let z =
            ap (λ (t : Option Failure × Store Db). t.0) (rw (o, p, u, delete_resource) at h) in
          cc)
      | inr (x, u) ↦ elim (Option-cases (codec.new_resource (tombstone badger codec now q))) [
        | inl m ↦ absurd (
            let z =
              ap (λ (t : Option Failure × Store Db). t.0) (rw (o, p, u, m, delete_resource) at h) in
            cc)
        | inr (any, m) ↦
            let z =
              ap (λ (t : Option Failure × Store Db). t.1) (rw (o, p, u, m, delete_resource) at h) in
            get_resource-missing (some q) k s' (ap (λ (t : Store Db). t.closed) (sym z) ∙ o) p (
              ap (λ (t : Store Db). badger.get (build_key (resource_key ∷ k ∷ [])) t.store) (sym z)
              ∙ update-gone laws k s.store x u)
      ]
    ]
  ]
