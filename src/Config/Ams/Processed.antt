-- ===== src/Config/Ams/Processed.antt =====
-- What processing a configuration leaves in the cache.
use mathlib.Core.Option
use system_agent.Prelude.{
  ℕ, ◌≤◌, ◌≡◌, ◌≢◌, ◌⊎◌, inl, inr, refl, sym, ◌∙◌, ap, true, false, ◌&&◌, Option, none, some,
  if◌then◌else◌, arith, Bool-cases,
}
use system_agent.Prelude.Int.{ℤ, pos, ltb_ℤ}
use system_agent.Prelude.Text.{Str, str_eq, str_eq_iff}
use system_agent.Prelude.Partial.{>>=-eq-some}
use system_agent.Prelude.Result.{ok, Result-cases}
use system_agent.Config.Types.{Instance, Object, cache_key}
use system_agent.Config.Parser.{Env, Error, parse, compare_versions}
use system_agent.Config.Parser.Outcome.{Agrees, parse-Agrees}
use system_agent.Config.Parser.Versions.{Reads, Reads-of_compare}
use system_agent.Config.Ams.{
  AmsLoader, is_cached, store_instance, schedule, process_config, previous, ttl_of, is_error,
  has_object,
}
use system_agent.Config.Ams.Cache.{instance_at, SameInstances-schedule, instance_at-store}

module _ {Msg : Type 0} (env : Env Msg) (now : ℤ) (obj : Option Object) (l : AmsLoader Msg) where
  -- The parsed instance, and the key under which it is kept.
  abbrev pub arrived : Instance Msg
  arrived = (parse env obj).0

  abbrev pub key : Str
  key = cache_key arrived.type_url arrived.name

  -- The configuration passed the checks of its version and of its content.
  pub record Accepted : Type 0 where
    pub order : ℤ
    pub compared : compare_versions arrived.version (previous key l).version ≡ ok order
    pub not_below : ltb_ℤ order (pos 0) ≡ false
    pub replaces : (is_error (parse env obj).1 && has_object (previous key l)) ≡ false

  abbrev pub Outcome : AmsLoader Msg → Type 0
  Outcome l' =
      (l ≡ l')
      ⊎ Accepted
        × (schedule key (is_cached key l) (ttl_of obj) now (store_instance key arrived l) ≡ some l')

  pub process_config-cases :
      (i : Instance Msg) (e : Option Error) (l' : AmsLoader Msg)
      → process_config env now obj l ≡ some (i, e, l')
      → Outcome l'
  unfolding process_config
  process_config-cases i e l' h =
      elim (Result-cases (compare_versions arrived.version (previous key l).version)) [
        | inl (x, p) ↦ inl (same (rw (p, process_config) at h))
        | inr (order, p) ↦ elim (Bool-cases (ltb_ℤ order (pos 0))) [
          | inl below ↦ inl (same (rw (p, below, process_config) at h))
          | inr fresh ↦
              elim (Bool-cases (is_error (parse env obj).1 && has_object (previous key l))) [
                | inl bad ↦ inl (same (rw (p, fresh, bad, process_config) at h))
                | inr good ↦
                    let (l₁, q, r) =
                      >>=-eq-some
                        (schedule key (is_cached key l) (ttl_of obj) now
                          (store_instance key arrived l))
                        _ (rw (p, fresh, good, process_config) at h) in
                    inr (
                      record { order = order; compared = p; not_below = fresh; replaces = good },
                      q ∙ ap some (same r),
                    )
              ]
        ]
      ]
    where
      same : {r : Instance Msg × Option Error × AmsLoader Msg} → some r ≡ some (i, e, l') → r.2 ≡ l'
      same q =
          ap (λ (t : Instance Msg × Option Error × AmsLoader Msg). t.2)
            (Option.some-injective _ _ q)

-- An instance that may stand in the place of one whose version reads as `m`: its version reads as
-- a number that is at least `m`, and it holds an object if that one does.
pub record Succeeds {Msg : Type 0} (old : Instance Msg) (m : ℕ) (new : Instance Msg) : Type 0 where
  pub n : ℕ
  pub reads : Reads new.version (pos n)
  pub at_least : m ≤ n
  pub valid : old.object ≢ none → new.object ≢ none

Agrees-valid :
    {Msg : Type 0} (i old : Instance Msg) (e : Option Error)
    → Agrees (i, e)
    → (is_error e && has_object old) ≡ false
    → old.object ≢ none
    → i.object ≢ none
Agrees-valid {Msg} i old e (inl (_, _, valid)) h o = valid
Agrees-valid {Msg} i old none (inr (failed, _, _)) h o = absurd (failed refl)
Agrees-valid {Msg} i old (some x) (inr (_, _, _)) h o = absurd (o (none_of (old.object) h))
  where
    none_of : (m : Option Msg) → elim m [ none ↦ false | some _ ↦ true ] ≡ false → m ≡ none
    none_of none q = refl
    none_of (some y) q = cc

pub Succeeds-refl :
    {Msg : Type 0} (i : Instance Msg) (m : ℕ) → Reads i.version (pos m) → Succeeds i m i
Succeeds-refl i m r = record { n = m; reads = r; at_least = omega arith; valid = λ v. v }

pub Succeeds-trans :
    {Msg : Type 0} {a b c : Instance Msg} {m : ℕ} (s : Succeeds a m b)
    → Succeeds b s.n c
    → Succeeds a m c
Succeeds-trans s t = record {
  n = t.n;
  reads = t.reads;
  at_least = omega (arith, s.at_least, t.at_least);
  valid = λ v. t.valid (s.valid v);
}

module _ {Msg : Type 0} (env : Env Msg) (now : ℤ) (obj : Option Object) (l : AmsLoader Msg) where
  previous_at : (k : Str) (old : Instance Msg) → instance_at k l ≡ some old → previous k l ≡ old
  previous_at k old h = ground arith

  Accepted-Succeeds :
      (old : Instance Msg) (m : ℕ)
      → Accepted env now obj l
      → previous (key env now obj l) l ≡ old
      → Reads old.version (pos m)
      → Succeeds old m (arrived env now obj l)
  Accepted-Succeeds old m a p r =
      let (n, reads, le) =
        Reads-of_compare (arrived env now obj l).version old.version m a.order r
          (rw p at a.compared) a.not_below in
      record {
        n = n;
        reads = reads;
        at_least = le;
        valid =
            Agrees-valid (arrived env now obj l) old (parse env obj).1 (parse-Agrees env obj)
              (rw p at a.replaces);
      }

  -- Whatever object arrives, where its processing does not panic, a configuration whose version reads
  -- as a number that is not negative stays cached under its key or is replaced by one whose version
  -- reads as a number that is at least as large; and a configuration with a parsed object is replaced
  -- only by one with a parsed object.
  pub process_config-Succeeds :
      (i : Instance Msg) (e : Option Error) (l' : AmsLoader Msg) (j : Str) (old : Instance Msg)
      (m : ℕ)
      → process_config env now obj l ≡ some (i, e, l')
      → instance_at j l ≡ some old
      → Reads old.version (pos m)
      → (new : Instance Msg) × (instance_at j l' ≡ some new) × Succeeds old m new
  process_config-Succeeds i e l' j old m h o r =
      elim (process_config-cases env now obj l i e l' h) [
        | inl q ↦ (old, ap (instance_at j) (sym q) ∙ o, Succeeds-refl old m r)
        | inr (a, q) ↦
            let k = key env now obj l in
            let at : instance_at j l'
                ≡ (if str_eq k j then some (arrived env now obj l) else instance_at j l) =
              SameInstances-schedule k (is_cached k l) (ttl_of obj) now _ l' q j
              ∙ instance_at-store k j _ l in
            elim (Bool-cases (str_eq k j)) [
              | inl same ↦
                  let p : previous k l ≡ old = previous_at k old (rw ((str_eq_iff k j).0 same) o) in
                  (arrived env now obj l, rw same at at, Accepted-Succeeds old m a p r)
              | inr other ↦ (old, (rw other at at) ∙ o, Succeeds-refl old m r)
            ]
      ]
