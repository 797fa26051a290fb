-- ===== src/Config/Ams/Stream/Ack.antt =====
-- What a response does to the cache, and what the loader reports of it.
use system_agent.Prelude.{ℕ, ◌≡◌, sym, ap, ◌∙◌, List, [], ◌∷◌, Option, none, some}
use system_agent.Prelude.Int.{ℤ, pos}
use system_agent.Prelude.Text.{Str}
use system_agent.Prelude.Partial.{>>=-eq-some}
use mathlib.Core.Option
use system_agent.Config.Types.{Instance, Object}
use system_agent.Config.Parser.{Env, parse}
use system_agent.Config.Parser.Accepted.{parse-IsAccepted, parse_of_IsAccepted}
use system_agent.Config.Parser.Versions.{Reads}
use system_agent.Config.Subscriptions
use system_agent.Config.Ams.{AmsLoader, process_config}
use system_agent.Config.Ams.Cache.{instance_at}
use system_agent.Config.Ams.Processed.{
  Succeeds, Succeeds-refl, Succeeds-trans, process_config-Succeeds,
}
use system_agent.Config.Ams.Stream.{
  ConfigError, WatchConfigRequest, instance_to_pb_object, process_configs, receive,
}

-- A message that was marshalled unmarshals to itself, as protobuf documents.
abbrev pub RoundTrips : {Msg : Type 0} → Env Msg → Type 0
RoundTrips {Msg} env = (msg : Msg) (p : Str) → env.marshal msg ≡ some p → env.unmarshal p ≡ some msg

same : {A B : Type 0} {r s : A × B} → ◌≡◌ {A = Option (A × B)} (some r) (some s) → r.1 ≡ s.1
same q = ap (λ t. t.1) (Option.some-injective _ _ q)

module _ {Msg : Type 0} (env : Env Msg) where
  -- What the loader reports of an instance that `Parse` accepted is parsed to that instance again,
  -- if messages that are marshalled unmarshal to themselves.
  pub parse-instance_to_pb_object :
      (obj : Option Object) (i : Instance Msg) (obj' : Object)
      → RoundTrips env
      → parse env obj ≡ (i, none)
      → instance_to_pb_object env i ≡ some obj'
      → parse env (some obj') ≡ (i, none)
  unfolding instance_to_pb_object
  parse-instance_to_pb_object obj i obj' r p q =
      let (msg, a) = parse-IsAccepted env obj i p in
      let q' = rw (a.object_is, instance_to_pb_object) at q in
      let (payload, m, e) = >>=-eq-some (env.marshal msg) _ q' in
      rw (Option.some-injective _ _ e) at
        (parse_of_IsAccepted env i msg payload a (r msg payload m))

  process_configs-Succeeds :
      (now : ℤ) (objs : List (Option Object)) (l : AmsLoader Msg) (errors : List ConfigError)
      (l' : AmsLoader Msg) (j : Str) (old : Instance Msg) (m : ℕ)
      → process_configs env now objs l ≡ some (errors, l')
      → instance_at j l ≡ some old
      → Reads old.version (pos m)
      → (new : Instance Msg) × (instance_at j l' ≡ some new) × Succeeds old m new
  unfolding process_configs
  process_configs-Succeeds now [] l errors l' j old m h o r =
      (old, ap (instance_at j) (sym (same h)) ∙ o, Succeeds-refl old m r)
  process_configs-Succeeds now (obj ∷ objs) l errors l' j old m h o r =
      let ((i, e, l₁), p, h₁) = >>=-eq-some (process_config env now obj l) _ h in
      let ((es, l₂), q, h₂) =
        >>=-eq-some
          (process_configs env now objs (record l₁ { subs = Subscriptions.send (i ∷ []) l₁.subs }))
          _ h₁ in
      let (mid, at, s) = process_config-Succeeds env now obj l i e l₁ j old m p o r in
      let (new, at', s') =
        process_configs-Succeeds now objs (record l₁ { subs = Subscriptions.send (i ∷ []) l₁.subs })
          es l₂ j mid s.n q at s.reads in
      (new, ap (instance_at j) (sym (same h₂)) ∙ at', Succeeds-trans s s')

  -- Where the processing of a response does not panic, a cached configuration whose version reads as
  -- a number that is not negative stays cached, or is replaced by one whose version reads as a number
  -- that is at least as large, and never by one without a parsed object if it has one; whatever
  -- configurations the response holds.
  pub receive-Succeeds :
      {Detail : Type 0} (pack : ConfigError → Option Detail) (now : ℤ) (seq_num : Str)
      (objs : List (Option Object)) (l : AmsLoader Msg) (req : WatchConfigRequest Detail)
      (l' : AmsLoader Msg) (j : Str) (old : Instance Msg) (m : ℕ)
      → receive pack env now seq_num objs l ≡ some (req, l')
      → instance_at j l ≡ some old
      → Reads old.version (pos m)
      → (new : Instance Msg) × (instance_at j l' ≡ some new) × Succeeds old m new
  unfolding receive
  receive-Succeeds pack now seq_num objs l req l' j old m h o r =
      let ((es, l₁), p, q) =
        >>=-eq-some (process_configs env now objs (record l { last_seq_num = seq_num })) _ h in
      let (new, at, s) =
        process_configs-Succeeds now objs (record l { last_seq_num = seq_num }) es l₁ j old m p o
          r in
      (new, ap (instance_at j) (sym (same q)) ∙ at, s)
