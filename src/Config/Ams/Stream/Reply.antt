-- ===== src/Config/Ams/Stream/Reply.antt =====
-- When the loader acknowledges a response.
use mathlib.Core.Option
use mathlib.Core.Path.{subst}
use system_agent.Prelude.{
  ◌≡◌, ◌↔◌, refl, sym, ap, ◌∙◌, List, [], ◌∷◌, ◌++◌, Option, none, some, Option-cases, inl, inr,
}
use system_agent.Prelude.Int.{ℤ}
use system_agent.Prelude.Text.{Str}
use system_agent.Prelude.Partial.{>>=-eq-some}
use system_agent.Config.Types.{Instance, Object}
use system_agent.Config.Parser.{Env, Error}
use system_agent.Config.Subscriptions
use system_agent.Config.Ams.{AmsLoader, process_config}
use system_agent.Config.Ams.Stream.{
  ack, ConfigError, WatchConfigRequest, process_configs, error_of, receive, ack_request,
}

module _ {Msg : Type 0} (env : Env Msg) where
  -- The loader behind the send of a processed configuration.
  abbrev pub announced : Instance Msg × Option Error × AmsLoader Msg → AmsLoader Msg
  announced x = record x.2 { subs = Subscriptions.send (x.0 ∷ []) x.2.subs }

  -- Every configuration, one after another, is processed without an error.
  abbrev pub AllAccepted : ℤ → List (Option Object) → AmsLoader Msg → Type 0
  AllAccepted now [] l = Unit
  AllAccepted now (obj ∷ objs) l =
      (x : Instance Msg × Option Error × AmsLoader Msg) × (process_config env now obj l ≡ some x)
      × (x.1 ≡ none)
      × AllAccepted now objs (announced x)

  process_configs-AllAccepted :
      (now : ℤ) (objs : List (Option Object)) (l : AmsLoader Msg)
      (y : List ConfigError × AmsLoader Msg)
      → process_configs env now objs l ≡ some y
      → (y.0 ≡ []) ↔ AllAccepted now objs l
  unfolding process_configs
  process_configs-AllAccepted now [] l y h = (
    (λ e. tt),
    λ a. ap (λ (t : List ConfigError × AmsLoader Msg). t.0) (sym (Option.some-injective _ _ h)),
  )
  process_configs-AllAccepted now (obj ∷ objs) l y h =
      let (x, p, h₁) = >>=-eq-some (process_config env now obj l) _ h in
      let (z, q, h₂) = >>=-eq-some (process_configs env now objs (announced x)) _ h₁ in
      let errors : error_of obj x.1 ++ z.0 ≡ y.0 =
        ap (λ (t : List ConfigError × AmsLoader Msg). t.0) (Option.some-injective _ _ h₂) in
      let (there, back) = process_configs-AllAccepted now objs (announced x) z q in
      elim (Option-cases x.1) [
        | inl e ↦
            let same : z.0 ≡ y.0 = rw e at errors in
            (
              λ n. (x, p, e, there (same ∙ n)),
              λ (x', p', e', a).
                  sym same
                  ∙ back (
                      subst (λ t. AllAccepted now objs (announced t))
                        (Option.some-injective _ _ (sym p' ∙ p)) a),
            )
        | inr (r, e) ↦ (
          λ n. absurd (let c = rw e at (errors ∙ n) in cc),
          λ (x', p', e', a). absurd (
              let c =
                sym e'
                ∙ ap (λ (t : Instance Msg × Option Error × AmsLoader Msg). t.1)
                    (Option.some-injective _ _ (sym p' ∙ p))
                ∙ e in
              cc),
        )
      ]

  ack_iff :
      {Detail : Type 0} (pack : ConfigError → Option Detail) (seq_num : Str)
      (errors : List ConfigError)
      → ((ack_request pack seq_num errors).type ≡ ack) ↔ (errors ≡ [])
  unfolding ack_request
  ack_iff pack seq_num [] = ((λ e. refl), λ e. refl)
  ack_iff pack seq_num (e ∷ es) = ((λ q. cc), λ q. cc)

  -- The reply to a response is an acknowledgement exactly if all its configurations, processed one
  -- after another, are processed without an error.
  pub receive-AllAccepted :
      {Detail : Type 0} (pack : ConfigError → Option Detail) (now : ℤ) (seq_num : Str)
      (objs : List (Option Object)) (l : AmsLoader Msg) (req : WatchConfigRequest Detail)
      (l' : AmsLoader Msg)
      → receive pack env now seq_num objs l ≡ some (req, l')
      → (req.type ≡ ack) ↔ AllAccepted now objs (record l { last_seq_num = seq_num })
  unfolding receive
  receive-AllAccepted {Detail} pack now seq_num objs l req l' h =
      let (y, p, q) =
        >>=-eq-some (process_configs env now objs (record l { last_seq_num = seq_num })) _ h in
      let reply : ack_request pack y.1.last_seq_num y.0 ≡ req =
        ap (λ (t : WatchConfigRequest Detail × AmsLoader Msg). t.0) (Option.some-injective _ _ q) in
      let (a, b) = ack_iff pack y.1.last_seq_num y.0 in
      let (there, back) =
        process_configs-AllAccepted now objs (record l { last_seq_num = seq_num }) y p in
      (
        λ e. there (a (ap (λ (r : WatchConfigRequest Detail). r.type) reply ∙ e)),
        λ s. ap (λ (r : WatchConfigRequest Detail). r.type) (sym reply) ∙ b (back s),
      )
