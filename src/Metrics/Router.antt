-- ===== src/Metrics/Router.antt =====
-- internal/metrics/router.go. A consumer is a state of any type `S` with its `HandleEvent`, whose
-- result says whether it returned an error. The map of consumers is iterated in the order of the
-- association list; Go's order is not specified.
pub mod Delivery
use system_agent.Prelude.{
  ℕ, suc, Bool, true, false, List, [], ◌∷◌, Option, none, some, if◌then◌else◌, ◌≡◌, length,
}
use system_agent.Prelude.Text.{Str}
use system_agent.Prelude.Assoc.{Assoc, lookup, insert, delete}

pub data Error (E : Type 0) : Type 0 where
  closed already_registered not_found : Error E
  consumer : E → Error E

pub record MetricsRouter (S : Type 0) : Type 0 where
  pub consumers : Assoc S
  pub closed : Bool

module _ {S : Type 0} where
  unfoldable pub new : MetricsRouter S
  new = record { consumers = []; closed = false }

  -- What `Start` does once its context is cancelled.
  unfoldable pub shutdown : MetricsRouter S → MetricsRouter S
  shutdown r = record r { closed = true }

module _ {S E : Type 0} where
  -- An error, or `none` for nil, beside the router.
  unfoldable pub register_consumer : Str → S → MetricsRouter S → Option (Error E) × MetricsRouter S
  register_consumer name c r = elim (lookup name r.consumers) [
    | some _ ↦ (some already_registered, r)
    | none ↦ (none, record r { consumers = insert name c r.consumers })
  ]

  unfoldable pub unregister_consumer : Str → MetricsRouter S → Option (Error E) × MetricsRouter S
  unregister_consumer name r = elim (lookup name r.consumers) [
    | none ↦ (some not_found, r)
    | some _ ↦ (none, record r { consumers = delete name r.consumers })
  ]

-- `lastErr`, after the result of one more consumer.
unfoldable pub keep_last : {E : Type 0} → Option E → Option (Error E) → Option (Error E)
keep_last none last = last
keep_last (some x) last = some (consumer x)

module _ {S E Event : Type 0} (handle : Event → S → Option E × S) where
  -- The loop of `Publish`: the last error, and the consumers after it.
  unfoldable pub publish_all : Event → Option (Error E) → Assoc S → Option (Error E) × Assoc S
  publish_all e last [] = (last, [])
  publish_all e last ((name, c) ∷ m) =
      let (err, c') = handle e c in
      let (result, m') = publish_all e (keep_last err last) m in (result, (name, c') ∷ m')

  unfoldable pub publish : Event → MetricsRouter S → Option (Error E) × MetricsRouter S
  publish e r =
      let (result, m) = publish_all e none r.consumers in
      if r.closed then (some closed, r) else (result, record r { consumers = m })

  unfoldable pub publish_batch : List Event → MetricsRouter S → Option (Error E) × MetricsRouter S
  publish_batch [] r = (none, r)
  publish_batch (e ∷ events) r =
      let (err, r') = publish e r in
      elim err [ some x ↦ (some x, r') | none ↦ publish_batch events r' ]

  -- `GetStats`: the number of consumers and the health of each.
  module _ {H : Type 0} (health : S → H) where
    unfoldable pub consumer_stats : Assoc S → Assoc H
    consumer_stats [] = []
    consumer_stats ((name, c) ∷ m) = (name, health c) ∷ consumer_stats m

    unfoldable pub get_stats : MetricsRouter S → ℕ × Assoc H
    get_stats r = (length r.consumers, consumer_stats r.consumers)
