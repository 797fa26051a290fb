-- ===== src/Metrics/Router/Delivery.antt =====
-- Which consumers an event reaches.
use system_agent.Prelude.{
  ℕ, true, false, List, [], ◌∷◌, Option, none, some, ◌≡◌, refl, suc, length, take, ap, Bool-cases,
  Option-cases, inl, inr,
}
use system_agent.Prelude.Text.{Str, str_eq}
use system_agent.Prelude.Assoc.{Assoc, lookup}
use system_agent.Metrics.Router.{
  Error, closed, MetricsRouter, keep_last, publish_all, publish, publish_batch,
}

module _ {S E Event : Type 0} (handle : Event → S → Option E × S) where
  -- The state of a consumer after an event.
  abbrev pub after : Event → Option S → Option S
  after e none = none
  after e (some c) = some (handle e c).1

  lookup-publish_all :
      (e : Event) (last : Option (Error E)) (name : Str) (m : Assoc S)
      → lookup name (publish_all handle e last m).1 ≡ after e (lookup name m)
  unfolding lookup publish_all
  lookup-publish_all e last name [] = refl
  lookup-publish_all e last name ((k, c) ∷ m) = elim (Bool-cases (str_eq k name)) [
    | inl h ↦ rw h
    | inr h ↦ rw h (lookup-publish_all e (keep_last (handle e c).0 last) name m)
  ]

  -- An open router hands a published event to every registered consumer exactly once, whatever
  -- errors the consumers return, and stays open.
  pub publish-delivers :
      (e : Event) (name : Str) (r : MetricsRouter S)
      → r.closed ≡ false
      → (lookup name (publish handle e r).1.consumers ≡ after e (lookup name r.consumers))
        × ((publish handle e r).1.closed ≡ false)
  unfolding publish
  publish-delivers e name r h = rw h (lookup-publish_all e none name r.consumers, refl)

  -- The consumer's state after several events.
  abbrev pub after_all : List Event → Option S → Option S
  after_all [] o = o
  after_all (e ∷ es) o = after_all es (after e o)

  publish_batch-none :
      (e : Event) (events : List Event) (r : MetricsRouter S)
      → (publish handle e r).0 ≡ none
      → publish_batch handle (e ∷ events) r ≡ publish_batch handle events (publish handle e r).1
  unfolding publish_batch
  publish_batch-none e events r h = rw (h, publish_batch)

  publish_batch-some :
      (e : Event) (events : List Event) (r : MetricsRouter S) (x : Error E)
      → (publish handle e r).0 ≡ some x
      → publish_batch handle (e ∷ events) r ≡ (some x, (publish handle e r).1)
  unfolding publish_batch
  publish_batch-some e events r x h = rw (h, publish_batch)

  -- `PublishBatch` on an open router publishes a prefix of the events: every consumer has seen
  -- exactly the first `k` of them, in order, and `k` is their number unless an error is returned.
  pub publish_batch-prefix :
      (events : List Event) (r : MetricsRouter S)
      → r.closed ≡ false
      → (k : ℕ) × ((name : Str)
          → lookup name (publish_batch handle events r).1.consumers
            ≡ after_all (take k events) (lookup name r.consumers))
        × ((publish_batch handle events r).0 ≡ none → k ≡ length events)
  unfolding publish_batch
  publish_batch-prefix [] r h = (0, λ name. refl, λ _. refl)
  publish_batch-prefix (e ∷ events) r h = elim (Option-cases (publish handle e r).0) [
    | inl ok ↦
        let (k, all, full) =
          publish_batch-prefix events (publish handle e r).1 (publish-delivers e [] r h).1 in
        (
          suc k,
          λ name.
              rw (publish_batch-none e events r ok)
                (rw ((publish-delivers e name r h).0) at (all name)),
          λ n. ap suc (full (rw (publish_batch-none e events r ok) at n)),
        )
    | inr (x, bad) ↦ (
      1,
      λ name. rw (publish_batch-some e events r x bad) (publish-delivers e name r h).0,
      λ n. absurd (cc (publish_batch-some e events r x bad)),
    )
  ]

  -- A closed router refuses every event with `ErrRouterClosed`, and no consumer sees any.
  pub publish_batch-closed :
      (e : Event) (events : List Event) (r : MetricsRouter S)
      → r.closed ≡ true
      → publish_batch handle (e ∷ events) r ≡ (some closed, r)
  unfolding publish_batch publish
  publish_batch-closed e events r h = rw h
