-- ===== src/Performance/Registry/Runnable.antt =====
-- A collector is registered exactly if the process has the capabilities that it requires.
use mathlib.Core.Path.{subst}
use system_agent.Prelude.{
  ℕ, zero, suc, Bool, true, false, List, [], ◌∷◌, ◌++◌, Option, none, some, Option-cases, length,
  not, ◌&&◌, ◌==◌, ltb, if◌then◌else◌, ◌≡◌, ◌≢◌, ◌⊎◌, ◌↔◌, inl, inr, refl, sym, ap, ◌∙◌, arith,
}
use system_agent.Prelude.Text.{Str, split, str_eq, eq_of_str_eq}
use system_agent.Prelude.Assoc.{lookup, insert, lookup-insert}
use system_agent.Prelude.Result.{Result, ok, err}
use system_agent.Performance.Capabilities.{
  Capability, cap_eff, effective_of, effective_of_lem, NoneCounts, get_current_capabilities,
  missing_of, missing_of-nil, AllHeld, AllHeld-missing_of, AllSet, has_all_capabilities, set_bits,
  has_capability-set_bits, check_caps,
}
use system_agent.Performance.Collector.{CollectorCapabilities}
use system_agent.Performance.Registry.{
  RunError, can_run, Registry, UnavailableCollector, Availability, available, unavailable,
  not_found, examine, register, get_collector, get_collector_status, NotFound, collector_not_found,
  missing_capabilities,
}

AllHeld-AllSet :
    (value : ℕ) (required : List Capability)
    → AllHeld (set_bits value check_caps) required ↔ AllSet value required
AllHeld-AllSet value [] = (λ h. h, λ h. h)
AllHeld-AllSet value (cap ∷ required) =
    let e = has_capability-set_bits value check_caps cap in
    let rest = AllHeld-AllSet value required in
    (λ h. (sym e ∙ h.0, rest.0 h.1), λ h. (e ∙ h.0, rest.1 h.1))

verdict_lem :
    (n : ℕ) (e : RunError) → ((if not (n == 0) && ltb 0 n then some e else none) ≡ none) ↔ (n ≡ 0)
verdict_lem zero e = (λ h. refl, λ h. refl)
verdict_lem (suc n) e = (λ h. absurd (ground arith), λ h. absurd (omega (arith, h)))

can_run-held :
    (text : Str) (required : List Capability) (c : CollectorCapabilities)
    → (can_run (some text) (record c { required_capabilities = required }) ≡ none)
      ↔ AllHeld (effective_of (split text 10)) required
unfolding can_run has_all_capabilities get_current_capabilities
can_run-held text [] c = (λ h. tt, λ h. refl)
can_run-held text (cap ∷ required) c =
    let current = effective_of (split text 10) in
    let missing = missing_of current (cap ∷ required) in
    let v = verdict_lem (length missing) (missing_capabilities missing) in
    (
      λ h. AllHeld-missing_of current (cap ∷ required) (v.0 h),
      λ h. v.1 (ap length (missing_of-nil current (cap ∷ required) h)),
    )

-- Where the first CapEff line that counts has a value, a collector can run exactly if each capability
-- that it requires is one of the four that the agent knows and has its bit set in that value.
pub can_run_iff :
    (text : Str) (before after : List Str) (line : Str) (value : ℕ) (c : CollectorCapabilities)
    → split text 10 ≡ before ++ (line ∷ after)
    → NoneCounts before
    → cap_eff line ≡ some value
    → (can_run (some text) c ≡ none) ↔ AllSet value c.required_capabilities
can_run_iff text before after line value c lines n e =
    let current : effective_of (split text 10) ≡ set_bits value check_caps =
      ap effective_of lines ∙ effective_of_lem before after line value n e in
    let held = can_run-held text c.required_capabilities c in
    let bits = AllHeld-AllSet value c.required_capabilities in
    (
      λ h. bits.0 (subst (λ caps. AllHeld caps c.required_capabilities) current (held.0 h)),
      λ h. held.1 (subst (λ caps. AllHeld caps c.required_capabilities) (sym current) (bits.1 h)),
    )

module _ {E F : Type 0} (probe : F → Result E CollectorCapabilities) (status : Option Str)
    (kernel : Option Str) where
  -- What `GetCollectorStatus` says of a collector that was just examined.
  abbrev pub verdict : Option (UnavailableCollector E) → Bool × Availability E
  verdict none = (true, available)
  verdict (some u) = (false, unavailable u.reason)

  abbrev answer : Option F → Option (UnavailableCollector E) → Bool × Availability E
  answer registered lacking = elim registered [
    | some _ ↦ (true, available)
    | none ↦ elim lacking [ some u ↦ (false, unavailable u.reason) | none ↦ (false, not_found) ]
  ]

  -- What `GetCollector` returns of a collector that was just examined.
  abbrev pub factory : Str → F → Option (UnavailableCollector E) → Result NotFound F
  factory metric_type collector none = ok collector
  factory metric_type collector (some u) = err (collector_not_found metric_type)

  -- `Register` panics exactly on a type that has a collector. On a type that has none it succeeds: the
  -- type's status is then what the examination of the factory found, with the factory only if it can
  -- run, and the status and the collector of every other type are as before.
  pub register_lem :
      (metric_type : Str) (collector : F) (r : Registry E F)
      → (lookup metric_type r.registry ≢ none
          × (register probe status kernel metric_type collector r ≡ none))
        ⊎ (lookup metric_type r.registry ≡ none)
          × ((r' : Registry E F) × (register probe status kernel metric_type collector r ≡ some r')
              × ((t : Str)
                  → get_collector_status probe status kernel t r' ≡ (
                      if str_eq metric_type t
                      then verdict (examine probe status kernel metric_type collector)
                      else get_collector_status probe status kernel t r))
              × ((t : Str)
                  → get_collector probe status kernel t r' ≡ (
                      if str_eq metric_type t
                      then factory t collector (examine probe status kernel metric_type collector)
                      else get_collector probe status kernel t r)))
  unfolding register get_collector_status get_collector
  register_lem metric_type collector r = elim (Option-cases (lookup metric_type r.registry)) [
    | inr (f, e) ↦ inl (λ h. absurd (some-ne-none f (sym e ∙ h)), rw (e, register) refl)
    | inl e ↦ inr (
      e,
      elim (Option-cases (examine probe status kernel metric_type collector)) [
        | inl fits ↦ (
          record r { registry = insert metric_type collector r.registry },
          rw (e, fits, register) refl,
          λ t.
              ap (λ o. answer o (lookup t r.unavailable_collectors))
                (lookup-insert metric_type t collector r.registry)
              ∙ answer_some (str_eq metric_type t) collector (lookup t r.registry)
                  (lookup t r.unavailable_collectors)
              ∙ ap
                  (λ x.
                    if str_eq metric_type t
                    then verdict x
                    else answer (lookup t r.registry) (lookup t r.unavailable_collectors))
                  (sym fits),
          λ t.
              ap (found t) (lookup-insert metric_type t collector r.registry)
              ∙ found_some t (str_eq metric_type t) collector (lookup t r.registry)
              ∙ ap
                  (λ x.
                    if str_eq metric_type t
                    then factory t collector x
                    else found t (lookup t r.registry))
                  (sym fits),
        )
        | inr (u, lacking) ↦ (
          record r { unavailable_collectors = insert metric_type u r.unavailable_collectors },
          rw (e, lacking, register) refl,
          λ t.
              ap (answer (lookup t r.registry))
                (lookup-insert metric_type t u r.unavailable_collectors)
              ∙ answer_none (str_eq metric_type t) u (lookup t r.registry)
                  (lookup t r.unavailable_collectors) (λ s. absent t s e)
              ∙ ap
                  (λ x.
                    if str_eq metric_type t
                    then verdict x
                    else answer (lookup t r.registry) (lookup t r.unavailable_collectors))
                  (sym lacking),
          λ t.
              found_none t (str_eq metric_type t) (lookup t r.registry) (λ s. absent t s e)
              ∙ ap
                  (λ x.
                    if str_eq metric_type t
                    then factory t collector x
                    else found t (lookup t r.registry))
                  (sym lacking),
        )
      ],
    )
  ]
    where
      some-ne-none : (f : F) → some f ≢ none
      some-ne-none f h = cc

      absent :
          (t : Str)
          → str_eq metric_type t ≡ true
          → lookup metric_type r.registry ≡ none
          → lookup t r.registry ≡ none
      absent t s e = ap (λ k. lookup k r.registry) (sym (eq_of_str_eq metric_type t s)) ∙ e

      found : Str → Option F → Result NotFound F
      found t o = elim o [ none ↦ err (collector_not_found t) | some f ↦ ok f ]

      answer_some :
          (b : Bool) (f : F) (o : Option F) (l : Option (UnavailableCollector E))
          → answer (if b then some f else o) l ≡ (if b then (true, available) else answer o l)
      answer_some true f o l = refl
      answer_some false f o l = refl

      answer_none :
          (b : Bool) (u : UnavailableCollector E) (o : Option F)
          (l : Option (UnavailableCollector E))
          → (b ≡ true → o ≡ none)
          → answer o (if b then some u else l)
            ≡ (if b then (false, unavailable u.reason) else answer o l)
      answer_none true u o l h = ap (λ x. answer x (some u)) (h refl)
      answer_none false u o l h = refl

      found_some :
          (t : Str) (b : Bool) (f : F) (o : Option F)
          → found t (if b then some f else o) ≡ (if b then ok f else found t o)
      found_some t true f o = refl
      found_some t false f o = refl

      found_none :
          (t : Str) (b : Bool) (o : Option F)
          → (b ≡ true → o ≡ none)
          → found t o ≡ (if b then err (collector_not_found t) else found t o)
      found_none t true o h = ap (found t) (h refl)
      found_none t false o h = refl
