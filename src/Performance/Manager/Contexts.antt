-- ===== src/Performance/Manager/Contexts.antt =====
-- The contexts of the collectors: which are cancelled, and which belong to a collector that runs.
use mathlib.Core.Option.{some-injective}
use system_agent.Prelude.{
  ℕ, ◌+◌, ◌==◌, ltb, Bool, true, false, List, [], ◌∷◌, ◌++◌, none, some, Option-cases, Bool-cases,
  if◌then◌else◌, ◌≡◌, refl, sym, ap, ◌∙◌, inl, inr, arith,
}
use system_agent.Prelude.Text.{Str, str_eq, eq_of_str_eq, str_eq_refl}
use system_agent.Prelude.Assoc.{Assoc, lookup, insert, delete, lookup-delete}
use system_agent.Prelude.Unique.{IsUnique, delete-absent, delete-IsUnique, insert-IsUnique}
use system_agent.Prelude.Result.{Result-cases}
use system_agent.Config.Types.{Instance}
use system_agent.Performance.Manager.{
  Message, CollectorInstance, Manager, Collectors, all_contexts, make_collector, start_collector,
  cancel_collector, run_collector, handle_active_config, handle_expired_config, stop_all_collectors,
  handle_config, collector_manager,
}

abbrev hit : ℕ → ℕ → ℕ
hit x id = if x == id then 1 else 0

-- How often a number stands in a list.
unfoldable pub occurs : ℕ → List ℕ → ℕ
occurs id [] = 0
occurs id (x ∷ xs) = hit x id + occurs id xs

occurs-append : (id : ℕ) (xs ys : List ℕ) → occurs id (xs ++ ys) ≡ occurs id xs + occurs id ys
unfolding occurs
occurs-append id [] ys = omega arith
occurs-append id (x ∷ xs) ys = omega (arith, occurs-append id xs ys)

occurs-delete :
    (id : ℕ) (k : Str) (m : Assoc CollectorInstance) (i : CollectorInstance)
    → IsUnique m
    → lookup k m ≡ some i
    → occurs id (all_contexts m) ≡ hit i.cancel id + occurs id (all_contexts (delete k m))
unfolding occurs lookup delete
occurs-delete id k [] i u e = cc
occurs-delete id k ((j, v) ∷ m) i (a, u) e = elim (Bool-cases (str_eq j k)) [
  | inl same ↦
      let absent : lookup k m ≡ none = ap (λ x. lookup x m) (sym (eq_of_str_eq j k same)) ∙ a in
      let found : v ≡ i = some-injective v i (rw same at e) in
      rw same (
        rw (delete-absent k m absent)
          (ap (λ x. hit x.cancel id + occurs id (all_contexts m)) found))
  | inr other ↦ rw other (omega (arith, occurs-delete id k m i u (rw other at e)))
]

-- Every context that was made was cancelled exactly once or belongs to exactly one collector that
-- runs, and no other was cancelled or belongs to one.
pub record IsOwned {Ch : Type 0} (m : Manager Ch) : Type 0 where
  pub keys : IsUnique m.running_collectors
  pub owned :
      (id : ℕ)
      → occurs id m.cancelled + occurs id (all_contexts m.running_collectors)
        ≡ (if ltb id m.contexts then 1 else 0)

module _ {E F C Ch : Type 0} (collectors : Collectors E F C Ch) where
  cancel_collector-IsOwned :
      (key : Str) (i : CollectorInstance) (m : Manager Ch)
      → lookup key m.running_collectors ≡ some i
      → IsOwned m
      → IsOwned (cancel_collector collectors key i m)
  unfolding occurs
  cancel_collector-IsOwned key i m e v = record {
    keys = delete-IsUnique key m.running_collectors v.keys;
    owned = λ id. omega (arith, v.owned id, occurs-delete id key m.running_collectors i v.keys e);
  }

  hit_new : (n id : ℕ) → hit n id + (if ltb id n then 1 else 0) ≡ (if ltb id (n + 1) then 1 else 0)
  hit_new n id = ground arith

  -- A collector under a name that no other has.
  run_collector-IsOwned :
      (config : Instance Message) (m : Manager Ch)
      → lookup config.name m.running_collectors ≡ none
      → IsOwned m
      → IsOwned (run_collector collectors config m)
  unfolding run_collector start_collector occurs insert
  run_collector-IsOwned config m e v = elim (Result-cases (make_collector collectors config m)) [
    | inl (e1, no_collector) ↦
        rw (no_collector, run_collector, start_collector) (rw (no_collector, start_collector) v)
    | inr (c, made) ↦ elim (Result-cases (collectors.start c)) [
      | inl (e2, fails) ↦
          rw (made, fails, run_collector, start_collector)
            (rw (made, fails, start_collector)
              (record {
                keys = v.keys;
                owned = λ id. omega (arith, v.owned id, hit_new m.contexts id);
              }))
      | inr (ch, starts) ↦
          rw (made, starts, run_collector, start_collector)
            (rw (made, starts, start_collector)
              (record {
                keys =
                    insert-IsUnique config.name
                      (record { version = config.version; cancel = m.contexts })
                      m.running_collectors v.keys;
                owned = λ id.
                    rw (delete-absent config.name m.running_collectors e)
                      (omega (arith, v.owned id, hit_new m.contexts id));
              }))
    ]
  ]

  P-if : (b : Bool) (x y : Manager Ch) → IsOwned x → IsOwned y → IsOwned (if b then x else y)
  P-if true x y p q = p
  P-if false x y p q = q

  absent-delete : (k : Str) (m : Assoc CollectorInstance) → lookup k (delete k m) ≡ none
  absent-delete k m = lookup-delete k k m ∙ ap (λ b. if b then none else lookup k m) (str_eq_refl k)

  handle_active_config-IsOwned :
      (config : Instance Message) (m : Manager Ch)
      → IsOwned m
      → IsOwned (handle_active_config collectors config m)
  unfolding handle_active_config
  handle_active_config-IsOwned config m v =
      elim (Option-cases (lookup config.name m.running_collectors)) [
        | inl e ↦ rw (e, handle_active_config) (run_collector-IsOwned config m e v)
        | inr (i, e) ↦
            rw (e, handle_active_config)
              (P-if (str_eq i.version config.version) m _ v (
                run_collector-IsOwned config (cancel_collector collectors config.name i m)
                  (absent-delete config.name m.running_collectors)
                  (cancel_collector-IsOwned config.name i m e v)))
      ]

  handle_expired_config-IsOwned :
      (config : Instance Message) (m : Manager Ch)
      → IsOwned m
      → IsOwned (handle_expired_config collectors config m)
  unfolding handle_expired_config
  handle_expired_config-IsOwned config m v =
      elim (Option-cases (lookup config.name m.running_collectors)) [
        | inl e ↦ rw (e, handle_expired_config) v
        | inr (i, e) ↦ rw (e, handle_expired_config) (cancel_collector-IsOwned config.name i m e v)
      ]

  pub handle_config-IsOwned :
      (config : Instance Message) (m : Manager Ch)
      → IsOwned m
      → IsOwned (handle_config collectors config m)
  unfolding handle_config
  handle_config-IsOwned config m v =
      P-if config.expired _ _ (handle_expired_config-IsOwned config m v)
        (handle_active_config-IsOwned config m v)

  stop_all_collectors-IsOwned :
      (m : Manager Ch) → IsOwned m → IsOwned (stop_all_collectors collectors m)
  unfolding stop_all_collectors occurs
  stop_all_collectors-IsOwned m v = record {
    keys = tt;
    owned = λ id.
        omega (arith, v.owned id, occurs-append id (all_contexts m.running_collectors) m.cancelled);
  }

  -- Whatever configurations the manager received before its context was done, and whatever collectors
  -- could not be made or started: at the end no collector runs, and every context that was ever made
  -- for one was cancelled, exactly once, and no other was.
  pub collector_manager-cancels :
      (configs : List (Instance Message)) (m : Manager Ch)
      → IsOwned m
      → ((collector_manager collectors configs m).running_collectors ≡ [])
        × ((id : ℕ)
            → occurs id (collector_manager collectors configs m).cancelled
              ≡ (if ltb id (collector_manager collectors configs m).contexts then 1 else 0))
  unfolding collector_manager stop_all_collectors occurs
  collector_manager-cancels [] m v =
      let v' = stop_all_collectors-IsOwned m v in (refl, λ id. omega (arith, v'.owned id))
  collector_manager-cancels (config ∷ configs) m v =
      collector_manager-cancels configs (handle_config collectors config m)
        (handle_config-IsOwned config m v)
