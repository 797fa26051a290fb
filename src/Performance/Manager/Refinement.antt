-- ===== src/Performance/Manager/Refinement.antt =====
-- What the manager promises: of each name, the version of its last configuration runs, where that one
-- was not expired and its collector could be started.
use system_agent.Prelude.{
  Bool, true, false, [], ◌∷◌, Option, none, some, Option-cases, Bool-cases, if◌then◌else◌, ◌≡◌,
  refl, sym, ap, ◌∙◌, inl, inr,
}
use system_agent.Prelude.Text.{Str, str_eq, eq_of_str_eq, str_eq_refl}
use system_agent.Prelude.Assoc.{Assoc, lookup, insert, lookup-delete, lookup-insert}
use system_agent.Prelude.Result.{ok, err, Result-cases}
use system_agent.Config.Types.{Instance}
use system_agent.Performance.Manager.{
  Message, CollectorInstance, Manager, Collectors, make_collector, start_collector,
  cancel_collector, run_collector, handle_active_config, handle_expired_config, handle_config,
  get_running_collectors, versions,
}

-- The version that runs under each name.
abbrev pub Running : Type 0
Running = Str → Option Str

abbrev pub put : Str → Option Str → Running → Running
put name v r = λ j. if str_eq name j then v else r j

abbrev pub same_version : Option Str → Str → Bool
same_version none version = false
same_version (some v) version = str_eq v version

abbrev shown : Option CollectorInstance → Option Str
shown none = none
shown (some i) = some i.version

lookup-versions :
    (j : Str) (m : Assoc CollectorInstance) → lookup j (versions m) ≡ shown (lookup j m)
unfolding lookup
lookup-versions j [] = refl
lookup-versions j ((k, i) ∷ m) = elim (Bool-cases (str_eq k j)) [
  | inl e ↦ rw e refl
  | inr e ↦ rw e (lookup-versions j m)
]

module _ {E F C Ch : Type 0} (collectors : Collectors E F C Ch) where
  -- What runs, as `GetRunningCollectors` tells it.
  abbrev pub view : Manager Ch → Running
  view m j = lookup j (get_running_collectors collectors m)

  -- Whether `startCollector` succeeds.
  abbrev pub can_start : Instance Message → Manager Ch → Bool
  can_start config m = elim (make_collector collectors config m) [
    | err e ↦ false
    | ok c ↦ elim (collectors.start c) [ err e ↦ false | ok ch ↦ true ]
  ]

  -- The specification of a configuration's arrival.
  abbrev pub configured : Bool → Instance Message → Running → Running
  configured startable config r =
      if config.expired
      then put config.name none r
      else if same_version (r config.name) config.version
      then r
      else put config.name (if startable then some config.version else none) r

  run_collector-running :
      (config : Instance Message) (m : Manager Ch)
      → (run_collector collectors config m).running_collectors ≡ (
          if can_start config m
          then insert config.name
              (record { version = config.version; cancel = m.contexts })
              m.running_collectors
          else m.running_collectors)
  unfolding run_collector start_collector
  run_collector-running config m = elim (Result-cases (make_collector collectors config m)) [
    | inl (e, no_collector) ↦
        rw (no_collector, run_collector, start_collector)
          (rw (no_collector, start_collector, can_start) refl)
    | inr (c, made) ↦ elim (Result-cases (collectors.start c)) [
      | inl (e, fails) ↦
          rw (made, fails, run_collector, start_collector)
            (rw (made, fails, start_collector, can_start) refl)
      | inr (ch, starts) ↦
          rw (made, starts, run_collector, start_collector)
            (rw (made, starts, start_collector, can_start) refl)
    ]
  ]

  -- The lookup of `j` behind an insertion that happens if `b`, where `s` says that `j` is the key.
  shown-if :
      (b s : Bool) (i : CollectorInstance) (o : Option CollectorInstance)
      → (s ≡ true → o ≡ none)
      → shown (if b then (if s then some i else o) else o)
        ≡ (if s then (if b then some i.version else none) else shown o)
  shown-if true true i o h = refl
  shown-if true false i o h = refl
  shown-if false true i o h = ap shown (h refl)
  shown-if false false i o h = refl

  lookup-if :
      (b : Bool) (j k : Str) (i : CollectorInstance) (m : Assoc CollectorInstance)
      → lookup j (if b then insert k i m else m)
        ≡ (if b then (if str_eq k j then some i else lookup j m) else lookup j m)
  lookup-if true j k i m = lookup-insert k j i m
  lookup-if false j k i m = refl

  run_collector-view :
      (config : Instance Message) (m : Manager Ch) (j : Str)
      → lookup config.name m.running_collectors ≡ none
      → view (run_collector collectors config m) j
        ≡ put config.name (if can_start config m then some config.version else none) (view m) j
  unfolding get_running_collectors
  run_collector-view config m j e =
      let i : CollectorInstance = record { version = config.version; cancel = m.contexts } in
      let o = lookup j m.running_collectors in
      lookup-versions j _
      ∙ ap (λ r. shown (lookup j r)) (run_collector-running config m)
      ∙ ap shown (lookup-if (can_start config m) j config.name i m.running_collectors)
      ∙ shown-if (can_start config m) (str_eq config.name j) i o
          (λ s. ap (λ x. lookup x m.running_collectors) (sym (eq_of_str_eq config.name j s)) ∙ e)
      ∙ ap
          (λ v.
            if str_eq config.name j
            then (if can_start config m then some config.version else none)
            else v)
          (sym (lookup-versions j m.running_collectors))

  cancel_collector-view :
      (key : Str) (i : CollectorInstance) (m : Manager Ch) (j : Str)
      → view (cancel_collector collectors key i m) j ≡ put key none (view m) j
  unfolding get_running_collectors
  cancel_collector-view key i m j =
      lookup-versions j _
      ∙ ap shown (lookup-delete key j m.running_collectors)
      ∙ shown-none (str_eq key j) (lookup j m.running_collectors)
      ∙ ap (λ v. if str_eq key j then none else v) (sym (lookup-versions j m.running_collectors))
    where
      shown-none :
          (s : Bool) (o : Option CollectorInstance)
          → shown (if s then none else o) ≡ (if s then none else shown o)
      shown-none true o = refl
      shown-none false o = refl

  view-if :
      (b : Bool) (x y : Manager Ch) (f g : Running) (j : Str)
      → view x j ≡ f j
      → view y j ≡ g j
      → view (if b then x else y) j ≡ (if b then f else g) j
  view-if true x y f g j p q = p
  view-if false x y f g j p q = q

  expired-view :
      (config : Instance Message) (m : Manager Ch) (j : Str)
      → view (handle_expired_config collectors config m) j ≡ put config.name none (view m) j
  unfolding handle_expired_config get_running_collectors
  expired-view config m j = elim (Option-cases (lookup config.name m.running_collectors)) [
    | inl e ↦
        rw (e, handle_expired_config)
          (lookup-versions j m.running_collectors
            ∙ shown-if false (str_eq config.name j) (record { version = []; cancel = 0 })
                (lookup j m.running_collectors)
                (λ s.
                  ap (λ x. lookup x m.running_collectors) (sym (eq_of_str_eq config.name j s)) ∙ e)
            ∙ ap (λ v. if str_eq config.name j then none else v)
                (sym (lookup-versions j m.running_collectors)))
    | inr (i, e) ↦ rw (e, handle_expired_config) (cancel_collector-view config.name i m j)
  ]

  replaced-view :
      (config : Instance Message) (i : CollectorInstance) (m : Manager Ch) (j : Str)
      → view (run_collector collectors config (cancel_collector collectors config.name i m)) j
        ≡ put config.name (if can_start config m then some config.version else none) (view m) j
  unfolding make_collector
  replaced-view config i m j =
      run_collector-view config (cancel_collector collectors config.name i m) j (
        lookup-delete config.name config.name m.running_collectors
        ∙ ap (λ b. if b then none else lookup config.name m.running_collectors)
            (str_eq_refl config.name))
      ∙ ap
          (λ v.
            if str_eq config.name j
            then (if can_start config m then some config.version else none)
            else v)
          (cancel_collector-view config.name i m j)
      ∙ if-if (str_eq config.name j) _ (view m j)
    where
      if-if :
          (s : Bool) (v x : Option Str)
          → (if s then v else (if s then none else x)) ≡ (if s then v else x)
      if-if true v x = refl
      if-if false v x = refl

  active-view :
      (config : Instance Message) (m : Manager Ch) (j : Str)
      → view (handle_active_config collectors config m) j
        ≡ (if same_version (view m config.name) config.version
              then view m
              else put config.name
                  (if can_start config m then some config.version else none)
                  (view m))
            j
  unfolding handle_active_config get_running_collectors
  active-view config m j =
      let r = put config.name (if can_start config m then some config.version else none) (view m) in
      let known : view m config.name ≡ shown (lookup config.name m.running_collectors) =
        lookup-versions config.name m.running_collectors in
      let choice : Option Str → Option Str =
        λ v. (if same_version v config.version then view m else r) j in
      elim (Option-cases (lookup config.name m.running_collectors)) [
        | inl e ↦
            rw (e, handle_active_config) (run_collector-view config m j e)
            ∙ ap choice (sym (known ∙ ap shown e))
        | inr (i, e) ↦
            rw (e, handle_active_config)
              (view-if (str_eq i.version config.version) m _ (view m) r j refl
                (replaced-view config i m j))
            ∙ ap choice (sym (known ∙ ap shown e))
      ]

  -- A configuration's arrival does to what runs what the specification says: an expired one stops its
  -- collector; one whose version runs already changes nothing; any other replaces the collector of its
  -- name, which is then the new version where it could be started, and none where it could not. The
  -- collectors of all other names run on.
  pub handle_config-configured :
      (config : Instance Message) (m : Manager Ch) (j : Str)
      → view (handle_config collectors config m) j
        ≡ configured (can_start config m) config (view m) j
  unfolding handle_config
  handle_config-configured config m j =
      view-if config.expired _ _ (put config.name none (view m)) _ j (expired-view config m j)
        (active-view config m j)
