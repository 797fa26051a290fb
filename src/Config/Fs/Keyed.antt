-- ===== src/Config/Fs/Keyed.antt =====
-- What the cache of the file loader holds, whatever events come.
use system_agent.Prelude.{
  ◌≡◌, ◌≢◌, ◌⊎◌, inl, inr, sym, ap, ◌∙◌, Bool, true, false, ◌||◌, List, [], ◌∷◌, Option, none, some,
  if◌then◌else◌, Bool-cases, Option-cases,
}
use mathlib.Core.Option
use system_agent.Prelude.Text.{Str, str_eq, str_eq_iff}
use system_agent.Prelude.Assoc.{lookup, lookup-insert, lookup-delete}
use system_agent.Prelude.Result.{Result-cases}
use system_agent.Config.Types.{Instance, status_ok, status_invalid, cache_key}
use system_agent.Config.Parser
use system_agent.Config.Parser.{Env, parse}
use system_agent.Config.Parser.Outcome.{Agrees, parse-Agrees}
use system_agent.Config.Fs.{
  Decoders, FsLoader, FsEvent, new, is_config_file, read_object, store_file, load_config_file,
  process_config_file, handle_file_delete, handle_event, init_load_files, handle_events,
  lacks_object, succeeded, get_config,
}

module _ {Msg : Type 0} where
  -- An instance with an object and StatusOK, or without one and StatusInvalid.
  abbrev pub IsSettled : Instance Msg → Type 0
  IsSettled i =
      (i.status ≡ status_ok) × (i.object ≢ none) ⊎ (i.status ≡ status_invalid) × (i.object ≡ none)

  -- Every cached instance is settled and stands under its own key.
  abbrev pub IsKeyed : FsLoader Msg → Type 0
  IsKeyed l =
      (k : Str) (i : Instance Msg)
      → lookup k l.cache ≡ some i
      → (cache_key i.type_url i.name ≡ k) × IsSettled i

  IsKeyed-if :
      (b : Bool) (x y : FsLoader Msg) → IsKeyed x → IsKeyed y → IsKeyed (if b then x else y)
  IsKeyed-if true x y p q = p
  IsKeyed-if false x y p q = q

  Agrees-IsSettled : (i : Instance Msg) (e : Option Parser.Error) → Agrees (i, e) → IsSettled i
  Agrees-IsSettled i e (inl (_, s, o)) = inl (s, o)
  Agrees-IsSettled i e (inr (_, s, o)) = inr (s, o)

  -- Storing an instance under its key, and dropping a key.
  store_file-IsKeyed :
      (f : Str) (x : Instance Msg × Option Parser.Error) (l : FsLoader Msg)
      → IsSettled x.0
      → IsKeyed l
      → IsKeyed (store_file f x l).2
  unfolding store_file
  store_file-IsKeyed f (i, e) l s h k j p =
      elim (Bool-cases
        (succeeded e || lacks_object (lookup (cache_key i.type_url i.name) l.cache))) [
          | inr kept ↦ h k j (rw kept at p)
          | inl stored ↦ elim (Bool-cases (str_eq (cache_key i.type_url i.name) k)) [
            | inl same ↦
                let q = Option.some-injective _ _ (
                  rw (stored, lookup-insert (cache_key i.type_url i.name) k i l.cache, same) at
                    p) in
                (
                  ap (λ (y : Instance Msg). cache_key y.type_url y.name) (sym q)
                      ∙ (str_eq_iff (cache_key i.type_url i.name) k).0 same,
                  rw q at s,
                )
            | inr other ↦
                h k j
                  (rw (stored, lookup-insert (cache_key i.type_url i.name) k i l.cache, other) at p)
          ]
        ]

  handle_file_delete-IsKeyed :
      (f : Str) (l : FsLoader Msg) → IsKeyed l → IsKeyed (handle_file_delete f l)
  unfolding handle_file_delete
  handle_file_delete-IsKeyed f l h k j p = elim (Option-cases (lookup f l.files)) [
    | inl e ↦ h k j (rw (e, handle_file_delete) at p)
    | inr (key, e) ↦ elim (Option-cases (lookup key l.cache)) [
      | inl q ↦ h k j (rw (e, q, handle_file_delete) at p)
      | inr (i, q) ↦ elim (Bool-cases (str_eq key k)) [
        | inl same ↦
            absurd
              (let z = rw (e, q, handle_file_delete, lookup-delete key k l.cache, same) at p in cc)
        | inr other ↦ h k j (rw (e, q, handle_file_delete, lookup-delete key k l.cache, other) at p)
      ]
    ]
  ]

  module _ {Yaml : Type 0} (decoders : Decoders Yaml) (env : Env Msg) where
    load_config_file-IsKeyed :
        (f : Str) (read : Option Str) (l : FsLoader Msg)
        → IsKeyed l
        → IsKeyed (load_config_file decoders env f read l).2
    unfolding load_config_file
    load_config_file-IsKeyed f read l h k j p = elim (Result-cases (read_object decoders f read)) [
      | inl (e, q) ↦ h k j (rw (q, load_config_file) at p)
      | inr (obj, q) ↦
          store_file-IsKeyed f (parse env (some obj)) l
            (Agrees-IsSettled (parse env (some obj)).0 (parse env (some obj)).1
              (parse-Agrees env (some obj)))
            h k j (rw (q, load_config_file) at p)
    ]

    handle_event-IsKeyed :
        (event : FsEvent) (read : Option Str) (l : FsLoader Msg)
        → IsKeyed l
        → IsKeyed (handle_event decoders env event read l)
    unfolding handle_event process_config_file
    handle_event-IsKeyed event read l h =
        IsKeyed-if (is_config_file event.name) _ _
          (IsKeyed-if (event.create || event.write) _ _
            (load_config_file-IsKeyed event.name read l h)
            (IsKeyed-if event.remove _ _ (handle_file_delete-IsKeyed event.name l h) h))
          h

    init_load_files-IsKeyed :
        (entries : List (Str × Option Str)) (l : FsLoader Msg)
        → IsKeyed l
        → IsKeyed (init_load_files decoders env entries l)
    unfolding init_load_files
    init_load_files-IsKeyed [] l h = h
    init_load_files-IsKeyed ((path, read) ∷ entries) l h =
        init_load_files-IsKeyed entries _
          (IsKeyed-if (is_config_file path) _ _ (load_config_file-IsKeyed path read l h) h)

    handle_events-IsKeyed :
        (events : List (FsEvent × Option Str)) (l : FsLoader Msg)
        → IsKeyed l
        → IsKeyed (handle_events decoders env events l)
    unfolding handle_events
    handle_events-IsKeyed [] l h = h
    handle_events-IsKeyed ((event, read) ∷ events) l h =
        handle_events-IsKeyed events (handle_event decoders env event read l)
          (handle_event-IsKeyed event read l h)

    -- Whatever files are there at the start, and whatever events follow with whatever contents: a
    -- configuration that `GetConfig` returns has the cache key that was asked for, and has either an
    -- object and StatusOK, or none and StatusInvalid.
    pub get_config-handle_events :
        (entries : List (Str × Option Str)) (events : List (FsEvent × Option Str)) (type name : Str)
        (i : Instance Msg)
        → get_config type name
            (handle_events decoders env events (init_load_files decoders env entries new))
          ≡ some i
        → (cache_key i.type_url i.name ≡ cache_key type name) × IsSettled i
    unfolding get_config new lookup
    get_config-handle_events entries events type name i h =
        handle_events-IsKeyed events _ (init_load_files-IsKeyed entries _ (λ k j p. absurd cc))
          (cache_key type name) i h
