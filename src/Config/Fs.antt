-- ===== src/Config/Fs.antt =====
-- internal/config/fs.go: the loader fed by the files of a directory. Its goroutine handles the events
-- of the watcher one after another; reading a file is an argument of the step, `none` an error. The
-- decoders of JSON and YAML are parameters; the watcher and the walks over the directory, which bring
-- the paths, are the environment.
pub mod Keyed
pub mod Lifetime
mod Tests
use system_agent.Prelude.{
  ℕ, Bool, true, false, List, [], ◌∷◌, ◌++◌, Option, none, some, ◌==◌, ◌||◌, if◌then◌else◌, length,
}
use system_agent.Prelude.Text.{Str, codes, str_eq}
use system_agent.Prelude.Search.{to_lower, ext}
use system_agent.Prelude.Assoc.{Assoc, lookup, insert, delete}
use system_agent.Prelude.Result.{Result, ok, err, ◌>>=◌}
use system_agent.Config.Types.{Instance, Filters, Object, status_invalid, cache_key}
use system_agent.Config.Parser
use system_agent.Config.Parser.{Env, parse, zero_instance}
use system_agent.Config.Subscriptions
use system_agent.Config.Subscriptions.{Subscriptions, matches}

-- `unmarshal_json` is protojson.Unmarshal into an object; `unmarshal_yaml` is yaml.Unmarshal of a text
-- and `marshal_json` json.Marshal of what it gives.
pub record Decoders (Yaml : Type 0) : Type 0 where
  pub unmarshal_json : Str → Option Object
  pub unmarshal_yaml : Str → Option Yaml
  pub marshal_json : Yaml → Option Str

pub data LoadError : Type 0 where
  read_failed empty_file unmarshal_failed : LoadError
  parse_failed : Parser.Error → LoadError

-- `files` holds the cache key of each file that was loaded, `done` is whether the channel of that name
-- is closed.
pub record FsLoader (Msg : Type 0) : Type 0 where
  pub subs : Subscriptions Msg
  pub cache : Assoc (Instance Msg)
  pub files : Assoc Str
  pub done : Bool

-- fsnotify.Event: the path, and the operations that it has.
pub record FsEvent : Type 0 where
  pub name : Str
  pub create : Bool
  pub write : Bool
  pub remove : Bool

unfoldable pub is_config_file : Str → Bool
is_config_file filename =
    let e = to_lower (ext filename) in
    str_eq e (codes ".json") || (str_eq e (codes ".yaml") || str_eq e (codes ".yml"))

module _ {Yaml : Type 0} (decoders : Decoders Yaml) where
  open decoders use {unmarshal_json, unmarshal_yaml, marshal_json}

  unfoldable pub unmarshal_object : Str → Str → Option Object
  unmarshal_object data_ filename =
      let e = to_lower (ext filename) in
      if str_eq e (codes ".json")
      then unmarshal_json data_
      else if str_eq e (codes ".yaml") || str_eq e (codes ".yml")
      then elim (unmarshal_yaml data_) [
        | none ↦ none
        | some yaml_data ↦ elim (marshal_json yaml_data) [
          | none ↦ none
          | some json_data ↦ unmarshal_json json_data
        ]
      ]
      else none

  -- The object in what was read of the file.
  unfoldable pub read_object : Str → Option Str → Result LoadError Object
  read_object filename none = err read_failed
  read_object filename (some data_) =
      if length data_ == 0 then err empty_file else elim (unmarshal_object data_ filename) [
        | none ↦ err unmarshal_failed
        | some obj ↦ ok obj
      ]

abbrev pub succeeded : {E : Type 0} → Option E → Bool
succeeded none = true
succeeded (some _) = false

abbrev pub load_error : Option Parser.Error → Option LoadError
load_error none = none
load_error (some e) = some (LoadError.parse_failed e)

module _ {Msg : Type 0} where
  unfoldable pub new : FsLoader Msg
  new = record { subs = record { subs = []; closed = false }; cache = []; files = []; done = false }

  -- `Instance{Status: StatusInvalid}`
  abbrev pub invalid_instance : Instance Msg
  invalid_instance = record zero_instance { status = status_invalid }

  -- Whether the cached instance, or Go's zero value, has no object.
  abbrev pub lacks_object : Option (Instance Msg) → Bool
  lacks_object none = true
  lacks_object (some i) = elim i.object [ none ↦ true | some _ ↦ false ]

  -- The end of `loadConfigFile`, from the parsed instance on.
  unfoldable pub store_file :
      Str
      → Instance Msg × Option Parser.Error
      → FsLoader Msg
      → Instance Msg × Option LoadError × FsLoader Msg
  store_file filename (i, e) l =
      let key = cache_key i.type_url i.name in
      (
        i,
        load_error e,
        if succeeded e || lacks_object (lookup key l.cache)
            then record l { cache = insert key i l.cache; files = insert filename key l.files }
            else l,
      )

  unfoldable pub load_config_file :
      {Yaml : Type 0}
      → Decoders Yaml
      → Env Msg
      → Str
      → Option Str
      → FsLoader Msg
      → Instance Msg × Option LoadError × FsLoader Msg
  load_config_file decoders env filename read l = elim (read_object decoders filename read) [
    | err e ↦ (invalid_instance, some e, l)
    | ok obj ↦ store_file filename (parse env (some obj)) l
  ]

  unfoldable pub process_config_file :
      {Yaml : Type 0} → Decoders Yaml → Env Msg → Str → Option Str → FsLoader Msg → FsLoader Msg
  process_config_file decoders env filename read l =
      let (i, e, l') = load_config_file decoders env filename read l in
      record l' { subs = Subscriptions.send (i ∷ []) l'.subs }

  unfoldable pub handle_file_delete : Str → FsLoader Msg → FsLoader Msg
  handle_file_delete filename l = elim (lookup filename l.files) [
    | none ↦ l
    | some key ↦ elim (lookup key l.cache) [
      | none ↦ l
      | some i ↦ record l {
        cache = delete key l.cache;
        files = delete filename l.files;
        subs = Subscriptions.send (record i { expired = true } ∷ []) l.subs;
      }
    ]
  ]

  -- `read` is what reading the file of the event gives, if the step reads it.
  unfoldable pub handle_event :
      {Yaml : Type 0} → Decoders Yaml → Env Msg → FsEvent → Option Str → FsLoader Msg → FsLoader Msg
  handle_event decoders env event read l =
      if is_config_file event.name
      then if event.create || event.write
        then process_config_file decoders env event.name read l
        else if event.remove
        then handle_file_delete event.name l
        else l
      else l

  -- The walk of `initLoadFiles`, over the paths of files with what reading them gives.
  unfoldable pub init_load_files :
      {Yaml : Type 0}
      → Decoders Yaml
      → Env Msg
      → List (Str × Option Str)
      → FsLoader Msg
      → FsLoader Msg
  init_load_files decoders env [] l = l
  init_load_files decoders env ((path, read) ∷ entries) l =
      let loaded = (load_config_file decoders env path read l).2 in
      init_load_files decoders env entries (if is_config_file path then loaded else l)

  -- The loop of `processEvents`: the events of the watcher, one after another.
  unfoldable pub handle_events :
      {Yaml : Type 0}
      → Decoders Yaml
      → Env Msg
      → List (FsEvent × Option Str)
      → FsLoader Msg
      → FsLoader Msg
  handle_events decoders env [] l = l
  handle_events decoders env ((event, read) ∷ events) l =
      handle_events decoders env events (handle_event decoders env event read l)

  -- The loop of `ListConfigs`, in the order of the association list.
  unfoldable pub list_instances :
      Filters → Assoc (Instance Msg) → Assoc (List (Instance Msg)) → Assoc (List (Instance Msg))
  list_instances filters [] configs = configs
  list_instances filters ((k, i) ∷ cache) configs =
      let old : List (Instance Msg) = elim (lookup i.type_url configs) [
        | none ↦ []
        | some is ↦ is
      ] in
      list_instances filters cache
        (if matches i filters then insert i.type_url (old ++ (i ∷ [])) configs else configs)

  unfoldable pub list_configs : Filters → FsLoader Msg → Assoc (List (Instance Msg))
  list_configs filters l = list_instances filters l.cache []

  -- `none` is the error that no such configuration is found.
  unfoldable pub get_config : Str → Str → FsLoader Msg → Option (Instance Msg)
  get_config config_type name l = lookup (cache_key config_type name) l.cache

  -- What `Watch` does before its goroutine.
  unfoldable pub watch : Filters → FsLoader Msg → Option ℕ × FsLoader Msg
  watch filters l =
      let (ch, subs) = Subscriptions.add filters l.subs in (ch, record l { subs = subs })

  -- `none` is the panic on closing `done` twice.
  unfoldable pub close : FsLoader Msg → Option (FsLoader Msg)
  close l =
      if l.done then none else some (record l { subs = Subscriptions.close l.subs; done = true })
