-- ===== src/Config/Fs/Tests.antt =====
-- The file loader on a directory of two files.
use system_agent.Prelude.{◌≡◌, refl, true, false, if◌then◌else◌, [], ◌∷◌, none, some}
use system_agent.Prelude.Text.{Str, codes, str_eq, contains}
use system_agent.Prelude.Search.{ext}
use system_agent.Prelude.Assoc.{lookup, insert, delete}
use system_agent.Config.Types.{Instance, cache_key}
use system_agent.Config.Parser.{parse}
use system_agent.Config.Subscriptions
use system_agent.Config.Subscriptions.{send, offer_all}
use system_agent.Config.Tests.{env, cpu_object, cpu_instance}
use system_agent.Config.Fs.{
  Decoders, FsLoader, new, is_config_file, unmarshal_object, read_object, store_file,
  load_config_file, process_config_file, handle_event, init_load_files, handle_events, get_config,
}
use system_agent.Config.Fs.Keyed.{IsSettled, get_config-handle_events}
use system_agent.Config.Fs.Lifetime.{
  write_event, remove_event, IsAcceptedFile, handle_event-write_remove, handle_event-renames,
}

-- The content of a JSON file is the name of its configuration; there is no YAML.
abbrev decoders : Decoders Str
decoders = record {
  unmarshal_json = λ d. some (record cpu_object { name = d });
  unmarshal_yaml = λ d. none;
  marshal_json = λ d. none;
}

abbrev path : Str
path = codes "/etc/agent/cpu.json"

abbrev other_instance : Instance Str
other_instance = record cpu_instance { name = codes "b" }

accepted : IsAcceptedFile decoders env path (some (codes "a")) cpu_instance
unfolding is_config_file read_object unmarshal_object ext contains str_eq parse
accepted = record { config = refl; object = cpu_object; read_is = refl; parsed = refl }

other_accepted : IsAcceptedFile decoders env path (some (codes "b")) other_instance
unfolding is_config_file read_object unmarshal_object ext contains str_eq parse
other_accepted = record {
  config = refl;
  object = record cpu_object { name = codes "b" };
  read_is = refl;
  parsed = refl;
}

abbrev loader : FsLoader Str
loader = record {
  subs = record { subs = []; closed = false };
  cache = [];
  files = [];
  done = false;
}

abbrev key : Str
key = cache_key (codes "host") (codes "a")

handle_event-write_remove_example :
    (l' : FsLoader Str) × (handle_event decoders env
        (remove_event path)
        none
        (handle_event decoders env (write_event path) (some (codes "a")) loader)
      ≡ l')
    × ((j : Str) → lookup j l'.cache ≡ (if str_eq key j then none else lookup j loader.cache))
    × (l'.subs
        ≡ Subscriptions.send
            (record cpu_instance { expired = true } ∷ [])
            (Subscriptions.send (cpu_instance ∷ []) loader.subs))
handle_event-write_remove_example =
    handle_event-write_remove decoders env path (some (codes "a")) none cpu_instance loader accepted

handle_event-renames_example :
    lookup key
      (handle_event decoders env (remove_event path) none (
        handle_event decoders env
          (write_event path)
          (some (codes "b"))
          (handle_event decoders env (write_event path) (some (codes "a")) loader))).cache
    ≡ some cpu_instance
unfolding str_eq
handle_event-renames_example =
    handle_event-renames decoders env path (some (codes "a")) (some (codes "b")) none cpu_instance
      other_instance loader accepted other_accepted refl

found :
    get_config (codes "host") (codes "a") (
      handle_events decoders env
        ((write_event path, some (codes "b")) ∷ [])
        (init_load_files decoders env ((path, some (codes "a")) ∷ []) new))
    ≡ some cpu_instance
unfolding get_config handle_events init_load_files new lookup handle_event process_config_file
    load_config_file store_file is_config_file read_object unmarshal_object ext contains str_eq
    parse insert delete send offer_all
found = refl

get_config-handle_events_example :
    (cache_key (codes "host") (codes "a") ≡ key) × IsSettled cpu_instance
get_config-handle_events_example =
    get_config-handle_events decoders env ((path, some (codes "a")) ∷ [])
      ((write_event path, some (codes "b")) ∷ []) (codes "host") (codes "a") cpu_instance found
