-- ===== src/Config/Tests.antt =====
-- The parser and the subscriptions at concrete configurations.
use system_agent.Prelude.{◌≡◌, refl, false, List, [], ◌∷◌, ◌++◌, none, some, get_elem?}
use system_agent.Prelude.Int.{pos}
use system_agent.Prelude.Text.{Str, codes, str_eq, trim_prefix, has_prefix, atoi}
use system_agent.Prelude.Result.{ok, err}
use system_agent.Config.Types.{Instance, Filters, Object, status_ok, status_invalid}
use system_agent.Config.Parser.{Env, parse, compare_versions, bad_version}
use system_agent.Config.Parser.Versions.{compare_versions-negative}
use system_agent.Config.Subscriptions.{Subscription, Subscriptions, send}
use system_agent.Config.Subscriptions.Delivery.{matching, send_lem}

-- A message is the name of its collector, and "cpu" is available.
abbrev pub env : Env Str
env = record {
  host_stats_collection_config_name = codes "host";
  unmarshal = λ payload. some payload;
  get_collector = λ msg. msg;
  is_available = λ name. str_eq name (codes "cpu");
  marshal = λ msg. some msg;
}

abbrev pub cpu_object : Object
cpu_object = record {
  type = some (record { kind = []; type = codes "host" });
  name = codes "a";
  version = codes "v3";
  payload = some (codes "cpu");
  ttl = some (pos 50);
}

abbrev pub cpu_instance : Instance Str
cpu_instance = record {
  type_url = codes "host";
  name = codes "a";
  version = codes "v3";
  object = some (codes "cpu");
  status = status_ok;
  expired = false;
}

parse_runs : parse env (some cpu_object) ≡ (cpu_instance, none)
unfolding parse str_eq
parse_runs = refl

compare_versions-negative_example :
    (compare_versions (codes "-2") [] ≡ ok (pos 1))
    × (compare_versions (codes "7") (codes "-2") ≡ err bad_version)
unfolding trim_prefix has_prefix atoi
compare_versions-negative_example = compare_versions-negative (codes "-2") (codes "7") 1 refl

abbrev all_filter : Filters
all_filter = record { types = []; status = 3 }

abbrev ok_filter : Filters
ok_filter = record { types = codes "host" ∷ []; status = 1 }

abbrev subscriber : Subscription Str
subscriber = record { sent = []; ch_closed = false; filters = ok_filter }

abbrev subscribers : Subscriptions Str
subscribers = record {
  subs = record { sent = []; ch_closed = false; filters = all_filter } ∷ subscriber ∷ [];
  closed = false;
}

abbrev batch : List (Instance Str)
batch = cpu_instance ∷ record cpu_instance { status = status_invalid } ∷ []

send_lem_example :
    get_elem? (send batch subscribers).subs 1
    ≡ some (record subscriber { sent = subscriber.sent ++ matching batch ok_filter })
send_lem_example = send_lem batch subscribers 1 subscriber refl refl
