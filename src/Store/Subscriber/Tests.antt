-- ===== src/Store/Subscriber/Tests.antt =====
-- Subscribers at concrete filters.
use system_agent.Prelude.{◌≡◌, ◌↔◌, true, false, [], ◌∷◌, some}
use system_agent.Prelude.Text.{codes, split}
use system_agent.Store.Types.{TypeDescriptor, Object, Event, EventType}
use system_agent.Store.Subscriber.{Subscriber, has_prefix}
use system_agent.Store.Subscriber.Matching.{IsPrefix, has_prefix_iff}

abbrev pod_type : TypeDescriptor
pod_type = record { kind = codes "Resource"; type = codes "k8s.io.Pod" }

abbrev pod_subscriber : Subscriber
pod_subscriber = record {
  sent = [];
  ch_closed = false;
  kind_match = [];
  type_match = split (codes "k8s.io") b'.' ∷ [];
}

abbrev kind_subscriber : Subscriber
kind_subscriber = record {
  sent = [];
  ch_closed = false;
  kind_match = split (codes "Resource") b'.' ∷ [];
  type_match = [];
}

abbrev pod_object : Object
pod_object = record { type = some pod_type; object = record { type_url = []; value = 3 ∷ 3 ∷ [] } }

abbrev added_pod : Event
added_pod = record { type = EventType.add; objs = pod_object ∷ [] }

has_prefix_iff_example :
    (has_prefix (split (codes "k8s.io.Pod") b'.') (split (codes "k8s") b'.') ≡ true)
    ↔ IsPrefix (split (codes "k8s") b'.') (split (codes "k8s.io.Pod") b'.')
has_prefix_iff_example = has_prefix_iff (split (codes "k8s.io.Pod") b'.') (split (codes "k8s") b'.')
