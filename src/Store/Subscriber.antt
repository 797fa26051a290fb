-- ===== src/Store/Subscriber.antt =====
-- The filters of a subscriber of internal/resource/store/store.go, and what it is sent.
pub mod Matching
mod Tests
use system_agent.Prelude.{
  ℕ, Bool, true, false, List, [], ◌∷◌, ◌++◌, Option, none, some, ◌==◌, ◌&&◌, ltb, if◌then◌else◌,
  length,
}
use system_agent.Prelude.Text.{Str, str_eq, split}
use system_agent.Store.Types.{TypeDescriptor, Event, Object}

-- `sent` holds the events put on the channel, in order.
pub record Subscriber : Type 0 where
  pub sent : List Event
  pub ch_closed : Bool
  pub kind_match : List (List Str)
  pub type_match : List (List Str)

-- The loop of `hasPrefix`, over the parts of both.
abbrev pub same_parts : List Str → List Str → Bool
same_parts path [] = true
same_parts [] (part ∷ prefix) = false
same_parts (p ∷ path) (part ∷ prefix) = if str_eq p part then same_parts path prefix else false

unfoldable pub has_prefix : List Str → List Str → Bool
has_prefix path prefix = if ltb (length path) (length prefix) then false else same_parts path prefix

-- Whether one of the filters is a prefix of the path.
unfoldable pub any_prefix : List Str → List (List Str) → Bool
any_prefix path [] = false
any_prefix path (m ∷ ms) = if has_prefix path m then true else any_prefix path ms

unfoldable pub matches : Subscriber → Option TypeDescriptor → Bool
matches s type_def =
    if length s.kind_match == 0 && length s.type_match == 0 then true else elim type_def [
      | none ↦ false
      | some t ↦
          let kind_matched = any_prefix (split t.kind b'.') s.kind_match in
          let type_matched = any_prefix (split t.type b'.') s.type_match in
          if ltb 0 (length s.kind_match) && (if kind_matched then false else true)
          then false
          else if ltb 0 (length s.type_match)
          then type_matched
          else false
    ]

-- The loop of `Subscribe` over its arguments, of which it keeps the texts that are not empty.
unfoldable pub kind_filters : List (Option TypeDescriptor) → List (List Str)
kind_filters [] = []
kind_filters (none ∷ ts) = kind_filters ts
kind_filters (some t ∷ ts) =
    let rest = kind_filters ts in if length t.kind == 0 then rest else split t.kind b'.' ∷ rest

unfoldable pub type_filters : List (Option TypeDescriptor) → List (List Str)
type_filters [] = []
type_filters (none ∷ ts) = type_filters ts
type_filters (some t ∷ ts) =
    let rest = type_filters ts in if length t.type == 0 then rest else split t.type b'.' ∷ rest

unfoldable pub new_subscriber : List (Option TypeDescriptor) → Subscriber
new_subscriber type_defs = record {
  sent = [];
  ch_closed = false;
  kind_match = kind_filters type_defs;
  type_match = type_filters type_defs;
}

-- What the event router does with one event: every subscriber that matches the first object.
unfoldable pub route : Event → List Subscriber → List Subscriber
route e [] = []
route e (s ∷ ss) =
    let rest = route e ss in
    elim e.objs [
      | [] ↦ s ∷ ss
      | obj ∷ _ ↦ (if matches s obj.type then record s { sent = s.sent ++ (e ∷ []) } else s) ∷ rest
    ]

-- What the event router does when it stops.
unfoldable pub close_all : List Subscriber → List Subscriber
close_all [] = []
close_all (s ∷ ss) = record s { ch_closed = true } ∷ close_all ss
