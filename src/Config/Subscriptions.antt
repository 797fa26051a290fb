-- ===== src/Config/Subscriptions.antt =====
-- internal/config/subscription.go. A channel is the list of all instances sent on it so far, in
-- order, and whether it is closed; that a send waits while ten instances are unread is not
-- modelled. Each method holds the mutex, so a method is one step.
pub mod Delivery
use Prim.Native.Nat.{bit_and}
use system_agent.Prelude.{
  ℕ, zero, suc, ◌+◌, Bool, true, false, List, [], ◌∷◌, ◌++◌, Option, none, some, ◌==◌, not, ◌&&◌,
  ◌||◌, if◌then◌else◌, length,
}
use system_agent.Prelude.Text.{Str, str_eq}
use system_agent.Config.Types.{Instance, Filters, copy, status_ok}

-- The loop over `filters.Types`.
any_type : Str → List Str → Bool
any_type url [] = false
any_type url (t ∷ ts) = if str_eq t url then true else any_type url ts

-- The filters that `add` stores.
abbrev pub with_default : Filters → Filters
with_default filters =
    if filters.status == 0 then record filters { status = status_ok } else filters

pub record Subscription (Msg : Type 0) : Type 0 where
  pub sent : List (Instance Msg)
  pub ch_closed : Bool
  pub filters : Filters

pub record Subscriptions (Msg : Type 0) : Type 0 where
  pub subs : List (Subscription Msg)
  pub closed : Bool

module _ {Msg : Type 0} where
  unfoldable pub matches : Instance Msg → Filters → Bool
  unfolding any_type
  matches instance_ filters =
      if not (filters.status == 0) && bit_and instance_.status filters.status == 0
      then false
      else if length filters.types == 0
      then true
      else any_type instance_.type_url filters.types

  -- The position of the new channel, or `none` for the nil channel.
  unfoldable pub add : Filters → Subscriptions Msg → Option ℕ × Subscriptions Msg
  add filters s = if s.closed then (none, s) else (
    some (length s.subs),
    record s {
      subs =
          s.subs ++ (record { sent = []; ch_closed = false; filters = with_default filters } ∷ []);
    },
  )

  -- The inner loop of `send`: what one subscription gets.
  unfoldable pub offer : List (Instance Msg) → Subscription Msg → Subscription Msg
  offer [] sub = sub
  offer (i ∷ is) sub =
      offer is
        (if matches i sub.filters then record sub { sent = sub.sent ++ (copy i ∷ []) } else sub)

  unfoldable pub offer_all : List (Instance Msg) → List (Subscription Msg) → List (Subscription Msg)
  offer_all is [] = []
  offer_all is (sub ∷ subs) = offer is sub ∷ offer_all is subs

  unfoldable pub send : List (Instance Msg) → Subscriptions Msg → Subscriptions Msg
  send instances s = if s.closed then s else record s { subs = offer_all instances s.subs }

  unfoldable pub close_all : List (Subscription Msg) → List (Subscription Msg)
  close_all [] = []
  close_all (sub ∷ subs) = record sub { ch_closed = true } ∷ close_all subs

  unfoldable pub close : Subscriptions Msg → Subscriptions Msg
  close s = if s.closed then s else record { subs = close_all s.subs; closed = true }
