-- ===== src/Config/Subscriptions/Delivery.antt =====
-- What the subscribers of a loader receive.
use system_agent.Prelude.{
  ℕ, zero, suc, true, false, List, [], ◌∷◌, ◌++◌, append_assoc, append-nil, none, some, ◌≡◌, refl,
  sym, ap, if◌then◌else◌, get_elem?, Bool-cases, inl, inr,
}
use system_agent.Config.Types.{Instance, Filters}
use system_agent.Config.Subscriptions.{
  Subscription, Subscriptions, matches, add, offer, offer_all, send, close, close_all,
}

module _ {Msg : Type 0} where
  -- The instances that match, in order.
  pub matching : List (Instance Msg) → Filters → List (Instance Msg)
  matching [] f = []
  matching (i ∷ is) f = if matches i f then i ∷ matching is f else matching is f

  offer_lem :
      (is : List (Instance Msg)) (sub : Subscription Msg)
      → offer is sub ≡ record sub { sent = sub.sent ++ matching is sub.filters }
  unfolding offer matching
  offer_lem [] sub = ap (λ l. record sub { sent = l }) (sym (append-nil sub.sent))
  offer_lem (i ∷ is) sub = elim (Bool-cases (matches i sub.filters)) [
    | inl h ↦ rw (h, offer_lem is, append_assoc)
    | inr h ↦ rw (h, offer_lem is)
  ]

  pub get_elem?-offer_all :
      (is : List (Instance Msg)) (subs : List (Subscription Msg)) (k : ℕ)
      → get_elem? (offer_all is subs) k ≡ elim (get_elem? subs k) [
        | none ↦ none
        | some sub ↦ some (record sub { sent = sub.sent ++ matching is sub.filters })
      ]
  unfolding offer_all
  get_elem?-offer_all is [] k = refl
  get_elem?-offer_all is (sub ∷ subs) zero = ap some (offer_lem is sub)
  get_elem?-offer_all is (sub ∷ subs) (suc k) = get_elem?-offer_all is subs k

  -- A send on open subscriptions appends to each channel exactly the instances that its filters
  -- match, in the order of the send, and changes nothing else of the subscription.
  pub send_lem :
      (is : List (Instance Msg)) (s : Subscriptions Msg) (k : ℕ) (sub : Subscription Msg)
      → s.closed ≡ false
      → get_elem? s.subs k ≡ some sub
      → get_elem? (send is s).subs k
        ≡ some (record sub { sent = sub.sent ++ matching is sub.filters })
  unfolding send
  send_lem is s k sub h e = rw h (rw (get_elem?-offer_all is s.subs k, e))

  close_all_lem :
      (subs : List (Subscription Msg)) (k : ℕ) (sub : Subscription Msg)
      → get_elem? (close_all subs) k ≡ some sub
      → sub.ch_closed ≡ true
  unfolding close_all
  close_all_lem [] k sub e = cc
  close_all_lem (s ∷ subs) zero sub e = cc
  close_all_lem (s ∷ subs) (suc k) sub e = close_all_lem subs k sub e

  -- Closing open subscriptions closes every channel; after that nothing can be subscribed or sent,
  -- and closing again changes nothing.
  pub close_lem :
      (is : List (Instance Msg)) (f : Filters) (s : Subscriptions Msg)
      → s.closed ≡ false
      → ((k : ℕ) (sub : Subscription Msg)
          → get_elem? (close s).subs k ≡ some sub
          → sub.ch_closed ≡ true)
        × (add f (close s) ≡ (none, close s))
        × (send is (close s) ≡ close s)
        × (close (close s) ≡ close s)
  unfolding close add send
  close_lem is f s h = rw h (close_all_lem s.subs, refl, refl, refl)
