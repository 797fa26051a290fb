-- ===== src/Store/Resources/Closing.antt =====
-- The store behind `Close`.
use mathlib.Core.Option
use system_agent.Prelude.{
  ℕ, zero, suc, ◌≡◌, refl, sym, ap, true, false, List, [], ◌∷◌, Option, none, some, get_elem?,
}
use system_agent.Prelude.Int.{ℤ}
use system_agent.Prelude.Result.{err}
use system_agent.Store.Types.{TypeDescriptor, ResourceRef, Resource, closed}
use system_agent.Store.Subscriber.{Subscriber, close_all}
use system_agent.Store.Database.{Badger}
use system_agent.Store.Resources.{
  Codec, Store, add_resource, update_resource, get_resource, subscribe, close,
}

close_all-closes :
    (ss : List Subscriber) (k : ℕ) (sub : Subscriber)
    → get_elem? (close_all ss) k ≡ some sub
    → sub.ch_closed ≡ true
unfolding close_all
close_all-closes [] k sub h = cc
close_all-closes (s ∷ ss) zero sub h =
    ap (λ (x : Subscriber). x.ch_closed) (sym (Option.some-injective _ _ h))
close_all-closes (s ∷ ss) (suc k) sub h = close_all-closes ss k sub h

-- Closing an open store closes the channel of every subscriber; behind that nobody can subscribe,
-- resources can neither be read nor written, and closing again changes nothing.
pub close-closes :
    {Db : Type 0} (badger : Badger Db) (codec : Codec) (s : Store Db) (now : ℤ) (rsrc : Resource)
    (q : Option ResourceRef) (types : List (Option TypeDescriptor))
    → s.closed ≡ false
    → ((k : ℕ) (sub : Subscriber)
        → get_elem? (close badger codec s).subscribers k ≡ some sub
        → sub.ch_closed ≡ true)
      × (subscribe badger codec types (close badger codec s) ≡ (none, close badger codec s))
      × (add_resource badger codec now rsrc (close badger codec s) ≡ err closed)
      × (update_resource badger codec now rsrc (close badger codec s) ≡ err closed)
      × (get_resource badger codec q (close badger codec s) ≡ err closed)
      × (close badger codec (close badger codec s) ≡ close badger codec s)
unfolding close subscribe add_resource update_resource get_resource
close-closes badger codec s now rsrc q types o =
    rw o ((λ k sub h. close_all-closes s.subscribers k sub h), refl, refl, refl, refl, refl)
