-- ===== src/Config/Fs/Lifetime.antt =====
-- The life of a configuration in the file loader, from its file's writing to its removal.
use system_agent.Prelude.{
  ◌≡◌, refl, ap, ◌∙◌, true, false, [], ◌∷◌, Option, none, some, arith, if◌then◌else◌,
}
use system_agent.Prelude.Text.{Str, str_eq, str_eq_refl}
use system_agent.Prelude.Assoc.{lookup, insert, delete, lookup-insert, lookup-delete}
use system_agent.Prelude.Result.{ok}
use system_agent.Config.Types.{Instance, Object, cache_key}
use system_agent.Config.Parser.{Env, parse}
use system_agent.Config.Subscriptions
use system_agent.Config.Fs.{
  Decoders, FsLoader, FsEvent, is_config_file, read_object, store_file, load_config_file,
  process_config_file, handle_file_delete, handle_event,
}

-- The events that say that a file was written, and that it was removed.
abbrev pub write_event : Str → FsEvent
write_event name = record { name = name; create = false; write = true; remove = false }

abbrev pub remove_event : Str → FsEvent
remove_event name = record { name = name; create = false; write = false; remove = true }

module _ {Yaml Msg : Type 0} (decoders : Decoders Yaml) (env : Env Msg) where
  -- What is read of the file is an object that `Parse` accepts.
  pub record IsAcceptedFile (name : Str) (read : Option Str) (i : Instance Msg) : Type 0 where
    pub config : is_config_file name ≡ true
    pub object : Object
    pub read_is : read_object decoders name read ≡ ok object
    pub parsed : parse env (some object) ≡ (i, none)

  abbrev pub key_of : Instance Msg → Str
  key_of i = cache_key i.type_url i.name

  -- The loader behind the write of an accepted file.
  abbrev pub written : Str → Instance Msg → FsLoader Msg → FsLoader Msg
  written name i l = record l {
    subs = Subscriptions.send (i ∷ []) l.subs;
    cache = insert (key_of i) i l.cache;
    files = insert name (key_of i) l.files;
  }

  handle_event-write :
      (name : Str) (read : Option Str) (i : Instance Msg) (l : FsLoader Msg)
      → IsAcceptedFile name read i
      → handle_event decoders env (write_event name) read l ≡ written name i l
  unfolding handle_event process_config_file load_config_file store_file
  handle_event-write name read i l a =
      rw (a.config, process_config_file, load_config_file, a.read_is, store_file, a.parsed) refl

  handle_event-remove :
      (name : Str) (read : Option Str) (key : Str) (i : Instance Msg) (l : FsLoader Msg)
      → is_config_file name ≡ true
      → lookup name l.files ≡ some key
      → lookup key l.cache ≡ some i
      → handle_event decoders env (remove_event name) read l ≡ record l {
        cache = delete key l.cache;
        files = delete name l.files;
        subs = Subscriptions.send (record i { expired = true } ∷ []) l.subs;
      }
  unfolding handle_event handle_file_delete
  handle_event-remove name read key i l c f k = rw (c, handle_file_delete, f, k) refl

  -- A file that `Parse` accepts is written and then removed: its configuration is gone, every other
  -- one is as it was, and the subscribers were sent the instance, and then the instance as expired.
  pub handle_event-write_remove :
      (name : Str) (read read' : Option Str) (i : Instance Msg) (l : FsLoader Msg)
      → IsAcceptedFile name read i
      → (l' : FsLoader Msg) × (handle_event decoders env
            (remove_event name)
            read'
            (handle_event decoders env (write_event name) read l)
          ≡ l')
        × ((j : Str) → lookup j l'.cache ≡ (if str_eq (key_of i) j then none else lookup j l.cache))
        × (l'.subs
            ≡ Subscriptions.send
                (record i { expired = true } ∷ [])
                (Subscriptions.send (i ∷ []) l.subs))
  handle_event-write_remove name read read' i l a =
      let k = key_of i in
      let stored : lookup k (insert k i l.cache) ≡ some i =
        rw (lookup-insert k k i l.cache, str_eq_refl k) refl in
      let filed : lookup name (insert name k l.files) ≡ some k =
        rw (lookup-insert name name k l.files, str_eq_refl name) refl in
      (
        _,
        ap (handle_event decoders env (remove_event name) read')
              (handle_event-write name read i l a)
            ∙ handle_event-remove name read' k i (written name i l) a.config filed stored,
        (λ j. ground (arith, lookup-delete k j (insert k i l.cache), lookup-insert k j i l.cache)),
        refl,
      )

  -- A file that comes to hold a configuration of another name leaves the old one in the cache, where
  -- it stays when the file is removed.
  pub handle_event-renames :
      (name : Str) (read read' read'' : Option Str) (i i' : Instance Msg) (l : FsLoader Msg)
      → IsAcceptedFile name read i
      → IsAcceptedFile name read' i'
      → str_eq (key_of i') (key_of i) ≡ false
      → lookup
          (key_of i)
          (handle_event decoders env (remove_event name) read'' (
            handle_event decoders env
              (write_event name)
              read'
              (handle_event decoders env (write_event name) read l))).cache
        ≡ some i
  handle_event-renames name read read' read'' i i' l a a' n =
      let l₁ = handle_event decoders env (write_event name) read l in
      let (l', e, at, _) = handle_event-write_remove name read' read'' i' l₁ a' in
      ap (λ (x : FsLoader Msg). lookup (key_of i) x.cache) e
      ∙ at (key_of i)
      ∙ (rw n)
      ∙ ap (λ (x : FsLoader Msg). lookup (key_of i) x.cache) (handle_event-write name read i l a)
      ∙ lookup-insert (key_of i) (key_of i) i l.cache
      ∙ (rw (str_eq_refl (key_of i)))
