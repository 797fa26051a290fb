-- ===== src/Config/Parser/Outcome.antt =====
-- What `Parse` returns beside its error.
use system_agent.Prelude.{
  ◌≡◌, ◌≢◌, ◌⊎◌, inl, inr, refl, Option, none, some, Bool, true, false, if◌then◌else◌,
}
use system_agent.Prelude.Text.{Str}
use system_agent.Prelude.Result.{Result, ok, err}
use system_agent.Config.Types.{Instance, TypeDescriptor, Object, status_ok, status_invalid}
use system_agent.Config.Parser.{
  Env, Error, parse, parsed, run_parser, unchecked, parse_typed, parse_descriptor, config_parser,
  is_empty, type_empty, name_empty, payload_empty, unrecognized_type,
}

module _ {Msg : Type 0} where
  -- No error and a valid instance with an object, or an error and an invalid one without.
  abbrev pub Agrees : Instance Msg × Option Error → Type 0
  Agrees (i, e) =
      (e ≡ none) × (i.status ≡ status_ok) × (i.object ≢ none)
      ⊎ (e ≢ none) × (i.status ≡ status_invalid) × (i.object ≡ none)

  Agrees-if :
      (b : Bool) (x y : Instance Msg × Option Error)
      → Agrees x
      → Agrees y
      → Agrees (if b then x else y)
  Agrees-if true x y p q = p
  Agrees-if false x y p q = q

  refused :
      (i : Instance Msg) (e : Error)
      → i.object ≡ none
      → Agrees (record i { status = status_invalid }, some e)
  refused i e h = inr ((λ p. cc), refl, h)

module _ {Msg : Type 0} (env : Env Msg) where
  parsed-Agrees :
      (i : Instance Msg) (r : Result Error Msg) → i.object ≡ none → Agrees (parsed env i r)
  unfolding parsed
  parsed-Agrees i (ok m) h = inl (refl, refl, λ e. cc)
  parsed-Agrees i (err x) h = inr ((λ e. cc), refl, h)

  run_parser-Agrees :
      (i : Instance Msg) (o : Option (Str → Result Error Msg)) (p : Str)
      → i.object ≡ none
      → Agrees (run_parser env i o p)
  unfolding run_parser
  run_parser-Agrees i none p h = refused i unrecognized_type h
  run_parser-Agrees i (some parser) p h = parsed-Agrees i (parser p) h

  parse_typed-Agrees :
      (i : Instance Msg) (payload : Option Str)
      → i.object ≡ none
      → Agrees (parse_typed env i payload)
  unfolding parse_typed
  parse_typed-Agrees i none h =
      Agrees-if (is_empty i.type_url) _ _ (refused i type_empty h)
        (Agrees-if (is_empty i.name) _ _ (refused i name_empty h) (refused i payload_empty h))
  parse_typed-Agrees i (some p) h = Agrees-if (is_empty i.type_url) _ _ (refused i type_empty h) (
      Agrees-if (is_empty i.name) _ _ (refused i name_empty h)
        (run_parser-Agrees i (config_parser env i.type_url) p h))

  parse_descriptor-Agrees :
      (obj : Object) (d : Option TypeDescriptor) → Agrees (parse_descriptor env obj d)
  unfolding parse_descriptor
  parse_descriptor-Agrees obj none = inr ((λ e. cc), refl, refl)
  parse_descriptor-Agrees obj (some d) = parse_typed-Agrees (unchecked env obj d) obj.payload refl

  -- `Parse` returns no error, StatusOK and an object, or an error, StatusInvalid and no object.
  pub parse-Agrees : (obj : Option Object) → Agrees (parse env obj)
  unfolding parse
  parse-Agrees none = inr ((λ e. cc), refl, refl)
  parse-Agrees (some obj) = parse_descriptor-Agrees obj obj.type
