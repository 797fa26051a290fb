-- ===== src/Store/Key.antt =====
-- The keys of the database: internal/resource/store/encode.go, and `buildKey` of store.go.
use system_agent.Prelude.{
  ℕ, ◌+◌, ◌-◌, ◌*◌, ◌/◌, ◌%◌, List, [], ◌∷◌, ◌++◌, Option, none, some, ◌==◌, ltb, if◌then◌else◌,
  length,
}
use system_agent.Prelude.Text.{Str, codes}
use system_agent.Prelude.Result.{Result, ok, err}
use system_agent.Store.Types.{
  unset, cloud, kube, ResourceRef, Resource, Failure, nil_ref, missing_type,
}

abbrev slash : Str
slash = codes "/"

-- The alphabet of base64.URLEncoding.
abbrev url_char : ℕ → ℕ
url_char n =
    if ltb n 26
    then b'A' + n
    else if ltb n 52
    then b'a' + (n - 26)
    else if ltb n 62
    then b'0' + (n - 52)
    else if n == 62
    then b'-'
    else b'_'

-- base64.URLEncoding.EncodeToString
unfoldable pub url_encode : Str → Str
url_encode [] = []
url_encode (a ∷ []) = url_char (a / 4) ∷ url_char ((a % 4) * 16) ∷ codes "=="
url_encode (a ∷ b ∷ []) =
    url_char (a / 4) ∷ url_char ((a % 4) * 16 + b / 16) ∷ url_char ((b % 16) * 4) ∷ codes "="
url_encode (a ∷ b ∷ c ∷ s) =
    url_char (a / 4)
    ∷ url_char ((a % 4) * 16 + b / 16)
    ∷ url_char ((b % 16) * 4 + c / 64)
    ∷ url_char (c % 64)
    ∷ url_encode s

-- `ref`
unfoldable pub ref : Resource → ResourceRef
ref r = record {
  type_url = elim r.type [ none ↦ [] | some t ↦ t.type ];
  name = elim r.metadata [ none ↦ [] | some m ↦ m.name ];
  namespace = elim r.metadata [ none ↦ none | some m ↦ m.namespace ];
}

-- The name with the namespace in front.
unfoldable pub qualified_name : ResourceRef → Str
qualified_name r = elim r.namespace [
  | none ↦ r.name
  | some ns ↦ elim ns [
    | unset ↦ r.name
    | cloud account region group ↦
        codes "cloud" ++ slash ++ account ++ slash ++ region ++ slash ++ group ++ slash ++ r.name
    | kube cluster namespace ↦
        codes "kube" ++ slash ++ cluster ++ slash ++ namespace ++ slash ++ r.name
  ]
]

unfoldable pub encode_resource_key : Option ResourceRef → Result Failure Str
encode_resource_key none = err nil_ref
encode_resource_key (some r) =
    if length r.type_url == 0
    then err missing_type
    else ok (r.type_url ++ slash ++ url_encode (qualified_name r))

unfoldable pub build_key : List Str → Str
build_key [] = []
build_key (p ∷ parts) =
    let rest = build_key parts in if length p == 0 then rest else b'/' ∷ p ++ rest

abbrev pub resource_key : Str
resource_key = codes "rsrc"

abbrev pub relationship_key : Str
relationship_key = codes "rel"

abbrev pub index : Str
index = codes "idx"

abbrev pub subject_idx : Str
subject_idx = codes "rel-subj"

abbrev pub object_idx : Str
object_idx = codes "rel-obj"

abbrev pub predicate_idx : Str
predicate_idx = codes "rel-predicate"
