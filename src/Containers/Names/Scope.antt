-- ===== src/Containers/Names/Scope.antt =====
-- The ID of a scope unit's name is what stands behind its last dash.
use mathlib.Core.List.{reverse, reverse-append}
use system_agent.Prelude.{
  ℕ, ◌+◌, ◌-◌, ◌<◌, Bool, true, false, ◌&&◌, [], ◌∷◌, ◌++◌, append_assoc, Option, none, some,
  Bool-cases, ◌==◌, lt→ltb, leb, length, length-append, take, drop, take-append_length,
  drop-append_length, if◌then◌else◌, ◌≡◌, ◌⊎◌, inl, inr, refl, sym, ap, ◌∙◌, arith,
}
use system_agent.Prelude.Text.{Str, codes, has_prefix, split}
use system_agent.Prelude.Search.{has_suffix, trim_suffix}
use system_agent.Containers.Names.{
  all_hex, is_hex_string, last_index, split_once, valid_id, or_else, behind_last_dash, scope_id,
  directory_id, last_part, extract_container_id, min_container_id_length,
}
use system_agent.Containers.Names.Extract.{IsContainerId, valid_id-accepts}

has_prefix-append : (x y : Str) → has_prefix (x ++ y) x ≡ true
unfolding has_prefix
has_prefix-append [] y = refl
has_prefix-append (c ∷ x) y = ground (arith, has_prefix-append x y)

has_suffix-append : (s suffix : Str) → has_suffix (s ++ suffix) suffix ≡ true
unfolding has_suffix
has_suffix-append s suffix =
    ap (λ r. has_prefix r (reverse suffix)) (reverse-append s suffix)
    ∙ has_prefix-append (reverse suffix) (reverse s)

trim_suffix-append : (s suffix : Str) → trim_suffix (s ++ suffix) suffix ≡ s
unfolding trim_suffix
trim_suffix-append s suffix =
    ap (λ b. if b then take (length (s ++ suffix) - length suffix) (s ++ suffix) else s ++ suffix)
      (has_suffix-append s suffix)
    ∙ take-append_length (length (s ++ suffix) - length suffix) s suffix
        (omega (arith, length-append s suffix))

last_index-hex : (id : Str) → all_hex id ≡ true → last_index id b'-' ≡ none
unfolding last_index
last_index-hex [] h = refl
last_index-hex (c ∷ id) h =
    rw (last_index-hex id (ground (arith, h)), last_index) (ground (arith, h))

last_index-dash :
    (q id : Str) → all_hex id ≡ true → last_index (q ++ (b'-' ∷ id)) b'-' ≡ some (length q)
unfolding last_index
last_index-dash [] id h = rw (last_index-hex id h, last_index) refl
last_index-dash (c ∷ q) id h = rw (last_index-dash q id h, last_index) (ap some (omega arith))

behind_last_dash-id :
    (q id : Str) → 0 < length q → IsContainerId id → behind_last_dash (q ++ (b'-' ∷ id)) ≡ some id
unfolding behind_last_dash
behind_last_dash-id q id n v =
    rw (last_index-dash q id v.hex, behind_last_dash)
      (rw (lt→ltb 0 (length q) n) (
        ap valid_id (
          ap (drop (length q + 1)) (sym (append_assoc q (b'-' ∷ []) id))
          ∙ drop-append_length (length q + 1) (q ++ (b'-' ∷ [])) id
              (omega (arith, length-append q (b'-' ∷ []))))
        ∙ valid_id-accepts id v))

all_hex-dash : (x y : Str) → all_hex (x ++ (b'-' ∷ y)) ≡ false
all_hex-dash [] y = refl
all_hex-dash (c ∷ x) y = ground (arith, all_hex-dash x y)

valid_id-dash : (x y : Str) → valid_id (x ++ (b'-' ∷ y)) ≡ none
unfolding valid_id is_hex_string
valid_id-dash [] y = refl
valid_id-dash (c ∷ x) y =
    let id = c ∷ (x ++ (b'-' ∷ y)) in
    ap (λ b. if b && leb min_container_id_length (length id) then some id else none)
      (all_hex-dash (c ∷ x) y)

-- The part behind the first dash: the ID, or a part that ends in a byte, a dash and the ID.
split_once-id :
    (p : Str) (c : ℕ) (id : Str)
    → (c == b'-') ≡ false
    → (l : Str) × (r : Str) × (split_once ((p ++ (c ∷ [])) ++ (b'-' ∷ id)) b'-' ≡ some (l, r))
      × ((r ≡ id) ⊎ ((b : Str) × (r ≡ (b ++ (c ∷ [])) ++ (b'-' ∷ id))))
unfolding split_once
split_once-id [] c id h = (c ∷ [], id, rw h refl, inl refl)
split_once-id (d ∷ p) c id h = elim (Bool-cases (d == b'-')) [
  | inl e ↦ ([], (p ++ (c ∷ [])) ++ (b'-' ∷ id), rw e refl, inr (p, refl))
  | inr e ↦
      let (l, r, s, known) = split_once-id p c id h in (d ∷ l, r, rw (e, s, split_once) refl, known)
]

simple-id :
    (r : Str) (c : ℕ) (id : Str)
    → (r ≡ id) ⊎ ((b : Str) × (r ≡ (b ++ (c ∷ [])) ++ (b'-' ∷ id)))
    → IsContainerId id
    → or_else (valid_id r) (behind_last_dash r) ≡ some id
simple-id r c id (inl e) v = rw e (rw (valid_id-accepts id v) refl)
simple-id r c id (inr (b, e)) v = rw e (
    rw (valid_id-dash (b ++ (c ∷ [])) id)
      (behind_last_dash-id (b ++ (c ∷ [])) id (omega (arith, length-append b (c ∷ []))) v))

or_else-same : (b : Bool) (a : Str) → or_else (if b then some a else none) (some a) ≡ some a
or_else-same true a = refl
or_else-same false a = refl

-- What `scope_id` does with a name behind cutting off its suffix.
abbrev inner : Str → Option Str
inner base =
    or_else (if has_prefix base (codes "cri-") then behind_last_dash base else none)
      (elim (split_once base b'-') [
        | none ↦ none
        | some (_, id) ↦ or_else (valid_id id) (behind_last_dash id)
      ])

inner-id :
    (p : Str) (c : ℕ) (id : Str)
    → (c == b'-') ≡ false
    → IsContainerId id
    → inner ((p ++ (c ∷ [])) ++ (b'-' ∷ id)) ≡ some id
inner-id p c id h v =
    let base = (p ++ (c ∷ [])) ++ (b'-' ∷ id) in
    let (l, r, s, known) = split_once-id p c id h in
    let cri = has_prefix base (codes "cri-") in
    ap
      (λ o. or_else (if cri then o else none) (elim (split_once base b'-') [
        | none ↦ none
        | some (_, id) ↦ or_else (valid_id id) (behind_last_dash id)
      ]))
      (behind_last_dash-id (p ++ (c ∷ [])) id (omega (arith, length-append p (c ∷ []))) v)
    ∙ ap
        (λ o.
          or_else (if cri then some id else none)
            (elim o [ none ↦ none | some (_, id) ↦ or_else (valid_id id) (behind_last_dash id) ]))
        s
    ∙ ap (or_else (if cri then some id else none)) (simple-id r c id known v)
    ∙ or_else-same cri id

-- The name of a scope unit that ends in a container ID behind a dash, whatever stands before the dash
-- but another dash: exactly that ID is extracted.
pub extract_container_id-scope :
    (p : Str) (c : ℕ) (id : Str)
    → (c == b'-') ≡ false
    → IsContainerId id
    → extract_container_id (((p ++ (c ∷ [])) ++ (b'-' ∷ id)) ++ codes ".scope") ≡ some id
unfolding extract_container_id scope_id
extract_container_id-scope p c id h v =
    let base = (p ++ (c ∷ [])) ++ (b'-' ∷ id) in
    let name = base ++ codes ".scope" in
    let found : scope_id name ≡ some id =
      ap (λ b. if b then inner (trim_suffix name (codes ".scope")) else none)
        (has_suffix-append base (codes ".scope"))
      ∙ ap inner (trim_suffix-append base (codes ".scope"))
      ∙ inner-id p c id h v in
    ap
      (λ o. or_else o (
        or_else (directory_id (split name b'/'))
          (or_else (valid_id (last_part (split name b'/'))) (valid_id name))))
      found
