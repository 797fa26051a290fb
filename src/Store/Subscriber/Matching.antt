-- ===== src/Store/Subscriber/Matching.antt =====
-- Which objects a subscriber hears of.
use mathlib.Core.Option
use system_agent.Prelude.{
  ℕ, zero, suc, ◌+◌, ◌<◌, ◌≡◌, ◌↔◌, ◌⊎◌, inl, inr, refl, ◌∙◌, ap, true, false, List, [], ◌∷◌, ◌++◌,
  Option, none, some, arith, length, length-append, ltb, get_elem?, Bool-cases, ◌==◌, ◌&&◌,
}
use system_agent.Prelude.Text.{Str, str_eq, str_eq_iff, split}
use system_agent.Store.Types.{TypeDescriptor, Event}
use system_agent.Store.Subscriber.{Subscriber, has_prefix, same_parts, any_prefix, matches}

-- The filter is the path, or the path goes on behind it.
abbrev pub IsPrefix : List Str → List Str → Type 0
IsPrefix prefix path = (rest : List Str) × (path ≡ prefix ++ rest)

same_parts_iff : (path prefix : List Str) → (same_parts path prefix ≡ true) ↔ IsPrefix prefix path
same_parts_iff path [] = (λ h. (path, refl), λ h. refl)
same_parts_iff [] (part ∷ prefix) = (λ h. absurd (ground arith), λ (rest, e). cc)
same_parts_iff (p ∷ path) (part ∷ prefix) =
    let (there_, back) = same_parts_iff path prefix in
    (
      λ h. elim (Bool-cases (str_eq p part)) [
        | inl same ↦
            let (rest, e) = there_ (rw same at h) in
            (rest, rw ((str_eq_iff p part).0 same) (ap (λ l. part ∷ l) e))
        | inr other ↦ absurd (let q = rw other at h in cc)
      ],
      λ (rest, e).
          let same : str_eq p part ≡ true = (str_eq_iff p part).1 cc in rw same (back (rest, cc)),
    )

-- `hasPrefix` decides whether the filter's parts stand at the front of the path.
pub has_prefix_iff :
    (path prefix : List Str) → (has_prefix path prefix ≡ true) ↔ IsPrefix prefix path
unfolding has_prefix
has_prefix_iff path prefix = (
  λ h. elim (Bool-cases (ltb (length path) (length prefix))) [
    | inl short ↦ absurd (let q = rw short at h in cc)
    | inr long ↦ (same_parts_iff path prefix).0 (rw long at h)
  ],
  λ (rest, e).
      let size : length path ≡ length prefix + length rest =
        ap length e ∙ length-append prefix rest in
      let long : ltb (length path) (length prefix) ≡ false = ground (arith, size) in
      rw long ((same_parts_iff path prefix).1 (rest, e)),
)

-- A subscription by kinds alone never hears of anything: the code answers no where it has no
-- filter of types.
pub matches_kinds_only :
    (s : Subscriber) (t : Option TypeDescriptor)
    → 0 < length s.kind_match
    → length s.type_match ≡ 0
    → matches s t ≡ false
unfolding matches
matches_kinds_only s none h e = ground arith
matches_kinds_only s (some t) h e = ground arith

-- Some filter stands at the front of the path.
abbrev pub HasFilter : List Str → List (List Str) → Type 0
HasFilter path ms = (i : ℕ) × (m : List Str) × (get_elem? ms i ≡ some m) × IsPrefix m path

any_prefix_iff :
    (path : List Str) (ms : List (List Str)) → (any_prefix path ms ≡ true) ↔ HasFilter path ms
unfolding any_prefix
any_prefix_iff path [] = (λ h. absurd (ground arith), λ (i, m, e, p). cc)
any_prefix_iff path (m ∷ ms) =
    let at = has_prefix_iff path m in
    let rest = any_prefix_iff path ms in
    (
      λ h. elim (Bool-cases (has_prefix path m)) [
        | inl on ↦ (zero, m, refl, at.0 on)
        | inr off ↦ let (i, n, e, p) = rest.0 (rw off at h) in (suc i, n, e, p)
      ],
      λ (i, n, e, p). elim (Bool-cases (has_prefix path m)) [
        | inl on ↦ rw on refl
        | inr off ↦ rw off (rest.1 (later i n e p off))
      ],
    )
  where
    later :
        (i : ℕ) (n : List Str)
        → get_elem? (m ∷ ms) i ≡ some n
        → IsPrefix n path
        → has_prefix path m ≡ false
        → HasFilter path ms
    later zero n e p off =
        absurd (let q = (has_prefix_iff path n).1 p in let same = Option.some-injective _ _ e in cc)
    later (suc i) n e p off = (i, n, e, p)

-- A subscriber with filters of types hears of an object of a type if one of those filters stands at
-- the front of its type, and, where it has filters of kinds, one of these at the front of its kind.
pub matches_iff :
    (s : Subscriber) (t : TypeDescriptor)
    → 0 < length s.type_match
    → (matches s (some t) ≡ true)
      ↔ ((length s.kind_match ≡ 0) ⊎ HasFilter (split t.kind b'.') s.kind_match)
        × HasFilter (split t.type b'.') s.type_match
unfolding matches
matches_iff s t h =
    let kinds = any_prefix_iff (split t.kind b'.') s.kind_match in
    let types = any_prefix_iff (split t.type b'.') s.type_match in
    let typed : (length s.kind_match == 0 && length s.type_match == 0) ≡ false = ground arith in
    let some_ : ltb 0 (length s.type_match) ≡ true = ground arith in
    elim (Bool-cases (ltb 0 (length s.kind_match))) [
      | inr none_ ↦
          let e : length s.kind_match ≡ 0 = ground arith in
          (
            λ q. (inl e, types.0 (rw (typed, none_, some_) at q)),
            λ (k, f). rw (typed, none_, some_) (types.1 f),
          )
      | inl kinded ↦ elim (Bool-cases (any_prefix (split t.kind b'.') s.kind_match)) [
        | inl on ↦ (
          λ q. (inr (kinds.0 on), types.0 (rw (typed, kinded, on, some_) at q)),
          λ (k, f). rw (typed, kinded, on, some_) (types.1 f),
        )
        | inr off ↦ (
          λ q. absurd (let z = rw (typed, kinded, off) at q in cc),
          λ (k, f). absurd (elim k [ inl e ↦ ground arith | inr g ↦ (let z = kinds.1 g in cc) ]),
        )
      ]
    ]

-- A subscriber hears of an object of a type, which may be nil: it has no filter, or the type is there
-- and is named by its filters. The second needs a filter of types.
abbrev pub Wants : Subscriber → Option TypeDescriptor → Type 0
Wants s type =
    ((length s.kind_match ≡ 0) × (length s.type_match ≡ 0))
    ⊎ ((t : TypeDescriptor) × (type ≡ some t)
        × ((length s.kind_match ≡ 0) ⊎ HasFilter (split t.kind b'.') s.kind_match)
        × HasFilter (split t.type b'.') s.type_match)

abbrev pub told : Event → Subscriber → Subscriber
told e s = record s { sent = s.sent ++ (e ∷ []) }
