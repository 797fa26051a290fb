-- ===== src/Containers/Discovery/Found.antt =====
-- What the scans find: containers with IDs, and of each ID one, where both hierarchies are scanned.
use system_agent.Prelude.{
  ℕ, Bool, true, false, ◌||◌, List, [], ◌∷◌, ◌++◌, Option, none, some, if◌then◌else◌, Bool-cases,
  ◌≡◌, ◌≢◌, refl, sym, ap, ◌∙◌, inl, inr, arith,
}
use mathlib.Core.Path.{subst}
use system_agent.Prelude.Text.{Str, str_eq, str_eq_refl, eq_of_str_eq}
use system_agent.Containers.Names.{extract_container_id}
use system_agent.Containers.Names.Extract.{IsContainerId, Sound, extract_container_id-Sound}
use system_agent.Containers.Discovery.{
  Entries, nothing, file, directory, Container, container_at, prepend, walk_v1, search_all,
  direct_container, direct_containers, scan_cgroup_v1_directory, container_v2,
  scan_cgroup_v2_directory, seen, unseen, v2_containers, v1_containers, discover_all_containers,
  join, is_system_directory, first_existing, v1_controllers, entries_of,
}

false-ne-true : false ≢ true
false-ne-true e = cc

-- Every container of a list has an ID.
abbrev pub AllIdentified : List Container → Type 0
AllIdentified [] = Unit
AllIdentified (c ∷ cs) = IsContainerId c.id × AllIdentified cs

-- No two containers of a list have one ID.
abbrev pub NoRepeat : List Container → Type 0
NoRepeat [] = Unit
NoRepeat (c ∷ cs) = (seen cs c.id ≡ false) × NoRepeat cs

abbrev Identified : Option Container → Type 0
Identified none = Unit
Identified (some c) = IsContainerId c.id

append-AllIdentified :
    (xs ys : List Container) → AllIdentified xs → AllIdentified ys → AllIdentified (xs ++ ys)
append-AllIdentified [] ys p q = q
append-AllIdentified (x ∷ xs) ys (h, p) q = (h, append-AllIdentified xs ys p q)

if-Identified :
    (b : Bool) (o : Option Container) → Identified o → Identified (if b then o else none)
if-Identified true o p = p
if-Identified false o p = tt

-- A container whose ID is what was extracted.
identified :
    (o : Option Str) (make : Str → Container)
    → ((id : Str) → (make id).id ≡ id)
    → Sound o
    → Identified (elim o [ none ↦ none | some id ↦ some (make id) ])
identified none make e s = tt
identified (some id) make e s = subst IsContainerId (sym (e id)) s

if-AllIdentified :
    (b : Bool) (cs : List Container) → AllIdentified cs → AllIdentified (if b then cs else [])
if-AllIdentified true cs p = p
if-AllIdentified false cs p = tt

prepend-AllIdentified :
    (o : Option Container) (cs : List Container)
    → Identified o
    → AllIdentified cs
    → AllIdentified (prepend o cs)
prepend-AllIdentified none cs h p = p
prepend-AllIdentified (some c) cs h p = (h, p)

pick-AllIdentified :
    (o : Option Container) (inside others : List Container)
    → Identified o
    → AllIdentified inside
    → AllIdentified others
    → AllIdentified (elim o [ some c ↦ c ∷ others | none ↦ inside ++ others ])
pick-AllIdentified none inside others h p q = append-AllIdentified inside others p q
pick-AllIdentified (some c) inside others h p q = (h, q)

module _ (version : ℕ) (base : Str) where
  container_at-Identified : (rel : Str) → Identified (container_at version base rel)
  unfolding container_at
  container_at-Identified rel =
      identified (extract_container_id rel) _ (λ id. refl) (extract_container_id-Sound rel)

  walk_v1-AllIdentified : (rel : Str) (es : Entries) → AllIdentified (walk_v1 version base rel es)
  unfolding walk_v1
  walk_v1-AllIdentified rel nothing = tt
  walk_v1-AllIdentified rel (file n rest) = walk_v1-AllIdentified rel rest
  walk_v1-AllIdentified rel (directory n below rest) =
      append-AllIdentified _ _
        (prepend-AllIdentified _ _ (container_at-Identified (join rel n))
          (walk_v1-AllIdentified (join rel n) below))
        (walk_v1-AllIdentified rel rest)

  search_all-AllIdentified :
      (names : List Str) (root : Entries) → AllIdentified (search_all version base names root)
  unfolding search_all
  search_all-AllIdentified [] root = tt
  search_all-AllIdentified (name ∷ names) root =
      append-AllIdentified _ _
        (if-AllIdentified _ _ (
          prepend-AllIdentified _ _ (container_at-Identified (join [] name))
            (walk_v1-AllIdentified (join [] name) (entries_of name root))))
        (search_all-AllIdentified names root)

  direct_containers-AllIdentified :
      (es : Entries) → AllIdentified (direct_containers version base es)
  unfolding direct_containers
  direct_containers-AllIdentified nothing = tt
  direct_containers-AllIdentified (file n rest) = direct_containers-AllIdentified rest
  direct_containers-AllIdentified (directory n below rest) =
      prepend-AllIdentified _ _ (direct (is_system_directory n))
        (direct_containers-AllIdentified rest)
    where
      direct : (b : Bool) → Identified (if b then none else direct_container version base n)
      direct true = tt
      direct false =
          identified (extract_container_id n) _ (λ id. refl) (extract_container_id-Sound n)

  container_v2-Identified :
      (rel : Str) (below : Entries) → Identified (container_v2 version base rel below)
  unfolding container_v2
  container_v2-Identified rel below = if-Identified _ _ (container_at-Identified rel)

  scan_v2-AllIdentified :
      (rel : Str) (es : Entries) → AllIdentified (scan_cgroup_v2_directory version base rel es)
  unfolding scan_cgroup_v2_directory
  scan_v2-AllIdentified rel nothing = tt
  scan_v2-AllIdentified rel (file n rest) = scan_v2-AllIdentified rel rest
  scan_v2-AllIdentified rel (directory n below rest) =
      pick-AllIdentified (container_v2 version base (join rel n) below) _ _
        (container_v2-Identified (join rel n) below) (scan_v2-AllIdentified (join rel n) below)
        (scan_v2-AllIdentified rel rest)

  scan_v1-AllIdentified :
      (root : Entries) → AllIdentified (scan_cgroup_v1_directory version base root)
  unfolding scan_cgroup_v1_directory
  scan_v1-AllIdentified root =
      append-AllIdentified _ _ (search_all-AllIdentified _ root)
        (direct_containers-AllIdentified root)

unseen-AllIdentified :
    (known cs : List Container) → AllIdentified cs → AllIdentified (unseen known cs)
unfolding unseen
unseen-AllIdentified known [] p = tt
unseen-AllIdentified known (c ∷ cs) (h, p) = elim (Bool-cases (seen known c.id)) [
  | inl e ↦ rw e (unseen-AllIdentified known cs p)
  | inr e ↦ rw e (h, unseen-AllIdentified known cs p)
]

seen-append : (xs ys : List Container) (id : Str) → seen (xs ++ ys) id ≡ (seen xs id || seen ys id)
unfolding seen
seen-append [] ys id = refl
seen-append (x ∷ xs) ys id = ground (arith, seen-append xs ys id)

seen-unseen :
    (known cs : List Container) (id : Str)
    → (seen known id || seen (unseen known cs) id) ≡ (seen known id || seen cs id)
unfolding unseen seen
seen-unseen known [] id = refl
seen-unseen known (c ∷ cs) id =
    let same : str_eq c.id id ≡ true → seen known c.id ≡ seen known id =
      λ e. ap (seen known) (eq_of_str_eq c.id id e) in
    elim (Bool-cases (seen known c.id)) [
      | inl e ↦ rw e (
          known_lem (seen known id) (str_eq c.id id) _ _ (λ h. sym (same h) ∙ e)
            (seen-unseen known cs id))
      | inr e ↦ rw e (new_lem (seen known id) (str_eq c.id id) _ _ (seen-unseen known cs id))
    ]
  where
    known_lem :
        (k s u r : Bool) → (s ≡ true → k ≡ true) → (k || u) ≡ (k || r) → (k || u) ≡ (k || (s || r))
    known_lem true s u r h e = refl
    known_lem false true u r h e = absurd (false-ne-true (h refl))
    known_lem false false u r h e = e

    new_lem : (k s u r : Bool) → (k || u) ≡ (k || r) → (k || (s || u)) ≡ (k || (s || r))
    new_lem true s u r e = refl
    new_lem false true u r e = refl
    new_lem false false u r e = e

unseen-fresh :
    (known cs : List Container) (id : Str) → seen cs id ≡ false → seen (unseen known cs) id ≡ false
unfolding unseen seen
unseen-fresh known [] id h = refl
unseen-fresh known (c ∷ cs) id h = elim (Bool-cases (seen known c.id)) [
  | inl e ↦ rw e (unseen-fresh known cs id (ground (arith, h)))
  | inr e ↦ rw e (ground (arith, h, unseen-fresh known cs id))
]

unseen-known :
    (known cs : List Container) (id : Str)
    → seen known id ≡ true
    → seen (unseen known cs) id ≡ false
unfolding unseen seen
unseen-known known [] id h = refl
unseen-known known (c ∷ cs) id h = elim (Bool-cases (seen known c.id)) [
  | inl e ↦ rw e (unseen-known known cs id h)
  | inr e ↦ rw e (
      or_false (str_eq c.id id) _ (λ s. sym e ∙ ap (seen known) (eq_of_str_eq c.id id s) ∙ h)
        (unseen-known known cs id h))
]
  where
    or_false : (s r : Bool) → (s ≡ true → false ≡ true) → r ≡ false → (s || r) ≡ false
    or_false true r h e = sym (h refl)
    or_false false r h e = e

unseen-NoRepeat : (known cs : List Container) → NoRepeat cs → NoRepeat (unseen known cs)
unfolding unseen
unseen-NoRepeat known [] p = tt
unseen-NoRepeat known (c ∷ cs) (h, p) = elim (Bool-cases (seen known c.id)) [
  | inl e ↦ rw e (unseen-NoRepeat known cs p)
  | inr e ↦ rw e (unseen-fresh known cs c.id h, unseen-NoRepeat known cs p)
]

append-NoRepeat :
    (xs ys : List Container)
    → NoRepeat xs
    → NoRepeat ys
    → ((id : Str) → seen xs id ≡ true → seen ys id ≡ false)
    → NoRepeat (xs ++ ys)
unfolding seen
append-NoRepeat [] ys p q apart = q
append-NoRepeat (x ∷ xs) ys (h, p) q apart = (
  seen-append xs ys x.id
      ∙ both_false _ _ h (apart x.id (ap (λ b. b || seen xs x.id) (str_eq_refl x.id))),
  append-NoRepeat xs ys p q (λ id e. apart id (or_true (str_eq x.id id) (seen xs id) e)),
)
  where
    both_false : (a b : Bool) → a ≡ false → b ≡ false → (a || b) ≡ false
    both_false a b p q = rw (p, q) refl

    or_true : (a b : Bool) → b ≡ true → (a || b) ≡ true
    or_true true b e = refl
    or_true false b e = e

-- Every container that the discovery of all containers returns has an ID of at least twelve
-- hexadecimal digits.
pub discover_all-AllIdentified :
    (cgroup_path : Str) (root : Entries) → AllIdentified (discover_all_containers cgroup_path root)
unfolding discover_all_containers
discover_all-AllIdentified cgroup_path root =
    append-AllIdentified _ _ (scan_v2-AllIdentified 2 cgroup_path [] root)
      (unseen-AllIdentified _ _ (v1 (first_existing v1_controllers root)))
  where
    v1 :
        (o : Option Str)
        → AllIdentified (elim o [
          | none ↦ []
          | some subsystem ↦
              scan_cgroup_v1_directory 1 (join cgroup_path subsystem) (entries_of subsystem root)
        ])
    v1 none = tt
    v1 (some subsystem) =
        scan_v1-AllIdentified 1 (join cgroup_path subsystem) (entries_of subsystem root)

-- Where neither scan repeats an ID, the discovery of all containers repeats none, and it finds an ID
-- exactly if one of the scans does.
pub discover_all-NoRepeat :
    (cgroup_path : Str) (root : Entries)
    → NoRepeat (v2_containers cgroup_path root)
    → NoRepeat (v1_containers cgroup_path root)
    → NoRepeat (discover_all_containers cgroup_path root)
      × ((id : Str)
          → seen (discover_all_containers cgroup_path root) id ≡ (
              seen (v2_containers cgroup_path root) id || seen (v1_containers cgroup_path root) id))
unfolding discover_all_containers
discover_all-NoRepeat cgroup_path root p q =
    let v2 = v2_containers cgroup_path root in
    let v1 = v1_containers cgroup_path root in
    (
      append-NoRepeat v2 (unseen v2 v1) p (unseen-NoRepeat v2 v1 q) (unseen-known v2 v1),
      λ id. seen-append v2 (unseen v2 v1) id ∙ seen-unseen v2 v1 id,
    )
