-- ===== src/Performance/Capabilities.antt =====
-- pkg/performance/capabilities: the capabilities of the process, read from /proc/self/status. The
-- file is an argument, `none` where it cannot be read.
use system_agent.Prelude.{
  ℕ, ◌%◌, ◌/◌, ◌^◌, Bool, true, false, not, ◌&&◌, ◌||◌, List, [], ◌∷◌, ◌++◌, Option, none, some,
  ◌==◌, length, if◌then◌else◌, ◌≡◌, refl, Bool-cases, ==_iff, ap, inl, inr, arith,
}
use system_agent.Prelude.Text.{Str, codes, has_prefix, split, fields}
use system_agent.Prelude.Hex.{parse_uint_hex}
use system_agent.Prelude.Result.{Result, ok, err}

-- The `int` of the source, which is a bit's position.
abbrev pub Capability : Type 0
Capability = ℕ

abbrev pub cap_sys_admin : Capability
cap_sys_admin = 21

abbrev pub cap_syslog : Capability
cap_syslog = 34

abbrev pub cap_bpf : Capability
cap_bpf = 39

abbrev pub cap_perfmon : Capability
cap_perfmon = 38

-- The result of `GetEBPFCapabilities`, with the answer of `IsAtLeast(5, 8)` for the kernel, `none`
-- where its version is not known.
unfoldable pub get_ebpf_capabilities : Option Bool → List Capability
get_ebpf_capabilities none = cap_sys_admin ∷ []
get_ebpf_capabilities (some true) = cap_bpf ∷ cap_perfmon ∷ []
get_ebpf_capabilities (some false) = cap_sys_admin ∷ []

abbrev pub check_caps : List Capability
check_caps = cap_sys_admin ∷ cap_syslog ∷ cap_bpf ∷ cap_perfmon ∷ []

-- capValue&(1<<uint(cap)) != 0
abbrev pub has_bit : ℕ → Capability → Bool
has_bit value cap = not ((value / 2 ^ cap) % 2 == 0)

abbrev pub set_bits : ℕ → List Capability → List Capability
set_bits value [] = []
set_bits value (cap ∷ caps) =
    let rest = set_bits value caps in if has_bit value cap then cap ∷ rest else rest

-- The value of a line, where the loop does not go on to the next.
unfoldable pub cap_eff : Str → Option ℕ
cap_eff line =
    if has_prefix line (codes "CapEff:")
    then elim (fields line) [
      | [] ↦ none
      | label ∷ rest ↦ elim rest [
        | [] ↦ none
        | value ∷ more ↦ elim more [ [] ↦ parse_uint_hex (2 ^ 64) value | _ ∷ _ ↦ none ]
      ]
    ]
    else none

unfoldable pub effective_of : List Str → List Capability
effective_of [] = []
effective_of (line ∷ lines) = elim (cap_eff line) [
  | none ↦ effective_of lines
  | some value ↦ set_bits value check_caps
]

-- The keys of the map.
unfoldable pub get_current_capabilities : Option Str → Option (List Capability)
get_current_capabilities none = none
get_current_capabilities (some status) = some (effective_of (split status 10))

unfoldable pub has_capability : List Capability → Capability → Bool
has_capability [] cap = false
has_capability (c ∷ caps) cap = c == cap || has_capability caps cap

unfoldable pub missing_of : List Capability → List Capability → List Capability
missing_of current [] = []
missing_of current (cap ∷ required) =
    let rest = missing_of current required in
    if has_capability current cap then rest else cap ∷ rest

pub data StatusError : Type 0 where
  unreadable_status : StatusError

-- On Linux.
unfoldable pub has_all_capabilities :
    Option Str → List Capability → Result StatusError (Bool × List Capability)
has_all_capabilities status [] = ok (true, [])
has_all_capabilities status (cap ∷ required) = elim (get_current_capabilities status) [
  | none ↦ err unreadable_status
  | some current ↦
      let missing = missing_of current (cap ∷ required) in ok (length missing == 0, missing)
]

-- Each of the capabilities is held.
abbrev pub AllHeld : List Capability → List Capability → Type 0
AllHeld current [] = Unit
AllHeld current (cap ∷ required) = (has_capability current cap ≡ true) × AllHeld current required

pub missing_of-nil :
    (current required : List Capability)
    → AllHeld current required
    → missing_of current required ≡ []
unfolding missing_of
missing_of-nil current [] h = refl
missing_of-nil current (cap ∷ required) (h, hs) = rw h (missing_of-nil current required hs)

pub AllHeld-missing_of :
    (current required : List Capability)
    → length (missing_of current required) ≡ 0
    → AllHeld current required
unfolding missing_of
AllHeld-missing_of current [] h = tt
AllHeld-missing_of current (cap ∷ required) h = elim (Bool-cases (has_capability current cap)) [
  | inl held ↦ (held, AllHeld-missing_of current required (rw held at h))
  | inr lacks ↦ absurd (omega (arith, rw lacks at h))
]

set_bits_step :
    (b b' held : Bool) (c cap : Capability) (rest : List Capability)
    → ((c == cap) ≡ true → b ≡ b')
    → has_capability rest cap ≡ (held && b')
    → has_capability (if b then c ∷ rest else rest) cap ≡ ((c == cap || held) && b')
unfolding has_capability
set_bits_step true b' held c cap rest same h = ground arith
set_bits_step false b' held c cap rest same h = ground arith

-- Of the capabilities that are checked, those are held whose bits are set.
pub has_capability-set_bits :
    (value : ℕ) (caps : List Capability) (cap : Capability)
    → has_capability (set_bits value caps) cap ≡ (has_capability caps cap && has_bit value cap)
unfolding has_capability
has_capability-set_bits value [] cap = refl
has_capability-set_bits value (c ∷ caps) cap =
    set_bits_step (has_bit value c) (has_bit value cap) (has_capability caps cap) c cap
      (set_bits value caps) (λ e. ap (has_bit value) ((==_iff c cap).0 e))
      (has_capability-set_bits value caps cap)

-- Each of the capabilities is one of the four that are looked at, and its bit is set.
abbrev pub AllSet : ℕ → List Capability → Type 0
AllSet value [] = Unit
AllSet value (cap ∷ required) =
    ((has_capability check_caps cap && has_bit value cap) ≡ true) × AllSet value required

-- No line before the one that counts has a value.
abbrev pub NoneCounts : List Str → Type 0
NoneCounts [] = Unit
NoneCounts (line ∷ lines) = (cap_eff line ≡ none) × NoneCounts lines

pub effective_of_lem :
    (before after : List Str) (line : Str) (value : ℕ)
    → NoneCounts before
    → cap_eff line ≡ some value
    → effective_of (before ++ (line ∷ after)) ≡ set_bits value check_caps
unfolding effective_of
effective_of_lem [] after line value n e = rw (e, effective_of) refl
effective_of_lem (l ∷ before) after line value (n, ns) e =
    rw (n, effective_of) (effective_of_lem before after line value ns e)
