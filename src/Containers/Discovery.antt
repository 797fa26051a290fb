-- ===== src/Containers/Discovery.antt =====
-- The scans of pkg/containers/discovery.go over the directory tree of the cgroups. Paths are clean; a
-- directory that cannot be read is an empty one.
pub mod Found
use system_agent.Prelude.{
  ℕ, Bool, true, false, ◌||◌, List, [], ◌∷◌, ◌++◌, Option, none, some, if◌then◌else◌, ◌==◌,
}
use system_agent.Prelude.Text.{Str, codes, str_eq}
use system_agent.Prelude.Result.{Result, ok, err}
use system_agent.Containers.Names.{ContainerRuntime, extract_container_id, detect_runtime_from_path}

-- What a directory holds, in the order of the names: each entry is in front of the rest.
pub data Entries : Type 0 where
  nothing : Entries
  file : Str → Entries → Entries
  directory : Str → Entries → Entries → Entries

-- The fields of Container that the scans set.
pub record Container : Type 0 where
  pub id : Str
  pub runtime : ContainerRuntime
  pub cgroup_path : Str
  pub cgroup_version : ℕ

pub data DiscoveryError : Type 0 where
  undetected_version : DiscoveryError
  subsystem_not_found : Str → DiscoveryError
  unsupported_version : ℕ → DiscoveryError

-- Whether os.Stat finds an entry.
unfoldable pub exists_ : Str → Entries → Bool
exists_ name nothing = false
exists_ name (file n rest) = str_eq n name || exists_ name rest
exists_ name (directory n below rest) = str_eq n name || exists_ name rest

-- What a subdirectory holds; nothing where there is none.
unfoldable pub entries_of : Str → Entries → Entries
entries_of name nothing = nothing
entries_of name (file n rest) = entries_of name rest
entries_of name (directory n below rest) =
    let found = entries_of name rest in if str_eq n name then below else found

abbrev pub join : Str → Str → Str
join path name = path ++ (b'/' ∷ name)

abbrev pub v1_controllers : List Str
v1_controllers =
    codes "cpu" ∷ codes "memory" ∷ codes "cpuacct" ∷ codes "blkio" ∷ codes "devices" ∷ []

-- The first of the names that exists.
unfoldable pub first_existing : List Str → Entries → Option Str
first_existing [] root = none
first_existing (name ∷ names) root =
    if exists_ name root then some name else first_existing names root

unfoldable pub detect_cgroup_version : Entries → Result DiscoveryError ℕ
detect_cgroup_version root =
    if exists_ (codes "cgroup.controllers") root
    then ok 2
    else elim (first_existing v1_controllers root) [ some _ ↦ ok 1 | none ↦ err undetected_version ]

abbrev pub prepend : Option Container → List Container → List Container
prepend none cs = cs
prepend (some c) cs = c ∷ cs

abbrev pub is_system_directory : Str → Bool
is_system_directory name =
    str_eq name (codes ".")
    || str_eq name (codes "..")
    || str_eq name (codes "init.scope")
    || str_eq name (codes "system.slice")
    || str_eq name (codes "user.slice")

-- `base` is the path of the scan's root, `rel` the rest of the path, from a slash.
module _ (version : ℕ) (base : Str) where
  -- The container of a directory's name, for a path that is `base` and `rel`.
  unfoldable pub container_at : Str → Option Container
  container_at rel = elim (extract_container_id rel) [
    | none ↦ none
    | some id ↦ some (record {
      id = id;
      runtime = detect_runtime_from_path rel;
      cgroup_path = base ++ rel;
      cgroup_version = version;
    })
  ]

  -- The walk of `scanCgroupV1Directory` below a directory.
  unfoldable pub walk_v1 : Str → Entries → List Container
  walk_v1 rel nothing = []
  walk_v1 rel (file n rest) = walk_v1 rel rest
  walk_v1 rel (directory n below rest) =
      prepend (container_at (join rel n)) (walk_v1 (join rel n) below) ++ walk_v1 rel rest

  -- One of its search paths, with the directory itself.
  abbrev pub search : Str → Entries → List Container
  search name root =
      if is_directory name root
      then prepend (container_at (join [] name)) (walk_v1 (join [] name) (entries_of name root))
      else []
    where
      is_directory : Str → Entries → Bool
      is_directory name nothing = false
      is_directory name (file n rest) = is_directory name rest
      is_directory name (directory n below rest) = str_eq n name || is_directory name rest

  unfoldable pub search_all : List Str → Entries → List Container
  search_all [] root = []
  search_all (name ∷ names) root = search name root ++ search_all names root

  -- The container of an entry of the root, which is named without a slash.
  abbrev pub direct_container : Str → Option Container
  direct_container name = elim (extract_container_id name) [
    | none ↦ none
    | some id ↦ some (record {
      id = id;
      runtime = detect_runtime_from_path name;
      cgroup_path = join base name;
      cgroup_version = version;
    })
  ]

  -- The loop over the entries of the root.
  unfoldable pub direct_containers : Entries → List Container
  direct_containers nothing = []
  direct_containers (file n rest) = direct_containers rest
  direct_containers (directory n below rest) =
      prepend (if is_system_directory n then none else direct_container n) (direct_containers rest)

  unfoldable pub scan_cgroup_v1_directory : Entries → List Container
  scan_cgroup_v1_directory root =
      search_all
        (codes "docker"
          ∷ codes "containerd"
          ∷ codes "system.slice"
          ∷ codes "crio"
          ∷ codes "machine.slice"
          ∷ [])
        root
      ++ direct_containers root

  -- A directory that is a container: named as one, and with a file cgroup.procs.
  unfoldable pub container_v2 : Str → Entries → Option Container
  container_v2 rel below = if exists_ (codes "cgroup.procs") below then container_at rel else none

  -- `scanCgroupV2Directory`, below a directory: it does not descend into containers.
  unfoldable pub scan_cgroup_v2_directory : Str → Entries → List Container
  scan_cgroup_v2_directory rel nothing = []
  scan_cgroup_v2_directory rel (file n rest) = scan_cgroup_v2_directory rel rest
  scan_cgroup_v2_directory rel (directory n below rest) =
      let inside = scan_cgroup_v2_directory (join rel n) below in
      let others = scan_cgroup_v2_directory rel rest in
      elim (container_v2 (join rel n) below) [ some c ↦ c ∷ others | none ↦ inside ++ others ]

-- seen[id], for the containers of a list
unfoldable pub seen : List Container → Str → Bool
seen [] id = false
seen (c ∷ cs) id = str_eq c.id id || seen cs id

-- The containers that the loop appends.
unfoldable pub unseen : List Container → List Container → List Container
unseen known [] = []
unseen known (c ∷ cs) = let rest = unseen known cs in if seen known c.id then rest else c ∷ rest

-- `cgroup_path` is the root's path, `root` what it holds.
module _ (cgroup_path : Str) (root : Entries) where
  unfoldable pub discover_containers : Str → ℕ → Result DiscoveryError (List Container)
  discover_containers subsystem version =
      if version == 1
      then (if exists_ subsystem root
          then ok
              (scan_cgroup_v1_directory 1 (join cgroup_path subsystem) (entries_of subsystem root))
          else err (subsystem_not_found subsystem))
      else if version == 2
      then ok (scan_cgroup_v2_directory 2 cgroup_path [] root)
      else err (unsupported_version version)

  abbrev pub v2_containers : List Container
  v2_containers = scan_cgroup_v2_directory 2 cgroup_path [] root

  abbrev pub v1_containers : List Container
  v1_containers = elim (first_existing v1_controllers root) [
    | none ↦ []
    | some subsystem ↦
        scan_cgroup_v1_directory 1 (join cgroup_path subsystem) (entries_of subsystem root)
  ]

  unfoldable pub discover_all_containers : List Container
  discover_all_containers = v2_containers ++ unseen v2_containers v1_containers
