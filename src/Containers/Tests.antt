-- ===== src/Containers/Tests.antt =====
-- Names and trees of cgroups.
use system_agent.Prelude.{◌||◌, [], some, ◌≡◌, refl, arith}
use system_agent.Prelude.Text.{Str, codes, str_eq, has_prefix, split}
use system_agent.Prelude.Search.{has_suffix, contains_str}
use system_agent.Containers.Names.{
  unknown, detect_runtime_from_path, extract_container_id, is_hex_string, valid_id, scope_id,
  directory_id,
}
use system_agent.Containers.Names.Extract.{IsContainerId}
use system_agent.Containers.Names.Scope.{extract_container_id-scope}
use system_agent.Containers.Discovery.{
  Entries, nothing, file, directory, exists_, first_existing, container_at, container_v2,
  scan_cgroup_v2_directory, seen, v1_containers, v2_containers, discover_all_containers,
}
use system_agent.Containers.Discovery.Found.{NoRepeat, discover_all-NoRepeat}

abbrev id : Str
id = codes "0123456789ab"

id-IsContainerId : IsContainerId id
id-IsContainerId = record { hex = refl; long = omega arith }

extract_container_id-scope_example :
    extract_container_id (codes "/system.slice/cri-containerd-0123456789ab.scope") ≡ some id
extract_container_id-scope_example =
    extract_container_id-scope (codes "/system.slice/cri-container") b'd' id refl id-IsContainerId

-- A container of Podman, whose units are named libpod, is of an unknown runtime.
libpod_runs : detect_runtime_from_path (codes "/machine.slice/libpod-0123456789ab.scope") ≡ unknown
unfolding detect_runtime_from_path contains_str has_prefix
libpod_runs = refl

-- One container of the second version, with a file cgroup.procs.
abbrev root : Entries
root = file (codes "cgroup.controllers") (
    directory (codes "docker") (directory id (file (codes "cgroup.procs") nothing) nothing) nothing)

discover_all-NoRepeat_example :
    NoRepeat (discover_all_containers [] root)
    × ((i : Str)
        → seen (discover_all_containers [] root) i
          ≡ (seen (v2_containers [] root) i || seen (v1_containers [] root) i))
unfolding scan_cgroup_v2_directory container_v2 container_at exists_ extract_container_id scope_id
    directory_id valid_id is_hex_string split str_eq has_suffix has_prefix first_existing seen
discover_all-NoRepeat_example = discover_all-NoRepeat [] root (refl, tt) tt
