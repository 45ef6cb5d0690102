-- ===== src/Compose/Utils/Mounts.antt =====
-- compose/utils.ts and compose/service.ts: the volumes of a service as the engine mounts them.
pub mod RoundTrip
pub mod Sorted
use balena_supervisor.Common.{
  ℕ, String, Bool, true, false, List, [], ◌∷◌, ◌++◌, Option, none, some, map, str_eq, ◌==◌,
  if◌then◌else◌,
}
use balena_supervisor.Common.Texts.{has_char}
use balena_supervisor.Compose.ServiceTypes.{
  MountType, LongDefinition, VolumeDefinition, short, long,
}
use balena_supervisor.Compose.Utils.Networks.{uniq}

-- Dockerode.MountSettings; a field is none where the object has no such key.
pub record DockerMount : Type 0 where
  pub kind : MountType
  pub target : String
  pub source : Option String
  pub read_only : Option Bool
  -- BindOptions.Propagation, VolumeOptions.NoCopy and TmpfsOptions.SizeBytes
  pub propagation : Option String
  pub no_copy : Option Bool
  pub size_bytes : Option ℕ

-- a value that is set and is true
unfoldable pub if_true : Option Bool → Option Bool
if_true (some true) = some true
if_true _ = none

-- a value that is set and is not the empty string
unfoldable pub if_text : Option String → Option String
if_text none = none
if_text (some s) = if str_eq s "" then none else some s

-- a value that is set and is not 0
unfoldable pub if_positive : Option ℕ → Option ℕ
if_positive none = none
if_positive (some n) = if n == 0 then none else some n

unfoldable pub service_mount_to_docker_mount : LongDefinition → DockerMount
unfolding if_true
service_mount_to_docker_mount d = record {
  kind = d.kind;
  target = d.target;
  source = d.source;
  read_only = if_true d.read_only;
  propagation = d.propagation;
  no_copy = d.nocopy;
  size_bytes = d.size;
}

unfoldable pub docker_mount_to_service_mount : DockerMount → LongDefinition
unfolding if_true if_text if_positive
docker_mount_to_service_mount m = record {
  kind = m.kind;
  target = m.target;
  source = if_text m.source;
  read_only = if_true m.read_only;
  propagation = if_text m.propagation;
  nocopy = if_true m.no_copy;
  size = if_positive m.size_bytes;
}

-- `binds`, `mounts`, and the keys of `volumes`
pub record Mounted : Type 0 where
  pub binds : List String
  pub mounts : List DockerMount
  pub volumes : List String

-- volumes[key] = {}
add_key : String → List String → List String
add_key key [] = key ∷ []
add_key key (k ∷ keys) = if str_eq k key then k ∷ keys else k ∷ add_key key keys

-- one round of the loop of getBindsMountsAndVolumes
unfoldable pub mount_one : Mounted → VolumeDefinition → Mounted
unfolding add_key service_mount_to_docker_mount
mount_one m (long d) = record m { mounts = m.mounts ++ service_mount_to_docker_mount d ∷ [] }
mount_one m (short s) =
    if has_char b':' s
    then record m { binds = m.binds ++ s ∷ [] }
    else record m { volumes = add_key s m.volumes }

mount_all : Mounted → List VolumeDefinition → Mounted
unfolding mount_one
mount_all m [] = m
mount_all m (v ∷ volumes) = mount_all (mount_one m v) volumes

unfoldable pub get_binds_mounts_and_volumes : List VolumeDefinition → Mounted
unfolding mount_all
get_binds_mounts_and_volumes = mount_all (record { binds = []; mounts = []; volumes = [] })

-- the volumes of fromDockerContainer
unfoldable pub volumes_of_container : Mounted → List VolumeDefinition
unfolding uniq docker_mount_to_service_mount
volumes_of_container m =
    map short (uniq (m.binds ++ m.volumes))
    ++ map (λ mount. long (docker_mount_to_service_mount mount)) m.mounts
