-- ===== src/Compose/Service.antt =====
-- compose/service.ts: the state of a service, of a container or of the target, and what it uses.
pub mod NetworkMode
pub mod Comparison
pub mod Container
use balena_supervisor.Common.{
  ℕ, String, Bool, ◌&&◌, ◌||◌, not, List, Option, none, some, str_eq, any, some_and, if◌then◌else◌,
}
use balena_supervisor.Common.Texts.{decimal, before, has_char, is_absolute}
use balena_supervisor.Common.Dicts.{has_key}
use balena_supervisor.Compose.ServiceTypes.{
  MountType, volume, VolumeDefinition, short, long, ServiceConfig,
}
use Prim.Native.String

pub data ServiceStatus : Type 0 where
  stopping running installing installed dead paused restarting removing exited : ServiceStatus

pub ServiceStatus-discrete : Discrete ServiceStatus
ServiceStatus-discrete = hlevel

pub record Service : Type 0 where
  pub app_id : ℕ
  pub app_uuid : Option String
  pub service_id : ℕ
  pub service_name : String
  pub image_id : ℕ
  pub release_id : ℕ
  pub commit : String
  pub image_name : Option String
  pub docker_image_id : Option String
  pub container_id : Option String
  pub exit_error_message : Option String
  pub depends_on : Option (List String)
  pub status : ServiceStatus
  -- the time of creation; the target's services have none
  pub created_at : Option ℕ
  pub config : ServiceConfig

-- `${prefix}_${name}`
abbrev prefixed : String → String → String
prefixed prefix name = String.◌++◌ prefix (String.◌++◌ "_" name)

-- `${this.appUuid}`
abbrev uuid_text : Option String → String
uuid_text none = "undefined"
uuid_text (some uuid) = uuid

unfoldable pub has_network : Service → String → Bool
has_network s name =
    has_key (prefixed (uuid_text s.app_uuid) name) s.config.networks
    || has_key (prefixed (decimal s.app_id) name) s.config.networks

unfoldable pub has_network_mode : Service → String → Bool
has_network_mode s name =
    str_eq (prefixed (uuid_text s.app_uuid) name) s.config.network_mode
    || str_eq (prefixed (decimal s.app_id) name) s.config.network_mode

-- LongNamedVolume.is: a volume with a source that is no path of the host
named_source : MountType → Option String → Option String
named_source volume (some source) = if is_absolute source then none else some source
named_source _ _ = none

-- The source of an entry that names a volume, as opposed to a path on the host or an unnamed volume.
unfoldable pub volume_source : VolumeDefinition → Option String
unfolding named_source
volume_source (short s) =
    if has_char b':' s && not (is_absolute (before b':' s)) then some (before b':' s) else none
volume_source (long d) = named_source d.kind d.source

unfoldable pub has_volume : Service → String → Bool
unfolding volume_source
has_volume s name =
    any (λ d. some_and (volume_source d) (str_eq (prefixed (decimal s.app_id) name)))
      s.config.volumes
