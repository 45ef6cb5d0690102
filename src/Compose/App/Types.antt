-- ===== src/Compose/App/Types.antt =====
-- compose/app.ts: the state of an app and of an update, and pairs of what changes.
use balena_supervisor.Common.{ℕ, String, Bool, List, Option}
use balena_supervisor.Compose.Service.{Service}
use balena_supervisor.Compose.Volume.{Volume}
use balena_supervisor.Compose.Network.{Network}
use balena_supervisor.Compose.Images.{Image}

pub record App : Type 0 where
  pub app_id : ℕ
  pub app_uuid : Option String
  pub app_name : Option String
  pub commit : Option String
  pub source : Option String
  pub is_host : Bool
  pub services : List Service
  pub networks : List Network
  pub volumes : List Volume

-- Dictionary<string> of service names to container ids
abbrev pub ContainerIds : Type 0
ContainerIds = List (String × String)

pub record UpdateState : Type 0 where
  pub available_images : List Image
  pub container_ids : ContainerIds
  pub downloading : List String

-- A component that is removed, that is created, or that is replaced.
pub record ChangingPair {ℓ} (T : Type ℓ) : Type ℓ where
  pub current : Option T
  pub target : Option T
