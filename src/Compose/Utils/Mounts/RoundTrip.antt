-- ===== src/Compose/Utils/Mounts/RoundTrip.antt =====
-- compose/utils.ts and compose/service.ts: volumes that are mounted and read back.
use balena_supervisor.Common.{
  String, Bool, true, false, Option, none, some, ℕ, zero, suc, ◌≢◌, ◌≡◌, refl, arith, str_eq,
  IfSome,
}
use balena_supervisor.Compose.ServiceTypes.{LongDefinition}
use balena_supervisor.Compose.Utils.Mounts.{
  if_true, if_text, if_positive, service_mount_to_docker_mount, docker_mount_to_service_mount,
}

-- No setting of the definition is set to false, to nothing or to 0.
pub record IsPlain (d : LongDefinition) : Type 0 where
  pub source : IfSome (λ s. str_eq s "" ≡ false) d.source
  pub read_only : d.read_only ≢ some false
  pub propagation : IfSome (λ s. str_eq s "" ≡ false) d.propagation
  pub nocopy : d.nocopy ≢ some false
  pub size : d.size ≢ some 0

if_true_self : (x : Option Bool) → x ≢ some false → if_true x ≡ x
unfolding if_true
if_true_self none h = refl
if_true_self (some true) h = refl
if_true_self (some false) h = absurd (h refl)

if_text_self : (x : Option String) → IfSome (λ s. str_eq s "" ≡ false) x → if_text x ≡ x
unfolding if_text
if_text_self none h = refl
if_text_self (some s) h = rw h refl

if_positive_self : (x : Option ℕ) → x ≢ some 0 → if_positive x ≡ x
unfolding if_positive
if_positive_self none h = refl
if_positive_self (some zero) h = absurd (h refl)
if_positive_self (some (suc n)) h = ground arith

pub docker_mount_to_service_mount-service_mount_to_docker_mount :
    (d : LongDefinition)
    → IsPlain d
    → docker_mount_to_service_mount (service_mount_to_docker_mount d) ≡ d
unfolding docker_mount_to_service_mount service_mount_to_docker_mount
docker_mount_to_service_mount-service_mount_to_docker_mount d p =
    rw
      (
        if_true_self d.read_only p.read_only,
        if_true_self d.nocopy p.nocopy,
        if_text_self d.source p.source,
        if_text_self d.propagation p.propagation,
        if_positive_self d.size p.size,
      )
      (rw (if_true_self d.read_only p.read_only) refl)
