-- ===== src/Compose/Service/Comparison/Arrays.antt =====
-- compose/service.ts: the fields of a configuration that hold arrays.
use mathlib.Core.List.{Perm}
use balena_supervisor.Common.{
  String, true, false, List, [], ◌∷◌, ◌++◌, ◌≡◌, refl, ◌↔◌, inl, inr, All, Bool-cases,
}
use balena_supervisor.Common.Texts.{text_leb_self}
use balena_supervisor.Common.Sort.{sort_by, insert_by, insert_by-nil, insert_by-first}
use balena_supervisor.Common.Equality.{nat_eq, int_eq, string_eq, bool_eq, option_eq, list_eq}
use balena_supervisor.Compose.ServiceTypes.{VolumeDefinition, DockerDevice, ServiceConfig}
use balena_supervisor.Compose.ServiceTypes.Equality.{
  range_eq, volume_eq, healthcheck_eq, device_eq, ulimit_eq, words_eq,
}
use balena_supervisor.Compose.Service.Comparison.{
  volume_text, device_text, config_array_fields, ordered_config_array_fields,
}
use balena_supervisor.Compose.Utils.Arrays.{
  ArrayField, by_text, compare_array_field, compare_array_fields, compare_array_field-Perm,
}

-- Objects all read as the same text, so that sorting leaves them in their order.
sort_by-devices : (devices : List DockerDevice) → sort_by (by_text device_text) devices ≡ devices
unfolding sort_by
sort_by-devices [] = refl
sort_by-devices (d ∷ devices) = rw (sort_by-devices devices) (put_first d devices)
  where
    put_first :
        (d : DockerDevice) (devices : List DockerDevice)
        → insert_by (by_text device_text) d devices ≡ d ∷ devices
    put_first d [] = insert_by-nil (by_text device_text) d
    put_first d (e ∷ devices) =
        insert_by-first (by_text device_text) d e devices (text_leb_self "[object Object]")

compare_devices_iff :
    (a b : List DockerDevice) → (compare_array_field device_text a b false ≡ true) ↔ (a ≡ b)
unfolding compare_array_field
compare_devices_iff a b = rw (sort_by-devices a, sort_by-devices b) (list_eq.same_iff a b)

compare_volumes_iff :
    (a b : List VolumeDefinition)
    → (compare_array_field volume_text a b false ≡ true)
      ↔ (sort_by (by_text volume_text) a ≡ sort_by (by_text volume_text) b)
unfolding compare_array_field
compare_volumes_iff a b =
    list_eq.same_iff (sort_by (by_text volume_text) a) (sort_by (by_text volume_text) b)

compare_ordered_iff : (a b : List String) → (compare_array_field (λ s. s) a b true ≡ true) ↔ (a ≡ b)
unfolding compare_array_field
compare_ordered_iff a b = list_eq.same_iff a b

compare_array_fields_iff :
    (fields : List ArrayField)
    → ((compare_array_fields fields).0 ≡ true) ↔ All (λ (f : ArrayField). f.same ≡ true) fields
unfolding compare_array_fields
compare_array_fields_iff [] = (λ h. tt, λ h. refl)
compare_array_fields_iff (f ∷ fields) =
    let (forth, back) = compare_array_fields_iff fields in
    elim (Bool-cases f.same) [
      | inl e ↦ rw e (λ h. (refl, forth h), λ (p, h). back h)
      | inr e ↦ rw e (λ h. cc, λ (p, h). cc)
    ]

-- The fields that hold arrays: strings in any order, but for the name servers; devices in their
-- order; volumes with the short ones in any order.
pub record SameArrays (a b : ServiceConfig) : Type 0 where
  pub volumes : sort_by (by_text volume_text) a.volumes ≡ sort_by (by_text volume_text) b.volumes
  pub devices : a.devices ≡ b.devices
  pub cap_add : Perm a.cap_add b.cap_add
  pub cap_drop : Perm a.cap_drop b.cap_drop
  pub dns_opt : Perm a.dns_opt b.dns_opt
  pub tmpfs : Perm a.tmpfs b.tmpfs
  pub extra_hosts : Perm a.extra_hosts b.extra_hosts
  pub group_add : Perm a.group_add b.group_add
  pub security_opt : Perm a.security_opt b.security_opt
  pub dns : a.dns ≡ b.dns
  pub dns_search : a.dns_search ≡ b.dns_search

pub SameArrays-iff :
    (a b : ServiceConfig)
    → ((compare_array_fields (config_array_fields a b ++ ordered_config_array_fields a b)).0 ≡ true)
      ↔ SameArrays a b
unfolding config_array_fields ordered_config_array_fields
SameArrays-iff a b =
    let all =
      compare_array_fields_iff (config_array_fields a b ++ ordered_config_array_fields a b) in
    (
      λ h.
          let (v, (d, (ca, (cd, (dno, (tm, (eh, (ul, (ga, (so, (dn, (ds, last)))))))))))) =
            all.0 h in
          record {
            volumes = (compare_volumes_iff a.volumes b.volumes).0 v;
            devices = (compare_devices_iff a.devices b.devices).0 d;
            cap_add = (compare_array_field-Perm a.cap_add b.cap_add).0 ca;
            cap_drop = (compare_array_field-Perm a.cap_drop b.cap_drop).0 cd;
            dns_opt = (compare_array_field-Perm a.dns_opt b.dns_opt).0 dno;
            tmpfs = (compare_array_field-Perm a.tmpfs b.tmpfs).0 tm;
            extra_hosts = (compare_array_field-Perm a.extra_hosts b.extra_hosts).0 eh;
            group_add = (compare_array_field-Perm a.group_add b.group_add).0 ga;
            security_opt = (compare_array_field-Perm a.security_opt b.security_opt).0 so;
            dns = (compare_ordered_iff a.dns b.dns).0 dn;
            dns_search = (compare_ordered_iff a.dns_search b.dns_search).0 ds;
          },
      λ s. all.1 (
        (compare_volumes_iff a.volumes b.volumes).1 s.volumes,
        (
          (compare_devices_iff a.devices b.devices).1 s.devices,
          (
            (compare_array_field-Perm a.cap_add b.cap_add).1 s.cap_add,
            (
              (compare_array_field-Perm a.cap_drop b.cap_drop).1 s.cap_drop,
              (
                (compare_array_field-Perm a.dns_opt b.dns_opt).1 s.dns_opt,
                (
                  (compare_array_field-Perm a.tmpfs b.tmpfs).1 s.tmpfs,
                  (
                    (compare_array_field-Perm a.extra_hosts b.extra_hosts).1 s.extra_hosts,
                    (
                      refl,
                      (
                        (compare_array_field-Perm a.group_add b.group_add).1 s.group_add,
                        (
                          (compare_array_field-Perm a.security_opt b.security_opt).1 s.security_opt,
                          (
                            (compare_ordered_iff a.dns b.dns).1 s.dns,
                            ((compare_ordered_iff a.dns_search b.dns_search).1 s.dns_search, tt),
                          ),
                        ),
                      ),
                    ),
                  ),
                ),
              ),
            ),
          ),
        ),
      ),
    )
