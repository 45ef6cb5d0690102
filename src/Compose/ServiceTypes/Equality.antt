-- ===== src/Compose/ServiceTypes/Equality.antt =====
-- compose/types/service.ts: deep equality of the values in the configuration of a service.
use balena_supervisor.Common.{Bool, true, false, ◌&&◌, ◌≡◌, refl, ◌↔◌, arith, str_eq, ap, both_true}
use balena_supervisor.Common.Equality.{
  Eq, is_equal, eq_of_is_equal, is_equal_self, nat_eq, int_eq, string_eq, bool_eq, option_eq,
  list_eq,
}
use balena_supervisor.Compose.Ports.{PortRange}
use balena_supervisor.Compose.ServiceTypes.{
  MountType, volume, bind, tmpfs, LongDefinition, VolumeDefinition, short, long, ServiceHealthcheck,
  DockerDevice, Ulimit, Words, word, words,
}

abbrev pub same_type : MountType → MountType → Bool
same_type volume volume = true
same_type bind bind = true
same_type tmpfs tmpfs = true
same_type _ _ = false

pub same_type_iff : (a b : MountType) → (same_type a b ≡ true) ↔ (a ≡ b)
same_type_iff volume volume = (λ h. refl, λ h. refl)
same_type_iff volume bind = (λ h. cc, λ h. cc)
same_type_iff volume tmpfs = (λ h. cc, λ h. cc)
same_type_iff bind volume = (λ h. cc, λ h. cc)
same_type_iff bind bind = (λ h. refl, λ h. refl)
same_type_iff bind tmpfs = (λ h. cc, λ h. cc)
same_type_iff tmpfs volume = (λ h. cc, λ h. cc)
same_type_iff tmpfs bind = (λ h. cc, λ h. cc)
same_type_iff tmpfs tmpfs = (λ h. refl, λ h. refl)

instance abbrev pub type_eq : Eq MountType
type_eq = record { same = same_type; same_iff = same_type_iff }

abbrev pub same_range : PortRange → PortRange → Bool
same_range a b =
    is_equal a.internal_start b.internal_start
    && is_equal a.internal_end b.internal_end
    && is_equal a.external_start b.external_start
    && is_equal a.external_end b.external_end
    && is_equal a.protocol b.protocol
    && is_equal a.host b.host

pub same_range_iff : (a b : PortRange) → (same_range a b ≡ true) ↔ (a ≡ b)
same_range_iff a b = (
  λ h. ground (
    arith,
    eq_of_is_equal a.internal_start b.internal_start,
    eq_of_is_equal a.internal_end b.internal_end,
    eq_of_is_equal a.external_start b.external_start,
    eq_of_is_equal a.external_end b.external_end,
    eq_of_is_equal a.protocol b.protocol,
    eq_of_is_equal a.host b.host,
  ),
  λ h. rw h (
      ground (
        arith,
        is_equal_self b.internal_start,
        is_equal_self b.internal_end,
        is_equal_self b.external_start,
        is_equal_self b.external_end,
        is_equal_self b.protocol,
        is_equal_self b.host,
      )),
)

instance abbrev pub range_eq : Eq PortRange
range_eq = record { same = same_range; same_iff = same_range_iff }

abbrev pub same_definition : LongDefinition → LongDefinition → Bool
same_definition a b =
    is_equal a.kind b.kind
    && is_equal a.target b.target
    && is_equal a.source b.source
    && is_equal a.read_only b.read_only
    && is_equal a.propagation b.propagation
    && is_equal a.nocopy b.nocopy
    && is_equal a.size b.size

pub same_definition_iff : (a b : LongDefinition) → (same_definition a b ≡ true) ↔ (a ≡ b)
same_definition_iff a b = (
  λ h.
      let (r6, e6) = both_true _ _ h in
      let (r5, e5) = both_true _ _ r6 in
      let (r4, e4) = both_true _ _ r5 in
      let (r3, e3) = both_true _ _ r4 in
      let (r2, e2) = both_true _ _ r3 in
      let (e0, e1) = both_true _ _ r2 in
      λ i. record {
        kind = eq_of_is_equal a.kind b.kind e0 i;
        target = eq_of_is_equal a.target b.target e1 i;
        source = eq_of_is_equal a.source b.source e2 i;
        read_only = eq_of_is_equal a.read_only b.read_only e3 i;
        propagation = eq_of_is_equal a.propagation b.propagation e4 i;
        nocopy = eq_of_is_equal a.nocopy b.nocopy e5 i;
        size = eq_of_is_equal a.size b.size e6 i;
      },
  λ h. rw h (
      ground (
        arith,
        is_equal_self b.kind,
        is_equal_self b.target,
        is_equal_self b.source,
        is_equal_self b.read_only,
        is_equal_self b.propagation,
        is_equal_self b.nocopy,
        is_equal_self b.size,
      )),
)

instance abbrev pub definition_eq : Eq LongDefinition
definition_eq = record { same = same_definition; same_iff = same_definition_iff }

abbrev pub same_healthcheck : ServiceHealthcheck → ServiceHealthcheck → Bool
same_healthcheck a b =
    is_equal a.test b.test
    && is_equal a.interval b.interval
    && is_equal a.timeout b.timeout
    && is_equal a.start_period b.start_period
    && is_equal a.retries b.retries

pub same_healthcheck_iff : (a b : ServiceHealthcheck) → (same_healthcheck a b ≡ true) ↔ (a ≡ b)
same_healthcheck_iff a b = (
  λ h. ground (
    arith,
    eq_of_is_equal a.test b.test,
    eq_of_is_equal a.interval b.interval,
    eq_of_is_equal a.timeout b.timeout,
    eq_of_is_equal a.start_period b.start_period,
    eq_of_is_equal a.retries b.retries,
  ),
  λ h. rw h (
      ground (
        arith,
        is_equal_self b.test,
        is_equal_self b.interval,
        is_equal_self b.timeout,
        is_equal_self b.start_period,
        is_equal_self b.retries,
      )),
)

instance abbrev pub healthcheck_eq : Eq ServiceHealthcheck
healthcheck_eq = record { same = same_healthcheck; same_iff = same_healthcheck_iff }

abbrev pub same_device : DockerDevice → DockerDevice → Bool
same_device a b =
    is_equal a.path_on_host b.path_on_host
    && is_equal a.path_in_container b.path_in_container
    && is_equal a.cgroup_permissions b.cgroup_permissions

pub same_device_iff : (a b : DockerDevice) → (same_device a b ≡ true) ↔ (a ≡ b)
same_device_iff a b = (
  λ h. ground (
    arith,
    eq_of_is_equal a.path_on_host b.path_on_host,
    eq_of_is_equal a.path_in_container b.path_in_container,
    eq_of_is_equal a.cgroup_permissions b.cgroup_permissions,
  ),
  λ h. rw h (
      ground (
        arith,
        is_equal_self b.path_on_host,
        is_equal_self b.path_in_container,
        is_equal_self b.cgroup_permissions,
      )),
)

instance abbrev pub device_eq : Eq DockerDevice
device_eq = record { same = same_device; same_iff = same_device_iff }

abbrev pub same_ulimit : Ulimit → Ulimit → Bool
same_ulimit a b = is_equal a.soft b.soft && is_equal a.hard b.hard

pub same_ulimit_iff : (a b : Ulimit) → (same_ulimit a b ≡ true) ↔ (a ≡ b)
same_ulimit_iff a b = (
  λ h. ground (arith, eq_of_is_equal a.soft b.soft, eq_of_is_equal a.hard b.hard),
  λ h. rw h (ground (arith, is_equal_self b.soft, is_equal_self b.hard)),
)

instance abbrev pub ulimit_eq : Eq Ulimit
ulimit_eq = record { same = same_ulimit; same_iff = same_ulimit_iff }

abbrev pub same_volume : VolumeDefinition → VolumeDefinition → Bool
same_volume (short s) (short t) = str_eq s t
same_volume (long a) (long b) = is_equal a b
same_volume _ _ = false

pub same_volume_iff : (a b : VolumeDefinition) → (same_volume a b ≡ true) ↔ (a ≡ b)
same_volume_iff (short s) (short t) =
    (λ h. ap short (eq_of_is_equal s t h), λ h. (string_eq.same_iff s t).1 (cc))
same_volume_iff (short s) (long b) = (λ h. cc, λ h. cc)
same_volume_iff (long a) (short t) = (λ h. cc, λ h. cc)
same_volume_iff (long a) (long b) =
    (λ h. ap long (eq_of_is_equal a b h), λ h. (definition_eq.same_iff a b).1 (cc))

instance abbrev pub volume_eq : Eq VolumeDefinition
volume_eq = record { same = same_volume; same_iff = same_volume_iff }

abbrev pub same_words : Words → Words → Bool
same_words (word s) (word t) = str_eq s t
same_words (words a) (words b) = is_equal a b
same_words _ _ = false

pub same_words_iff : (a b : Words) → (same_words a b ≡ true) ↔ (a ≡ b)
same_words_iff (word s) (word t) =
    (λ h. ap word (eq_of_is_equal s t h), λ h. (string_eq.same_iff s t).1 (cc))
same_words_iff (word s) (words b) = (λ h. cc, λ h. cc)
same_words_iff (words a) (word t) = (λ h. cc, λ h. cc)
same_words_iff (words a) (words b) =
    (λ h. ap words (eq_of_is_equal a b h), λ h. (list_eq.same_iff a b).1 (cc))

instance abbrev pub words_eq : Eq Words
words_eq = record { same = same_words; same_iff = same_words_iff }
