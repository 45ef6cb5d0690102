-- ===== src/Compose/Service/Comparison/Settings.antt =====
-- compose/service.ts: the fields of a configuration that are compared as they are.
use balena_supervisor.Common.{true, ◌≡◌, ◌↔◌, every-eq-true, every_of_All}
use balena_supervisor.Common.Equality.{
  Eq, is_equal, eq_of_is_equal, nat_eq, int_eq, string_eq, bool_eq, option_eq, list_eq,
}
use balena_supervisor.Common.Dicts.{same_entries}
use balena_supervisor.Compose.Labels.{same_labels}
use balena_supervisor.Compose.ServiceTypes.{ServiceConfig}
use balena_supervisor.Compose.ServiceTypes.Equality.{
  range_eq, volume_eq, healthcheck_eq, device_eq, ulimit_eq, words_eq,
}
use balena_supervisor.Compose.Service.Comparison.{same_requests, compared_settings, same_settings}

-- The fields that are compared as they are: equal values, and equal dictionaries.
pub record SameSettings (a b : ServiceConfig) : Type 0 where
  pub port_maps : a.port_maps ≡ b.port_maps
  pub command : a.command ≡ b.command
  pub cgroup_parent : a.cgroup_parent ≡ b.cgroup_parent
  pub device_requests : same_requests a.device_requests b.device_requests ≡ true
  pub entrypoint : a.entrypoint ≡ b.entrypoint
  pub environment : same_entries a.environment b.environment ≡ true
  pub healthcheck : a.healthcheck ≡ b.healthcheck
  pub image : a.image ≡ b.image
  pub labels : same_labels a.labels b.labels ≡ true
  pub pid : a.pid ≡ b.pid
  pub pids_limit : a.pids_limit ≡ b.pids_limit
  pub stop_grace_period : a.stop_grace_period ≡ b.stop_grace_period
  pub stop_signal : a.stop_signal ≡ b.stop_signal
  pub sysctls : same_entries a.sysctls b.sysctls ≡ true
  pub ulimits : same_entries a.ulimits b.ulimits ≡ true
  pub userns_mode : a.userns_mode ≡ b.userns_mode
  pub restart : a.restart ≡ b.restart
  pub cpu_shares : a.cpu_shares ≡ b.cpu_shares
  pub cpu_quota : a.cpu_quota ≡ b.cpu_quota
  pub cpuset : a.cpuset ≡ b.cpuset
  pub domainname : a.domainname ≡ b.domainname
  pub ipc : a.ipc ≡ b.ipc
  pub mac_address : a.mac_address ≡ b.mac_address
  pub mem_limit : a.mem_limit ≡ b.mem_limit
  pub mem_reservation : a.mem_reservation ≡ b.mem_reservation
  pub oom_kill_disable : a.oom_kill_disable ≡ b.oom_kill_disable
  pub oom_score_adj : a.oom_score_adj ≡ b.oom_score_adj
  pub privileged : a.privileged ≡ b.privileged
  pub read_only : a.read_only ≡ b.read_only
  pub shm_size : a.shm_size ≡ b.shm_size
  pub user : a.user ≡ b.user
  pub working_dir : a.working_dir ≡ b.working_dir
  pub tty : a.tty ≡ b.tty

is_equal_of_eq : {A : Type 0} ⦃e : Eq A⦄ {a b : A} → a ≡ b → is_equal a b ≡ true
is_equal_of_eq ⦃e⦄ {a} {b} h = (e.same_iff a b).1 h

pub same_settings_iff : (a b : ServiceConfig) → (same_settings a b ≡ true) ↔ SameSettings a b
unfolding same_settings
same_settings_iff a b = (
  λ h.
      let (
        e0,
        (
          e1,
          (
            e2,
            (
              e3,
              (
                e4,
                (
                  e5,
                  (
                    e6,
                    (
                      e7,
                      (
                        e8,
                        (
                          e9,
                          (
                            e10,
                            (
                              e11,
                              (
                                e12,
                                (
                                  e13,
                                  (
                                    e14,
                                    (
                                      e15,
                                      (
                                        e16,
                                        (
                                          e17,
                                          (
                                            e18,
                                            (
                                              e19,
                                              (
                                                e20,
                                                (
                                                  e21,
                                                  (
                                                    e22,
                                                    (
                                                      e23,
                                                      (
                                                        e24,
                                                        (
                                                          e25,
                                                          (
                                                            e26,
                                                            (
                                                            e27,
                                                            (e28, (e29, (e30, (e31, (e32, last))))),
                                                            ),
                                                          ),
                                                        ),
                                                      ),
                                                    ),
                                                  ),
                                                ),
                                              ),
                                            ),
                                          ),
                                        ),
                                      ),
                                    ),
                                  ),
                                ),
                              ),
                            ),
                          ),
                        ),
                      ),
                    ),
                  ),
                ),
              ),
            ),
          ),
        ),
      ) =
        every-eq-true (λ same. same) (compared_settings a b) h in
      record {
        port_maps = eq_of_is_equal a.port_maps b.port_maps e0;
        command = eq_of_is_equal a.command b.command e1;
        cgroup_parent = eq_of_is_equal a.cgroup_parent b.cgroup_parent e2;
        device_requests = e3;
        entrypoint = eq_of_is_equal a.entrypoint b.entrypoint e4;
        environment = e5;
        healthcheck = eq_of_is_equal a.healthcheck b.healthcheck e6;
        image = eq_of_is_equal a.image b.image e7;
        labels = e8;
        pid = eq_of_is_equal a.pid b.pid e9;
        pids_limit = eq_of_is_equal a.pids_limit b.pids_limit e10;
        stop_grace_period = eq_of_is_equal a.stop_grace_period b.stop_grace_period e11;
        stop_signal = eq_of_is_equal a.stop_signal b.stop_signal e12;
        sysctls = e13;
        ulimits = e14;
        userns_mode = eq_of_is_equal a.userns_mode b.userns_mode e15;
        restart = eq_of_is_equal a.restart b.restart e16;
        cpu_shares = eq_of_is_equal a.cpu_shares b.cpu_shares e17;
        cpu_quota = eq_of_is_equal a.cpu_quota b.cpu_quota e18;
        cpuset = eq_of_is_equal a.cpuset b.cpuset e19;
        domainname = eq_of_is_equal a.domainname b.domainname e20;
        ipc = eq_of_is_equal a.ipc b.ipc e21;
        mac_address = eq_of_is_equal a.mac_address b.mac_address e22;
        mem_limit = eq_of_is_equal a.mem_limit b.mem_limit e23;
        mem_reservation = eq_of_is_equal a.mem_reservation b.mem_reservation e24;
        oom_kill_disable = eq_of_is_equal a.oom_kill_disable b.oom_kill_disable e25;
        oom_score_adj = eq_of_is_equal a.oom_score_adj b.oom_score_adj e26;
        privileged = eq_of_is_equal a.privileged b.privileged e27;
        read_only = eq_of_is_equal a.read_only b.read_only e28;
        shm_size = eq_of_is_equal a.shm_size b.shm_size e29;
        user = eq_of_is_equal a.user b.user e30;
        working_dir = eq_of_is_equal a.working_dir b.working_dir e31;
        tty = eq_of_is_equal a.tty b.tty e32;
      },
  λ s.
      every_of_All (λ same. same) (compared_settings a b)
        (
          is_equal_of_eq s.port_maps,
          (
            is_equal_of_eq s.command,
            (
              is_equal_of_eq s.cgroup_parent,
              (
                s.device_requests,
                (
                  is_equal_of_eq s.entrypoint,
                  (
                    s.environment,
                    (
                      is_equal_of_eq s.healthcheck,
                      (
                        is_equal_of_eq s.image,
                        (
                          s.labels,
                          (
                            is_equal_of_eq s.pid,
                            (
                              is_equal_of_eq s.pids_limit,
                              (
                                is_equal_of_eq s.stop_grace_period,
                                (
                                  is_equal_of_eq s.stop_signal,
                                  (
                                    s.sysctls,
                                    (
                                      s.ulimits,
                                      (
                                        is_equal_of_eq s.userns_mode,
                                        (
                                          is_equal_of_eq s.restart,
                                          (
                                            is_equal_of_eq s.cpu_shares,
                                            (
                                              is_equal_of_eq s.cpu_quota,
                                              (
                                                is_equal_of_eq s.cpuset,
                                                (
                                                  is_equal_of_eq s.domainname,
                                                  (
                                                    is_equal_of_eq s.ipc,
                                                    (
                                                      is_equal_of_eq s.mac_address,
                                                      (
                                                        is_equal_of_eq s.mem_limit,
                                                        (
                                                          is_equal_of_eq s.mem_reservation,
                                                          (
                                                            is_equal_of_eq s.oom_kill_disable,
                                                            (
                                                            is_equal_of_eq s.oom_score_adj,
                                                            (
                                                            is_equal_of_eq s.privileged,
                                                            (
                                                            is_equal_of_eq s.read_only,
                                                            (
                                                            is_equal_of_eq s.shm_size,
                                                            (
                                                            is_equal_of_eq s.user,
                                                            (
                                                            is_equal_of_eq s.working_dir,
                                                            (is_equal_of_eq s.tty, tt),
                                                            ),
                                                            ),
                                                            ),
                                                            ),
                                                            ),
                                                            ),
                                                          ),
                                                        ),
                                                      ),
                                                    ),
                                                  ),
                                                ),
                                              ),
                                            ),
                                          ),
                                        ),
                                      ),
                                    ),
                                  ),
                                ),
                              ),
                            ),
                          ),
                        ),
                      ),
                    ),
                  ),
                ),
              ),
            ),
          ),
        ),
)
