-- ===== src/Compose/Volume.antt =====
-- compose/volume.ts: a named volume and the comparison of two configurations.
use balena_supervisor.Common.{ℕ, String, Bool, not, ◌&&◌, ◌||◌, Option, str_eq, filter}
use balena_supervisor.Compose.Labels.{Labels, same_labels}

pub record VolumeConfig : Type 0 where
  pub labels : Labels
  pub driver : String
  pub driver_opts : Labels

pub record Volume : Type 0 where
  pub name : String
  pub app_id : ℕ
  pub app_uuid : Option String
  pub config : VolumeConfig

unfoldable pub omit_supervisor_labels : Labels → Labels
omit_supervisor_labels = filter λ (k, v). not (
    str_eq k "io.resin.supervised"
    || str_eq k "io.balena.supervised"
    || str_eq k "io.balena.app-uuid")

unfoldable pub is_equal_config : Volume → Volume → Bool
unfolding omit_supervisor_labels same_labels
is_equal_config this other =
    str_eq this.config.driver other.config.driver
    && same_labels this.config.driver_opts other.config.driver_opts
    && same_labels (omit_supervisor_labels this.config.labels)
        (omit_supervisor_labels other.config.labels)
