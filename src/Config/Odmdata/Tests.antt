-- ===== src/Config/Odmdata/Tests.antt =====
-- ODMDATA on a concrete partition.
use balena_supervisor.Common.{true, false, [], ◌∷◌, none, some, ◌≡◌, refl, arith, ◌==◌}
use balena_supervisor.Common.Results.{ok, thrown}
use balena_supervisor.Config.Odmdata.{
  Partition, Faults, odmdata_error, set_mode, set_boot_config, get_boot_config, parse_mode,
}
use balena_supervisor.Config.Odmdata.RoundTrip.{IsSound, get_boot_config-set_mode}
use balena_supervisor.Config.Odmdata.Locking.{
  set_boot_config-keeps_read_only, set_boot_config-keeps_bytes,
}

abbrev blank : Partition
blank = record { byte_at = λ k. 9; read_only = true }

abbrev no_faults : Faults
no_faults = record {
  flag_fails = λ value. false;
  write_fails = λ position. false;
  read_fails = λ position. false;
}

-- the second write fails
abbrev bad_block : Faults
bad_block = record no_faults { write_fails = λ position. position == 5243 }

parsed_modes : (parse_mode " 3x" ≡ some 3) × (parse_mode "x" ≡ none)
unfolding parse_mode
parsed_modes = (refl, refl)

-- a text that is no number is not refused by the test of the mode
no_number : (set_boot_config no_faults (("configuration", "x") ∷ []) blank).1 ≡ thrown odmdata_error
unfolding set_boot_config
no_number = refl

no_faults-IsSound : IsSound no_faults
no_faults-IsSound = record {
  flags = λ value. refl;
  writes = λ position. refl;
  reads = λ position. refl;
}

get_boot_config-set_mode_example :
    get_boot_config no_faults (set_mode no_faults (some 3) blank).0 ≡ ok 3
get_boot_config-set_mode_example =
    get_boot_config-set_mode no_faults 3 blank no_faults-IsSound (omega arith) (omega arith)

set_boot_config-keeps_read_only_example :
    (set_boot_config bad_block (("configuration", "3") ∷ []) blank).0.read_only ≡ true
set_boot_config-keeps_read_only_example =
    set_boot_config-keeps_read_only bad_block (("configuration", "3") ∷ []) blank refl refl

set_boot_config-keeps_bytes_example :
    (set_boot_config bad_block (("configuration", "3") ∷ []) blank).0.byte_at 7 ≡ 9
set_boot_config-keeps_bytes_example =
    set_boot_config-keeps_bytes bad_block (("configuration", "3") ∷ []) blank 7
      (refl, (refl, (refl, tt)))
