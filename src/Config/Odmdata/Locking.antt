-- ===== src/Config/Odmdata/Locking.antt =====
-- config/backends/odmdata.ts: the partition is protected again after every attempt, and only the
-- three bytes are ever written.
use balena_supervisor.Common.{
  ℕ, String, Bool, true, false, ◌||◌, List, [], ◌∷◌, Option, none, some, ◌≡◌, refl, inl, inr,
  Bool-cases, Option-cases, ◌==◌, All, ltb, str_eq, get_elem?, ◌-◌,
}
use balena_supervisor.Common.Results.{ok, thrown}
use balena_supervisor.Config.Odmdata.{
  Partition, Faults, Done, after, close, byte_offsets, config_bytes, configuration, parse_mode,
  set_read_only, set_byte_at_offset, set_bytes, write_mode, set_mode, set_boot_config,
}

-- The partition keeps what P says of it, whatever the operation does.
module _ (P : Partition → Type 0) where
  after-keeps :
      (d : Done) (next : Partition → Done)
      → P d.0
      → ((q : Partition) → P q → P (next q).0)
      → P (after d next).0
  after-keeps (p, thrown e) next h k = h
  after-keeps (p, ok u) next h k = k p h

-- what holds after each of the three ways to leave a partition
set_mode-cases :
    (P : Partition → Type 0) (f : Faults) (p : Partition)
    → P p
    → ((value : Option ℕ) → P (write_mode f value p).0)
    → (mode : Option ℕ) → P (set_mode f mode p).0
unfolding set_mode
set_mode-cases P f p h k none = k none
set_mode-cases P f p h k (some mode) = elim (Bool-cases (ltb mode 1 || ltb 6 mode)) [
  | inl e ↦ rw e h
  | inr e ↦ rw e (k (get_elem? config_bytes (mode - 1)))
]

set_boot_config-cases :
    (P : Partition → Type 0) (f : Faults) (p : Partition)
    → P p
    → ((value : Option ℕ) → P (write_mode f value p).0)
    → (opts : List (String × String)) → P (set_boot_config f opts p).0
unfolding set_boot_config
set_boot_config-cases P f p h k opts = elim (Option-cases (configuration opts)) [
  | inl e ↦ rw (e, set_boot_config) h
  | inr (text, e) ↦
      rw (e, set_boot_config)
        (elim (Bool-cases (str_eq text "")) [
          | inl d ↦ rw d h
          | inr d ↦ rw d (set_mode-cases P f p h k (parse_mode text))
        ])
]

abbrev IsProtected : Partition → Type 0
IsProtected p = p.read_only ≡ true

write_mode-IsProtected :
    (f : Faults) (value : Option ℕ) (p : Partition)
    → f.flag_fails true ≡ false
    → IsProtected p
    → IsProtected (write_mode f value p).0
unfolding write_mode set_read_only close
write_mode-IsProtected f value p safe h = elim (Bool-cases (f.flag_fails false)) [
  | inl e ↦ rw (e, set_read_only) h
  | inr e ↦ rw (e, safe, set_read_only) refl
]

-- If the protection can be put on, the partition is protected after any attempt to set the mode,
-- whatever the options and whichever write fails.
pub set_boot_config-keeps_read_only :
    (f : Faults) (opts : List (String × String)) (p : Partition)
    → f.flag_fails true ≡ false
    → p.read_only ≡ true
    → (set_boot_config f opts p).0.read_only ≡ true
set_boot_config-keeps_read_only f opts p safe h =
    set_boot_config-cases IsProtected f p h (λ value. write_mode-IsProtected f value p safe h) opts

-- the byte at a place is what it was
abbrev Keeps : ℕ → ℕ → Partition → Type 0
Keeps place byte p = p.byte_at place ≡ byte

set_byte-Keeps :
    (f : Faults) (value : Option ℕ) (position place byte : ℕ) (p : Partition)
    → (place == position) ≡ false
    → Keeps place byte p
    → Keeps place byte (set_byte_at_offset f value position p).0
unfolding set_byte_at_offset
set_byte-Keeps f none position place byte p other h = h
set_byte-Keeps f (some value) position place byte p other h =
    elim (Bool-cases (p.read_only || f.write_fails position)) [
      | inl e ↦ rw e h
      | inr e ↦ rw (e, other) h
    ]

set_bytes-Keeps :
    (f : Faults) (value : Option ℕ) (positions : List ℕ) (place byte : ℕ) (p : Partition)
    → All (λ position. (place == position) ≡ false) positions
    → Keeps place byte p
    → Keeps place byte (set_bytes f value positions p).0
unfolding set_bytes
set_bytes-Keeps f value [] place byte p other h = h
set_bytes-Keeps f value (position ∷ rest) place byte p (o, other) h =
    after-keeps (Keeps place byte) (set_byte_at_offset f value position p) (set_bytes f value rest)
      (set_byte-Keeps f value position place byte p o h)
      (λ q. set_bytes-Keeps f value rest place byte q other)

set_read_only-Keeps :
    (f : Faults) (value : Bool) (place byte : ℕ) (p : Partition)
    → Keeps place byte p
    → Keeps place byte (set_read_only f value p).0
unfolding set_read_only
set_read_only-Keeps f value place byte p h = elim (Bool-cases (f.flag_fails value)) [
  | inl e ↦ rw e h
  | inr e ↦ rw e h
]

write_mode-Keeps :
    (f : Faults) (value : Option ℕ) (place byte : ℕ) (p : Partition)
    → All (λ position. (place == position) ≡ false) byte_offsets
    → Keeps place byte p
    → Keeps place byte (write_mode f value p).0
unfolding write_mode close
write_mode-Keeps f value place byte p other h =
    after-keeps (Keeps place byte) (set_read_only f false p)
      (λ q. close f (set_bytes f value byte_offsets q)) (set_read_only-Keeps f false place byte p h)
      (λ q k.
        set_read_only-Keeps f true place byte (set_bytes f value byte_offsets q).0
          (set_bytes-Keeps f value byte_offsets place byte q other k))

-- Setting the mode writes no byte but the three of ODMDATA.
pub set_boot_config-keeps_bytes :
    (f : Faults) (opts : List (String × String)) (p : Partition) (place : ℕ)
    → All (λ position. (place == position) ≡ false) byte_offsets
    → (set_boot_config f opts p).0.byte_at place ≡ p.byte_at place
set_boot_config-keeps_bytes f opts p place other =
    set_boot_config-cases (Keeps place (p.byte_at place)) f p refl
      (λ value. write_mode-Keeps f value place (p.byte_at place) p other refl) opts
