-- ===== src/Config/Odmdata/RoundTrip.antt =====
-- config/backends/odmdata.ts: the mode that is set is the mode that is read.
use balena_supervisor.Common.{
  ℕ, zero, suc, ◌≤◌, Bool, true, false, some, ◌≡◌, refl, ap, ◌∙◌, arith, List, [], ◌∷◌,
}
use balena_supervisor.Common.Results.{ok}
use balena_supervisor.Config.Odmdata.{
  Partition, Faults, Done, after, close, in_the_end, write_byte, byte_offsets, set_read_only,
  set_byte_at_offset, set_bytes, write_mode, set_mode, get_boot_config, parse_options,
}

-- No operation of the file system fails.
pub record IsSound (f : Faults) : Type 0 where
  pub flags : (value : Bool) → f.flag_fails value ≡ false
  pub writes : (position : ℕ) → f.write_fails position ≡ false
  pub reads : (position : ℕ) → f.read_fails position ≡ false

set_read_only-eq :
    (f : Faults) (value : Bool) (p : Partition)
    → f.flag_fails value ≡ false
    → set_read_only f value p ≡ (record p { read_only = value }, ok tt)
unfolding set_read_only
set_read_only-eq f value p e = rw e refl

set_byte_at_offset-eq :
    (f : Faults) (byte position : ℕ) (p : Partition)
    → p.read_only ≡ false
    → f.write_fails position ≡ false
    → set_byte_at_offset f (some byte) position p ≡ (write_byte position byte p, ok tt)
unfolding set_byte_at_offset
set_byte_at_offset-eq f byte position p e w = rw (e, w) refl

set_bytes-eq :
    (f : Faults) (byte : ℕ) (p : Partition) (rest : List ℕ)
    → IsSound f
    → p.read_only ≡ false
    → (position : ℕ)
    → set_bytes f (some byte) (position ∷ rest) p
      ≡ set_bytes f (some byte) rest (write_byte position byte p)
unfolding set_bytes
set_bytes-eq f byte p rest s e position =
    ap (λ d. after d (set_bytes f (some byte) rest))
      (set_byte_at_offset-eq f byte position p e (s.writes position))

abbrev opened : Partition → Partition
opened p = record p { read_only = false }

abbrev all_written : ℕ → Partition → Partition
all_written byte p = write_byte 18043 byte (write_byte 5243 byte (write_byte 1659 byte (opened p)))

all_bytes :
    (f : Faults) (byte : ℕ) (p : Partition)
    → IsSound f
    → set_bytes f (some byte) byte_offsets (opened p) ≡ (all_written byte p, ok tt)
unfolding set_bytes
all_bytes f byte p s =
    set_bytes-eq f byte (opened p) (5243 ∷ 18043 ∷ []) s refl 1659
    ∙ set_bytes-eq f byte (write_byte 1659 byte (opened p)) (18043 ∷ []) s refl 5243
    ∙ set_bytes-eq f byte (write_byte 5243 byte (write_byte 1659 byte (opened p))) [] s refl 18043

write_mode-eq :
    (f : Faults) (byte : ℕ) (p : Partition)
    → IsSound f
    → write_mode f (some byte) p ≡ (record (all_written byte p) { read_only = true }, ok tt)
unfolding write_mode close
write_mode-eq f byte p s =
    ap (λ d. after d (λ q. close f (set_bytes f (some byte) byte_offsets q)))
      (set_read_only-eq f false p (s.flags false))
    ∙ ap (close f) (all_bytes f byte p s)
    ∙ ap (λ (d : Done). (d.0, in_the_end (ok tt) d.1))
        (set_read_only-eq f true (all_written byte p) (s.flags true))

-- the mode that a byte stands for is read from a partition with that byte
read_back :
    (f : Faults) (byte mode : ℕ) (p : Partition)
    → IsSound f
    → parse_options byte byte byte ≡ ok mode
    → get_boot_config f (write_mode f (some byte) p).0 ≡ ok mode
unfolding get_boot_config
read_back f byte mode p s e =
    rw (write_mode-eq f byte p s, s.reads 1659, s.reads 5243, s.reads 18043) e

-- Where no operation fails, setting one of the modes 1 to 6 makes it the mode that is read.
pub get_boot_config-set_mode :
    (f : Faults) (mode : ℕ) (p : Partition)
    → IsSound f
    → 1 ≤ mode
    → mode ≤ 6
    → get_boot_config f (set_mode f (some mode) p).0 ≡ ok mode
unfolding set_mode parse_options
get_boot_config-set_mode f zero p s low high = absurd (omega (arith, low))
get_boot_config-set_mode f (suc zero) p s low high = read_back f 0 1 p s refl
get_boot_config-set_mode f (suc (suc zero)) p s low high = read_back f 1 2 p s refl
get_boot_config-set_mode f (suc (suc (suc zero))) p s low high = read_back f 6 3 p s refl
get_boot_config-set_mode f (suc (suc (suc (suc zero)))) p s low high = read_back f 7 4 p s refl
get_boot_config-set_mode f (suc (suc (suc (suc (suc zero))))) p s low high =
    read_back f 2 5 p s refl
get_boot_config-set_mode f (suc (suc (suc (suc (suc (suc zero)))))) p s low high =
    read_back f 3 6 p s refl
get_boot_config-set_mode f (suc (suc (suc (suc (suc (suc (suc n))))))) p s low high =
    absurd (omega (arith, high))
