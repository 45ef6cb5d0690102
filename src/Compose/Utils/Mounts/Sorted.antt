-- ===== src/Compose/Utils/Mounts/Sorted.antt =====
-- compose/service.ts: the volumes that are read back against those of the target, in the order in
-- which they are compared.
use balena_supervisor.Common.{
  String, Bool, true, false, List, [], ◌∷◌, ◌++◌, map, ◌≡◌, refl, ap, ◌∙◌, sym, subst, ◌⊎◌, All,
  arith, str_eq, eq_iff, Bool-cases, inl, inr, append_assoc, append-nil, All_intro, ◌||◌,
}
use balena_supervisor.Common.Texts.{has_char, includes}
use balena_supervisor.Common.Sort.{sort_by, insert_by}
use balena_supervisor.Common.SortLaws.{
  Separated, sort_by-middle, text_leb_total, text_leb_trans, text_leb_antisym,
}
use balena_supervisor.Compose.ServiceTypes.{LongDefinition, VolumeDefinition, short, long}
use balena_supervisor.Compose.Service.Comparison.{volume_text}
use balena_supervisor.Compose.Utils.Arrays.{by_text}
use balena_supervisor.Compose.Utils.Networks.Reported.{Distinct, uniq-Distinct}
use balena_supervisor.Compose.Utils.Mounts.{
  DockerMount, service_mount_to_docker_mount, docker_mount_to_service_mount, Mounted, add_key,
  mount_one, mount_all, get_binds_mounts_and_volumes, volumes_of_container,
}
use balena_supervisor.Compose.Utils.Mounts.RoundTrip.{
  IsPlain, docker_mount_to_service_mount-service_mount_to_docker_mount,
}

abbrev le : VolumeDefinition → VolumeDefinition → Bool
le = by_text volume_text

le_total : (x y : VolumeDefinition) → (le x y ≡ true) ⊎ (le y x ≡ true)
le_total x y = text_leb_total (volume_text x) (volume_text y)

le_trans : (x y z : VolumeDefinition) → le x y ≡ true → le y z ≡ true → le x z ≡ true
le_trans x y z = text_leb_trans (volume_text x) (volume_text y) (volume_text z)

-- the strings among the volumes
abbrev pub shorts : List VolumeDefinition → List String
shorts [] = []
shorts (short s ∷ volumes) = s ∷ shorts volumes
shorts (long d ∷ volumes) = shorts volumes

-- A volume that can be told from the others: a string that is not what an object reads as, or an
-- object with plain settings.
abbrev pub IsTold : VolumeDefinition → Type 0
IsTold (short s) = str_eq s "[object Object]" ≡ false
IsTold (long d) = IsPlain d

abbrev back : DockerMount → VolumeDefinition
back mount = long (docker_mount_to_service_mount mount)

-- what is read back, with no string taken out
abbrev view : Mounted → List VolumeDefinition
view m = map short m.binds ++ (map short m.volumes ++ map back m.mounts)

separated :
    (s : String) (v : VolumeDefinition)
    → str_eq s "[object Object]" ≡ false
    → Separated le le_total le_trans (short s) v
separated s (short t) h p q = ap short (text_leb_antisym s t p q)
separated s (long d) h p q =
    let same : s ≡ "[object Object]" = text_leb_antisym s "[object Object]" p q in
    let yes' : str_eq s "[object Object]" ≡ true = (eq_iff s "[object Object]").1 same in cc

-- A string is put in before or behind any volumes.
moved :
    (s : String) (xs ys : List VolumeDefinition)
    → str_eq s "[object Object]" ≡ false
    → sort_by le (xs ++ short s ∷ ys) ≡ insert_by le (short s) (sort_by le (xs ++ ys))
moved s xs ys h =
    sort_by-middle le le_total le_trans (short s) xs ys (All_intro _ (λ v. separated s v h) xs)

add_key-new :
    (s : String) (keys : List String) → includes keys s ≡ false → add_key s keys ≡ keys ++ s ∷ []
unfolding add_key
add_key-new s [] h = refl
add_key-new s (k ∷ keys) h = ground (arith, add_key-new s keys)

includes-append :
    (xs ys : List String) (s : String) → includes (xs ++ ys) s ≡ (includes xs s || includes ys s)
includes-append [] ys s = refl
includes-append (x ∷ xs) ys s = ground (arith, includes-append xs ys s)

Distinct-middle :
    (xs ys : List String) (s : String)
    → Distinct (xs ++ ys)
    → includes (xs ++ ys) s ≡ false
    → Distinct (xs ++ s ∷ ys)
Distinct-middle [] ys s d h = (h, d)
Distinct-middle (x ∷ xs) ys s (f, d) h = (
  rw (includes-append xs (s ∷ ys) x) (new_fresh (includes-append xs ys x)),
  Distinct-middle xs ys s d (ground arith),
)
  where
    new_fresh :
        includes (xs ++ ys) x ≡ (includes xs x || includes ys x)
        → (includes xs x || (str_eq s x || includes ys x)) ≡ false
    new_fresh e = ground (arith, eq_iff s x, eq_iff x s)

map_middle :
    (xs ys : List String) (zs : List VolumeDefinition) (s : String)
    → map short (xs ++ s ∷ ys) ++ zs ≡ map short xs ++ short s ∷ (map short ys ++ zs)
map_middle [] ys zs s = refl
map_middle (x ∷ xs) ys zs s = ap (λ l. short x ∷ l) (map_middle xs ys zs s)

-- A string that is put in somewhere is as good as one behind all that is mounted.
step_short :
    (s : String) (xs ys vs : List VolumeDefinition)
    → str_eq s "[object Object]" ≡ false
    → sort_by le ((xs ++ short s ∷ ys) ++ vs) ≡ sort_by le ((xs ++ ys) ++ short s ∷ vs)
step_short s xs ys vs h =
    ap (sort_by le) (append_assoc xs (short s ∷ ys) vs)
    ∙ moved s xs (ys ++ vs) h
    ∙ ap (λ l. insert_by le (short s) (sort_by le l)) (sym (append_assoc xs ys vs))
    ∙ sym (moved s (xs ++ ys) vs h)

-- The strings that are mounted and those still to come are all different.
record AreFresh (m : Mounted) (volumes : List VolumeDefinition) : Type 0 where
  mounted : Distinct (m.binds ++ m.volumes)
  fresh : All (λ s. includes (m.binds ++ m.volumes) s ≡ false) (shorts volumes)
  to_come : Distinct (shorts volumes)

others :
    (s : String) (xs ys ss : List String)
    → includes ss s ≡ false
    → All (λ t. includes (xs ++ ys) t ≡ false) ss
    → All (λ t. includes (xs ++ s ∷ ys) t ≡ false) ss
others s xs ys [] n h = tt
others s xs ys (t ∷ ss) n (f, h) = (
  rw (includes-append xs (s ∷ ys) t) (still_fresh (includes-append xs ys t)),
  others s xs ys ss (ground arith) h,
)
  where
    still_fresh :
        includes (xs ++ ys) t ≡ (includes xs t || includes ys t)
        → (includes xs t || (str_eq s t || includes ys t)) ≡ false
    still_fresh e = ground (arith, eq_iff s t, eq_iff t s)

abbrev FreshFor : List VolumeDefinition → List String → Type 0
FreshFor volumes strings = All (λ s. includes strings s ≡ false) (shorts volumes)

-- one more string, among the binds or behind them
AreFresh-short :
    (s : String) (xs ys : List String) (m m' : Mounted) (volumes : List VolumeDefinition)
    → m.binds ++ m.volumes ≡ xs ++ ys
    → m'.binds ++ m'.volumes ≡ xs ++ s ∷ ys
    → AreFresh m (short s ∷ volumes)
    → AreFresh m' volumes
AreFresh-short s xs ys m m' volumes e e' h =
    let (n, f) = h.fresh in
    let (d, u) = h.to_come in
    let still = others s xs ys (shorts volumes) d (subst (FreshFor volumes) e f) in
    record {
      mounted = rw e' (Distinct-middle xs ys s (rw e at h.mounted) (rw e at n));
      fresh = subst (FreshFor volumes) (sym e') still;
      to_come = u;
    }

mounts_snoc :
    (mounts : List DockerMount) (d : LongDefinition)
    → IsPlain d
    → map back (mounts ++ service_mount_to_docker_mount d ∷ []) ≡ map back mounts ++ long d ∷ []
mounts_snoc [] d p =
    ap (λ x. long x ∷ []) (docker_mount_to_service_mount-service_mount_to_docker_mount d p)
mounts_snoc (m ∷ mounts) d p = ap (λ l. back m ∷ l) (mounts_snoc mounts d p)

-- what one round leaves to be compared, and to be mounted
abbrev Continues : (m m' : Mounted) → VolumeDefinition → List VolumeDefinition → Type 0
Continues m m' v volumes =
    (sort_by le (view m' ++ volumes) ≡ sort_by le (view m ++ v ∷ volumes)) × AreFresh m' volumes

module _ (m : Mounted) (s : String) (volumes : List VolumeDefinition) (told : IsTold (short s))
    (h : AreFresh m (short s ∷ volumes)) where
  continues_bind : Continues m (record m { binds = m.binds ++ s ∷ [] }) (short s) volumes
  continues_bind =
      let others_mounted = map short m.volumes ++ map back m.mounts in
      (
        ap (λ l. sort_by le (l ++ volumes)) (map_middle m.binds [] others_mounted s)
            ∙ step_short s (map short m.binds) others_mounted volumes told,
        AreFresh-short s m.binds m.volumes m (record m { binds = m.binds ++ s ∷ [] }) volumes refl
            (append_assoc m.binds (s ∷ []) m.volumes) h,
      )

  continues_volume : Continues m (record m { volumes = m.volumes ++ s ∷ [] }) (short s) volumes
  continues_volume =
      let (b, v, o) : List VolumeDefinition × List VolumeDefinition × List VolumeDefinition =
        (map short m.binds, map short m.volumes, map back m.mounts) in
      (
        ap (λ l. sort_by le ((b ++ l) ++ volumes)) (map_middle m.volumes [] o s)
            ∙ ap (λ l. sort_by le (l ++ volumes)) (sym (append_assoc b v (short s ∷ o)))
            ∙ step_short s (b ++ v) o volumes told
            ∙ ap (λ l. sort_by le (l ++ short s ∷ volumes)) (append_assoc b v o),
        AreFresh-short s (m.binds ++ m.volumes) [] m (record m { volumes = m.volumes ++ s ∷ [] })
            volumes (sym (append-nil (m.binds ++ m.volumes)))
            (sym (append_assoc m.binds m.volumes (s ∷ []))) h,
      )

  -- a string that is no key yet
  no_key : includes m.volumes s ≡ false
  no_key = ground (arith, includes-append m.binds m.volumes s, h.fresh)

continues :
    (m : Mounted) (v : VolumeDefinition) (volumes : List VolumeDefinition)
    → IsTold v
    → AreFresh m (v ∷ volumes)
    → Continues m (mount_one m v) v volumes
unfolding mount_one
continues m (long d) volumes p h = (
  rw (mounts_snoc m.mounts d p) (
      ap (sort_by le) (
        ap (λ l. l ++ volumes)
          (ap (λ l. map short m.binds ++ l)
              (sym (append_assoc (map short m.volumes) (map back m.mounts) (long d ∷ [])))
            ∙ sym (
                append_assoc (map short m.binds) (map short m.volumes ++ map back m.mounts)
                  (long d ∷ [])))
        ∙ append_assoc (view m) (long d ∷ []) volumes)),
  record { mounted = h.mounted; fresh = h.fresh; to_come = h.to_come },
)
continues m (short s) volumes p h = elim (Bool-cases (has_char b':' s)) [
  | inl e ↦ rw e (continues_bind m s volumes p h)
  | inr e ↦
      rw (e, add_key-new s m.volumes (no_key m s volumes p h)) (continues_volume m s volumes p h)
]

mounted_all :
    (m : Mounted) (volumes : List VolumeDefinition)
    → All IsTold volumes
    → AreFresh m volumes
    → (sort_by le (view (mount_all m volumes)) ≡ sort_by le (view m ++ volumes))
      × Distinct ((mount_all m volumes).binds ++ (mount_all m volumes).volumes)
unfolding mount_all
mounted_all m [] t h = (ap (sort_by le) (sym (append-nil (view m))), h.mounted)
mounted_all m (v ∷ volumes) (told, t) h =
    let (same, still) = continues m v volumes told h in
    let (rest, distinct) = mounted_all (mount_one m v) volumes t still in (rest ∙ same, distinct)

map-append : (xs ys : List String) → map short (xs ++ ys) ≡ map short xs ++ map short ys
map-append [] ys = refl
map-append (x ∷ xs) ys = ap (λ l. short x ∷ l) (map-append xs ys)

-- The volumes that a container was given and that are read back are, when they are compared, those
-- of the target, provided that its strings are distinct and none reads as an object, and that its
-- objects set nothing to false, to 0 or to the empty string.
pub volumes_of_container-sorted :
    (volumes : List VolumeDefinition)
    → All IsTold volumes
    → Distinct (shorts volumes)
    → sort_by (by_text volume_text) (volumes_of_container (get_binds_mounts_and_volumes volumes))
      ≡ sort_by (by_text volume_text) volumes
unfolding volumes_of_container get_binds_mounts_and_volumes
volumes_of_container-sorted volumes t d =
    let empty : Mounted = record { binds = []; mounts = []; volumes = [] } in
    let fresh : AreFresh empty volumes = record {
      mounted = tt;
      fresh = All_intro _ (λ s. refl) (shorts volumes);
      to_come = d;
    } in
    let (same, distinct) = mounted_all empty volumes t fresh in
    let m = mount_all empty volumes in
    rw (uniq-Distinct (m.binds ++ m.volumes) distinct) (
      ap (sort_by le) (
        ap (λ l. l ++ map back m.mounts) (map-append m.binds m.volumes)
        ∙ append_assoc (map short m.binds) (map short m.volumes) (map back m.mounts))
      ∙ same)
