-- ===== src/Compose/Ports/Spread.antt =====
-- compose/ports.ts: `fromDockerOpts` takes back what Docker was given for a list of ranges.
use mathlib.Core.List.{flat_map}
use balena_supervisor.Common.{
  ℕ, zero, suc, ◌+◌, ◌-◌, ◌≤◌, ◌<◌, ◌⊎◌, String, true, false, List, [], ◌∷◌, ◌++◌, map, ◌≡◌, refl,
  ap, ◌∙◌, arith, All, All-append, All_imp,
}
use balena_supervisor.Common.Sort.{sort_by, insert_by, insert_by-first}
use balena_supervisor.Common.SortLaws.{AreSeparated, sort_by-AreSeparated, sort_by_twice}
use balena_supervisor.Compose.Ports.{
  PortRange, single, continues, extend, fold_from, fold_ranges, sort_ranges, normalise_port_maps,
  by_protocol, by_host, by_internal_start, from_docker_opts,
}
use balena_supervisor.Compose.Ports.Bindings.{IsValid, size, binding, bindings}
use balena_supervisor.Compose.Ports.Folding.{fold_from-continues, fold_from-apart}
use balena_supervisor.Compose.Ports.RoundTrip.{singles, continues-next}

-- The next range, if there is one, begins above the range, and is not its continuation: a gap of
-- internal or of external ports, another protocol or another address is between them.
abbrev pub Precedes : PortRange → List PortRange → Type 0
Precedes r [] = Unit
Precedes r (s ∷ rest) = (r.internal_end < s.internal_start) × (continues r s ≡ false)

-- Valid ranges in the order of their internal ports, none of which continues the one before it.
abbrev pub AreSpread : List PortRange → Type 0
AreSpread [] = Unit
AreSpread (r ∷ rest) = IsValid r × Precedes r rest × AreSpread rest

-- the ports of ranges, one by one
abbrev ports_of : List PortRange → List PortRange
ports_of rs = map single (flat_map bindings rs)

abbrev IsFrom : ℕ → PortRange → Type 0
IsFrom n p = n ≤ p.internal_start

-- Single ports in ascending order.
abbrev Ascends : List PortRange → Type 0
Ascends [] = Unit
Ascends (p ∷ ps) = All (IsFrom (suc p.internal_start)) ps × Ascends ps

module _ (protocol host : String) where
  singles-IsFrom : (n count i e : ℕ) → n ≤ i → All (IsFrom n) (singles count i e protocol host)
  singles-IsFrom n zero i e h = tt
  singles-IsFrom n (suc count) i e h =
      (h, singles-IsFrom n count (suc i) (suc e) (omega (arith, h)))

  singles-Ascends :
      (count i e n : ℕ) (rest : List PortRange)
      → i + count ≤ n
      → All (IsFrom n) rest
      → Ascends rest
      → Ascends (singles count i e protocol host ++ rest)
  singles-Ascends zero i e n rest h k a = a
  singles-Ascends (suc count) i e n rest h k a = (
    All-append _ _ rest (singles-IsFrom (suc i) count (suc i) (suc e) (omega arith))
        (All_imp _ _ (λ p g. omega (arith, g, h)) rest k),
    singles-Ascends count (suc i) (suc e) n rest (omega (arith, h)) k a,
  )

map-append :
    {A : Type 0} {B : Type 0} (f : A → B) (xs ys : List A) → map f (xs ++ ys) ≡ map f xs ++ map f ys
map-append f [] ys = refl
map-append f (x ∷ xs) ys = ap (λ l. f x ∷ l) (map-append f xs ys)

ports_of-cons :
    (r : PortRange) (rest : List PortRange)
    → ports_of (r ∷ rest)
      ≡ singles (size r) r.internal_start r.external_start r.protocol r.host ++ ports_of rest
unfolding flat_map
ports_of-cons r rest = map-append single (bindings r) (flat_map bindings rest)

ports_of-IsFrom :
    (r : PortRange) (rest : List PortRange)
    → Precedes r rest
    → AreSpread rest
    → All (IsFrom (suc r.internal_end)) (ports_of rest)
unfolding flat_map
ports_of-IsFrom r [] p h = tt
ports_of-IsFrom r (s ∷ rest) (b, c) (v, q, h) = rw (ports_of-cons s rest) (
    All-append _ _ _
      (singles-IsFrom s.protocol s.host (suc r.internal_end) (size s) s.internal_start
        s.external_start (omega (arith, b)))
      (All_imp _ _ (λ p g. omega (arith, g, b, v.ordered)) _ (ports_of-IsFrom s rest q h)))

ports_of-Ascends : (rs : List PortRange) → AreSpread rs → Ascends (ports_of rs)
unfolding flat_map
ports_of-Ascends [] h = tt
ports_of-Ascends (r ∷ rest) (v, p, h) = rw (ports_of-cons r rest) (
    singles-Ascends r.protocol r.host (size r) r.internal_start r.external_start
      (suc r.internal_end) (ports_of rest) (omega (arith, v.ordered)) (ports_of-IsFrom r rest p h)
      (ports_of-Ascends rest h))

start_total : (x y : PortRange) → (by_internal_start x y ≡ true) ⊎ (by_internal_start y x ≡ true)
start_total x y = ground arith

start_trans :
    (x y z : PortRange)
    → by_internal_start x y ≡ true
    → by_internal_start y z ≡ true
    → by_internal_start x z ≡ true
start_trans x y z h k = ground arith

Ascends-AreSeparated :
    (ps : List PortRange) → Ascends ps → AreSeparated by_internal_start start_total start_trans ps
Ascends-AreSeparated [] h = tt
Ascends-AreSeparated (p ∷ ps) (b, h) =
    (All_imp _ _ (λ q g up down. absurd (above p q g down)) ps b, Ascends-AreSeparated ps h)
  where
    above : (p q : PortRange) → IsFrom (suc p.internal_start) q → by_internal_start q p ≡ true → ⊥
    above p q g down = ground arith

-- Ports in ascending order stay in it.
sort_by-Ascends : (ps : List PortRange) → Ascends ps → sort_by by_internal_start ps ≡ ps
unfolding sort_by
sort_by-Ascends [] h = refl
sort_by-Ascends (p ∷ []) h = refl
sort_by-Ascends (p ∷ q ∷ ps) ((b, c), h) =
    ap (insert_by by_internal_start p) (sort_by-Ascends (q ∷ ps) h)
    ∙ insert_by-first by_internal_start p q ps (ground (arith, b))

sort_ranges-Ascends : (ps : List PortRange) → Ascends ps → sort_ranges ps ≡ ps
unfolding sort_ranges
sort_ranges-Ascends ps h =
    let separated = Ascends-AreSeparated ps h in
    sort_by_twice by_internal_start start_total start_trans by_host (sort_by by_protocol ps)
      (sort_by-AreSeparated by_internal_start start_total start_trans by_protocol ps separated)
    ∙ sort_by_twice by_internal_start start_total start_trans by_protocol ps separated
    ∙ sort_by-Ascends ps h

-- The ports that follow a range are all taken into it, before the others.
fold_from-row :
    (count : ℕ) (last : PortRange) (j f : ℕ) (rest : List PortRange)
    → j ≡ last.internal_end + count
    → f ≡ last.external_end + count
    → fold_from last (
        singles count (suc last.internal_end) (suc last.external_end) last.protocol last.host
        ++ rest)
      ≡ fold_from (record last { internal_end = j; external_end = f }) rest
fold_from-row zero last j f rest h k =
    let a : j ≡ last.internal_end = omega (arith, h) in
    let b : f ≡ last.external_end = omega (arith, k) in rw (a, b) refl
fold_from-row (suc count) last j f rest h k =
    fold_from-continues last _ _ (continues-next last)
    ∙ fold_from-row count (extend last) j f rest (omega (arith, h)) (omega (arith, k))

fold_ranges-spread :
    (r : PortRange) (rest : List PortRange)
    → AreSpread (r ∷ rest)
    → fold_ranges (ports_of (r ∷ rest)) ≡ fold_from r (ports_of rest)
unfolding fold_ranges
fold_ranges-spread r rest (v, p, h) =
    let count = r.internal_end - r.internal_start in
    let some_ports : size r ≡ suc count = omega (arith, v.ordered) in
    rw (ports_of-cons r rest, some_ports)
      (fold_from-row count (single (binding r.internal_start r.external_start r.protocol r.host))
        r.internal_end r.external_end (ports_of rest) (omega (arith, v.ordered))
        (omega (arith, v.ordered, v.same_size)))

fold_from-spread :
    (r : PortRange) (rest : List PortRange)
    → Precedes r rest
    → AreSpread rest
    → fold_from r (ports_of rest) ≡ r ∷ rest
unfolding fold_from flat_map
fold_from-spread r [] p h = refl
fold_from-spread r (s ∷ rest) (b, c) (v, q, h) =
    let count = s.internal_end - s.internal_start in
    let some_ports : size s ≡ suc count = omega (arith, v.ordered) in
    let first = single (binding s.internal_start s.external_start s.protocol s.host) in
    let more =
      singles count (suc s.internal_start) (suc s.external_start) s.protocol s.host
      ++ ports_of rest in
    rw (ports_of-cons s rest, some_ports)
      (fold_from-apart r first more c
        ∙ ap (λ l. r ∷ l)
            (fold_from-row count first s.internal_end s.external_end (ports_of rest)
                (omega (arith, v.ordered)) (omega (arith, v.ordered, v.same_size))
              ∙ fold_from-spread s rest q h))

-- Valid ranges in ascending order, none of which continues another, are found again in the bindings
-- that they stand for.
pub from_docker_opts-spread :
    (rs : List PortRange) → AreSpread rs → from_docker_opts (flat_map bindings rs) ≡ rs
unfolding from_docker_opts normalise_port_maps fold_ranges flat_map
from_docker_opts-spread [] h = sort_ranges-Ascends [] tt
from_docker_opts-spread (r ∷ rest) (v, p, h) =
    ap fold_ranges
      (sort_ranges-Ascends (ports_of (r ∷ rest)) (ports_of-Ascends (r ∷ rest) (v, p, h)))
    ∙ fold_ranges-spread r rest (v, p, h)
    ∙ fold_from-spread r rest p h
