-- ===== src/Compose/Ports/Folding.antt =====
-- compose/ports.ts: `normalisePortMaps` keeps the bindings of single ports.
use mathlib.Core.List.Perm
use mathlib.Core.List.Permᴰ
use mathlib.Core.List.{Perm, Permᴰ, Perm-prop, flat_map}
use mathlib.Core.Logic.{∥∥₁_elim}
use balena_supervisor.Common.{
  ℕ, suc, ◌+◌, Bool, true, false, ◌&&◌, str_eq, List, [], ◌∷◌, ◌++◌, ◌≡◌, refl, ap, ◌∙◌, inl, inr,
  arith, Bool-cases, All, append_assoc, ◌==◌,
}
use balena_supervisor.Common.Texts.{eq_of_str_eq}
use balena_supervisor.Common.Sort.{sort_by-Perm, sort_by-All}
use balena_supervisor.Compose.Ports.{
  PortRange, continues, extend, fold_from, fold_ranges, sort_ranges, normalise_port_maps,
  by_protocol, by_host, by_internal_start,
}
use balena_supervisor.Compose.Ports.Bindings.{IsValid, size, bindings, bindings_from-suc}

-- The range is one port.
pub record IsSingle (r : PortRange) : Type 0 where
  pub internal_same : r.internal_end ≡ r.internal_start
  pub external_same : r.external_end ≡ r.external_start

extend-IsValid : (r : PortRange) → IsValid r → IsValid (extend r)
extend-IsValid r v = record {
  ordered = omega (arith, v.ordered);
  same_size = omega (arith, v.same_size);
}

IsSingle-IsValid : (r : PortRange) → IsSingle r → IsValid r
IsSingle-IsValid r s = record {
  ordered = omega (arith, s.internal_same);
  same_size = omega (arith, s.internal_same, s.external_same);
}

and_four :
    (a b c d : Bool) → (a && b && c && d) ≡ true → (a ≡ true) × (b ≡ true) × (c ≡ true) × (d ≡ true)
and_four a b c d h = ground arith

eq_of_test : (m n : ℕ) → (m == n) ≡ true → m ≡ n
eq_of_test m n h = ground arith

bindings-extend :
    (last p : PortRange)
    → IsValid last
    → IsSingle p
    → continues last p ≡ true
    → bindings (extend last) ≡ bindings last ++ bindings p
bindings-extend last p v s e =
    let (a, b, c, d) =
      and_four (suc last.internal_end == p.internal_start)
        (suc last.external_end == p.external_start) (str_eq last.protocol p.protocol)
        (str_eq last.host p.host) e in
    let i = eq_of_test (suc last.internal_end) p.internal_start a in
    let j = eq_of_test (suc last.external_end) p.external_start b in
    let one : size p ≡ 1 = omega (arith, s.internal_same) in
    let more : size (extend last) ≡ suc (size last) = omega (arith, v.ordered) in
    let internal : p.internal_start ≡ last.internal_start + size last =
      omega (arith, v.ordered, i) in
    let external : p.external_start ≡ last.external_start + size last =
      omega (arith, v.ordered, v.same_size, i, j) in
    let same_protocol = eq_of_str_eq last.protocol p.protocol c in
    let same_host = eq_of_str_eq last.host p.host d in
    rw (one, more, ← same_protocol, ← same_host)
      (bindings_from-suc (size last) last.internal_start last.external_start p.internal_start
        p.external_start last.protocol last.host internal external)

pub fold_from-continues :
    (last p : PortRange) (rest : List PortRange)
    → continues last p ≡ true
    → fold_from last (p ∷ rest) ≡ fold_from (extend last) rest
unfolding fold_from
fold_from-continues last p rest e = rw (e, fold_from) refl

pub fold_from-apart :
    (last p : PortRange) (rest : List PortRange)
    → continues last p ≡ false
    → fold_from last (p ∷ rest) ≡ last ∷ fold_from p rest
unfolding fold_from
fold_from-apart last p rest e = rw (e, fold_from) refl

-- folding keeps the bindings and their order
fold_from-bindings :
    (last : PortRange) (rest : List PortRange)
    → IsValid last
    → All IsSingle rest
    → flat_map bindings (fold_from last rest) ≡ bindings last ++ flat_map bindings rest
unfolding fold_from flat_map
fold_from-bindings last [] v h = refl
fold_from-bindings last (p ∷ rest) v (s, h) = elim (Bool-cases (continues last p)) [
  | inl e ↦ rw (fold_from-continues last p rest e) (
      fold_from-bindings (extend last) rest (extend-IsValid last v) h
      ∙ ap (λ b. b ++ flat_map bindings rest) (bindings-extend last p v s e)
      ∙ append_assoc (bindings last) (bindings p) (flat_map bindings rest))
  | inr e ↦
      rw (fold_from-apart last p rest e)
        (ap (λ b. bindings last ++ b) (fold_from-bindings p rest (IsSingle-IsValid p s) h))
]

-- What is built from the elements of two permutations is a permutation too.
module _ {A : Type 0} {B : Type 0} (f : A → List B) where
  flat_map-swap :
      (x y : A) (l : List A) → Perm (f y ++ (f x ++ flat_map f l)) (f x ++ (f y ++ flat_map f l))
  flat_map-swap x y l =
      rw (← append_assoc (f y) (f x) (flat_map f l), ← append_assoc (f x) (f y) (flat_map f l))
        (Perm.append_right (flat_map f l) ∣ Permᴰ.append_comm (f y) (f x) ∣₁)

  flat_map-Perm_of : {xs ys : List A} → Permᴰ xs ys → Perm (flat_map f xs) (flat_map f ys)
  unfolding flat_map
  flat_map-Perm_of Permᴰ.nil = Perm.refl []
  flat_map-Perm_of (Permᴰ.cons {a} {b} {l₁} {l₂} e d) =
      rw e (Perm.append_left (f b) (flat_map-Perm_of d))
  flat_map-Perm_of (Permᴰ.swap {a} {b} {a'} {b'} {l} e₁ e₂) = rw (e₁, e₂) (flat_map-swap a' b' l)
  flat_map-Perm_of (Permᴰ.trans d₁ d₂) = Perm.trans (flat_map-Perm_of d₁) (flat_map-Perm_of d₂)

  flat_map-Perm : (xs ys : List A) → Perm xs ys → Perm (flat_map f xs) (flat_map f ys)
  flat_map-Perm xs ys p = ∥∥₁_elim p Perm-prop flat_map-Perm_of

sort_ranges-Perm : (ranges : List PortRange) → Perm (sort_ranges ranges) ranges
unfolding sort_ranges
sort_ranges-Perm ranges =
    Perm.trans (sort_by-Perm by_internal_start _)
      (Perm.trans (sort_by-Perm by_host _) (sort_by-Perm by_protocol ranges))

sort_ranges-All :
    (P : PortRange → Type 0) (ranges : List PortRange) → All P ranges → All P (sort_ranges ranges)
unfolding sort_ranges
sort_ranges-All P ranges h =
    sort_by-All by_internal_start P _ (sort_by-All by_host P _ (sort_by-All by_protocol P ranges h))

fold_ranges-bindings :
    (ranges : List PortRange)
    → All IsSingle ranges
    → flat_map bindings (fold_ranges ranges) ≡ flat_map bindings ranges
unfolding fold_ranges flat_map
fold_ranges-bindings [] h = refl
fold_ranges-bindings (p ∷ rest) (s, h) = fold_from-bindings p rest (IsSingle-IsValid p s) h

-- Normalising single ports, as Docker reports them, keeps every binding once.
pub normalise_port_maps-Perm :
    (ranges : List PortRange)
    → All IsSingle ranges
    → Perm (flat_map bindings (normalise_port_maps ranges)) (flat_map bindings ranges)
unfolding normalise_port_maps
normalise_port_maps-Perm ranges h =
    rw (fold_ranges-bindings (sort_ranges ranges) (sort_ranges-All IsSingle ranges h))
      (flat_map-Perm bindings _ _ (sort_ranges-Perm ranges))
