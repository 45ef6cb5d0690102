-- ===== src/Compose/Service/Container/Published.antt =====
-- compose/service.ts: `generateExposeAndPorts` of ranges in ascending order, read back.
use mathlib.Core.List.{flat_map}
use balena_supervisor.Common.{
  ℕ, String, zero, suc, ◌+◌, ◌≤◌, ◌<◌, List, [], ◌∷◌, ◌++◌, map, ◌≡◌, refl, ap, sym, subst, ◌∙◌,
  arith, All, All-append, All_imp, append-nil, append_assoc,
}
use balena_supervisor.Common.Results.{ok, map_result, ok_injective}
use balena_supervisor.Compose.Ports.{PortRange, PortBinding, to_docker_opts, from_docker_opts}
use balena_supervisor.Compose.Ports.Bindings.{
  size, binding, bindings, bindings_from, to_docker_opts-eq-bindings,
}
use balena_supervisor.Compose.Ports.Spread.{Precedes, AreSpread, from_docker_opts-spread}
use balena_supervisor.Compose.Service.Container.{
  merge_binding, merge_bindings, merge_all, generate_expose_and_ports,
}

IsBelow : ℕ → PortBinding → Type 0
IsBelow n b = b.internal < n

merge_binding-new :
    (b : PortBinding) (acc : List PortBinding)
    → All (IsBelow b.internal) acc
    → merge_binding acc b ≡ acc ++ b ∷ []
unfolding merge_binding IsBelow
merge_binding-new b [] h = refl
merge_binding-new b (x ∷ acc) (l, h) = ground (arith, merge_binding-new b acc h)

merge_bindings-row :
    (count i e : ℕ) (protocol host : String) (acc : List PortBinding)
    → All (IsBelow i) acc
    → merge_bindings acc (bindings_from count i e protocol host)
      ≡ acc ++ bindings_from count i e protocol host
unfolding merge_bindings IsBelow
merge_bindings-row zero i e protocol host acc h = sym (append-nil acc)
merge_bindings-row (suc count) i e protocol host acc h =
    let b = binding i e protocol host in
    ap (λ a. merge_bindings a (bindings_from count (suc i) (suc e) protocol host))
      (merge_binding-new b acc h)
    ∙ merge_bindings-row count (suc i) (suc e) protocol host (acc ++ b ∷ [])
        (All-append _ acc (b ∷ []) (All_imp _ _ (λ c l. omega (arith, l)) acc h) (omega arith, tt))
    ∙ append_assoc acc (b ∷ []) (bindings_from count (suc i) (suc e) protocol host)

bindings_from-IsBelow :
    (count i e n : ℕ) (protocol host : String)
    → i + count ≤ n
    → All (IsBelow n) (bindings_from count i e protocol host)
unfolding IsBelow
bindings_from-IsBelow zero i e n protocol host h = tt
bindings_from-IsBelow (suc count) i e n protocol host h = (
  omega (arith, h),
  bindings_from-IsBelow count (suc i) (suc e) n protocol host (omega (arith, h)),
)

-- All ranges begin at `n` or above it.
BeginsFrom : ℕ → List PortRange → Type 0
BeginsFrom n [] = Unit
BeginsFrom n (r ∷ rest) = n ≤ r.internal_start

Precedes-BeginsFrom :
    (r : PortRange) (rest : List PortRange) → Precedes r rest → BeginsFrom (suc r.internal_end) rest
unfolding BeginsFrom
Precedes-BeginsFrom r [] p = tt
Precedes-BeginsFrom r (s ∷ rest) (b, c) = omega (arith, b)

merge_all-spread :
    (n : ℕ) (acc : List PortBinding) (rs : List PortRange)
    → All (IsBelow n) acc
    → BeginsFrom n rs
    → AreSpread rs
    → merge_all acc (map bindings rs) ≡ acc ++ flat_map bindings rs
unfolding merge_all flat_map IsBelow BeginsFrom
merge_all-spread n acc [] h f s = sym (append-nil acc)
merge_all-spread n acc (r ∷ rest) h f (v, p, s) =
    let below : All (λ b. b.internal < r.internal_start) acc =
      All_imp _ _ (λ b l. omega (arith, l, f)) acc h in
    ap (λ a. merge_all a (map bindings rest))
      (merge_bindings-row (size r) r.internal_start r.external_start r.protocol r.host acc below)
    ∙ merge_all-spread (suc r.internal_end) (acc ++ bindings r) rest
        (All-append _ acc (bindings r) (All_imp _ _ (λ b l. omega (arith, l, v.ordered)) acc below)
          (bindings_from-IsBelow (size r) r.internal_start r.external_start (suc r.internal_end)
            r.protocol r.host (omega (arith, v.ordered))))
        (Precedes-BeginsFrom r rest p) s
    ∙ append_assoc acc (bindings r) (flat_map bindings rest)

map_result-bindings :
    (rs : List PortRange) → AreSpread rs → map_result to_docker_opts rs ≡ ok (map bindings rs)
unfolding map_result
map_result-bindings [] h = refl
map_result-bindings (r ∷ rest) (v, p, h) =
    rw (to_docker_opts-eq-bindings r v, map_result-bindings rest h) refl

from_nothing : (rs : List PortRange) → BeginsFrom 0 rs
unfolding BeginsFrom
from_nothing [] = tt
from_nothing (r ∷ rest) = omega arith

-- The bindings that the engine is given for valid ranges in ascending order, none of which continues
-- another, are read back as these ranges.
pub from_docker_opts-generate_expose_and_ports :
    (rs : List PortRange) (published : List PortBinding)
    → AreSpread rs
    → generate_expose_and_ports rs ≡ ok published
    → from_docker_opts published ≡ rs
unfolding generate_expose_and_ports
from_docker_opts-generate_expose_and_ports rs published h e =
    let given : generate_expose_and_ports rs ≡ ok (flat_map bindings rs) =
      rw (map_result-bindings rs h) (ap ok (merge_all-spread 0 [] rs tt (from_nothing rs) h)) in
    subst (λ b. from_docker_opts b ≡ rs) (ok_injective (sym given ∙ e))
      (from_docker_opts-spread rs h)
