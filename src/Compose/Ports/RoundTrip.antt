-- ===== src/Compose/Ports/RoundTrip.antt =====
-- compose/ports.ts: `fromDockerOpts` takes back what `toDockerOpts` made of a range.
use balena_supervisor.Common.{
  ℕ, zero, suc, ◌+◌, ◌-◌, String, Bool, true, List, [], ◌∷◌, map, ◌≡◌, refl, ap, ◌∙◌, arith, leb,
  ◌==◌,
}
use balena_supervisor.Common.Texts.{str_eq_self, text_leb_self}
use balena_supervisor.Common.Sort.{sort_by, insert_by, insert_by-first}
use balena_supervisor.Common.Results.{ok, ◌>>=◌}
use balena_supervisor.Compose.Ports.{
  PortRange, single, continues, extend, fold_from, fold_ranges, sort_ranges, normalise_port_maps,
  by_protocol, by_host, by_internal_start, from_docker_opts, to_docker_opts,
}
use balena_supervisor.Compose.Ports.Bindings.{
  IsValid, size, binding, bindings, bindings_from, to_docker_opts-eq-bindings,
}
use balena_supervisor.Compose.Ports.Folding.{fold_from-continues}

-- the single ports of a row of bindings
abbrev pub singles : ℕ → ℕ → ℕ → String → String → List PortRange
singles count i e protocol host = map single (bindings_from count i e protocol host)

-- A row that is in order stays as it is.
sort_by-singles :
    (le : PortRange → PortRange → Bool) (protocol host : String)
    → ((i e : ℕ)
        → le (single (binding i e protocol host)) (single (binding (suc i) (suc e) protocol host))
          ≡ true)
    → (count i e : ℕ)
    → sort_by le (singles count i e protocol host) ≡ singles count i e protocol host
unfolding sort_by
sort_by-singles le protocol host ordered zero i e = refl
sort_by-singles le protocol host ordered (suc zero) i e = refl
sort_by-singles le protocol host ordered (suc (suc count)) i e =
    ap (insert_by le (single (binding i e protocol host)))
      (sort_by-singles le protocol host ordered (suc count) (suc i) (suc e))
    ∙ insert_by-first le _ _ _ (ordered i e)

leb-suc : (n : ℕ) → leb n (suc n) ≡ true
leb-suc n = ground arith

sort_ranges-singles :
    (count i e : ℕ) (protocol host : String)
    → sort_ranges (singles count i e protocol host) ≡ singles count i e protocol host
unfolding sort_ranges
sort_ranges-singles count i e protocol host =
    rw
      (
        sort_by-singles by_protocol protocol host (λ i e. text_leb_self protocol) count i e,
        sort_by-singles by_host protocol host (λ i e. text_leb_self host) count i e,
      )
      (sort_by-singles by_internal_start protocol host (λ i e. leb-suc i) count i e)

eq-test : (n : ℕ) → (n == n) ≡ true
eq-test n = ground arith

pub continues-next :
    (last : PortRange)
    → continues last
        (single (binding (suc last.internal_end) (suc last.external_end) last.protocol last.host))
      ≡ true
continues-next last =
    rw
      (
        eq-test (suc last.internal_end),
        eq-test (suc last.external_end),
        str_eq_self last.protocol,
        str_eq_self last.host,
      )
      refl

-- The ports that follow a range are all taken into it.
fold_from-singles :
    (count : ℕ) (last : PortRange) (j f : ℕ)
    → j ≡ last.internal_end + count
    → f ≡ last.external_end + count
    → fold_from last
        (singles count (suc last.internal_end) (suc last.external_end) last.protocol last.host)
      ≡ record last { internal_end = j; external_end = f } ∷ []
unfolding fold_from
fold_from-singles zero last j f h k =
    let a : j ≡ last.internal_end = omega (arith, h) in
    let b : f ≡ last.external_end = omega (arith, k) in rw (a, b) refl
fold_from-singles (suc count) last j f h k =
    fold_from-continues last _ _ (continues-next last)
    ∙ fold_from-singles count (extend last) j f (omega (arith, h)) (omega (arith, k))

-- A valid range is found again in the bindings that it stands for.
from_docker_opts-bindings : (r : PortRange) → IsValid r → from_docker_opts (bindings r) ≡ r ∷ []
unfolding from_docker_opts normalise_port_maps fold_ranges
from_docker_opts-bindings r v =
    let count = r.internal_end - r.internal_start in
    let some_ports : size r ≡ suc count = omega (arith, v.ordered) in
    rw
      (
        some_ports,
        sort_ranges-singles (suc count) r.internal_start r.external_start r.protocol r.host,
      )
      (fold_from-singles count
        (single (binding r.internal_start r.external_start r.protocol r.host)) r.internal_end
        r.external_end (omega (arith, v.ordered)) (omega (arith, v.ordered, v.same_size)))

-- What Docker reports of a valid range, one binding for each port, is read back as that range.
pub from_docker_opts-to_docker_opts :
    (r : PortRange)
    → IsValid r
    → (to_docker_opts r >>= λ opts. ok (from_docker_opts opts)) ≡ ok (r ∷ [])
from_docker_opts-to_docker_opts r v =
    rw (to_docker_opts-eq-bindings r v) (ap ok (from_docker_opts-bindings r v))
