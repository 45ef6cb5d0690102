-- ===== src/Compose/Ports/Bindings.antt =====
-- compose/ports.ts: the bindings that a range stands for, and `toDockerOpts`.
use balena_supervisor.Common.{
  ℕ, zero, suc, ◌+◌, ◌-◌, ◌≤◌, String, false, List, [], ◌∷◌, ◌++◌, ◌≡◌, refl, ap, arith, ltb,
}
use balena_supervisor.Common.Results.{ok}
use balena_supervisor.Compose.Ports.{
  PortRange, PortBinding, range_from, generate_port_range, zip_ports, to_docker_opts,
}

abbrev pub binding : ℕ → ℕ → String → String → PortBinding
binding i e protocol host = record {
  internal = i;
  protocol = protocol;
  host_ip = host;
  host_port = e;
}

-- `count` bindings in a row
abbrev pub bindings_from : ℕ → ℕ → ℕ → String → String → List PortBinding
bindings_from zero i e protocol host = []
bindings_from (suc count) i e protocol host =
    binding i e protocol host ∷ bindings_from count (suc i) (suc e) protocol host

-- how many ports a range has
abbrev pub size : PortRange → ℕ
size r = suc r.internal_end - r.internal_start

-- the bindings that a range stands for, in order
abbrev pub bindings : PortRange → List PortBinding
bindings r = bindings_from (size r) r.internal_start r.external_start r.protocol r.host

-- The range has a port, and as many external ones as internal ones.
pub record IsValid (r : PortRange) : Type 0 where
  pub ordered : r.internal_start ≤ r.internal_end
  pub same_size : r.internal_end + r.external_start ≡ r.external_end + r.internal_start

not-ltb : (a b : ℕ) → b ≤ a → ltb a b ≡ false
not-ltb a b h = ground arith

zipped :
    (r : PortRange) (count i e : ℕ)
    → zip_ports r (range_from i count) (range_from e count)
      ≡ bindings_from count i e r.protocol r.host
unfolding zip_ports range_from
zipped r zero i e = refl
zipped r (suc count) i e =
    ap (λ rest. binding i e r.protocol r.host ∷ rest) (zipped r count (suc i) (suc e))

-- A valid range is turned into one binding for each of its ports.
pub to_docker_opts-eq-bindings : (r : PortRange) → IsValid r → to_docker_opts r ≡ ok (bindings r)
unfolding to_docker_opts generate_port_range
to_docker_opts-eq-bindings r v =
    let same : suc r.external_end - r.external_start ≡ size r =
      omega (arith, v.ordered, v.same_size) in
    let external : r.external_start ≤ r.external_end = omega (arith, v.ordered, v.same_size) in
    rw (not-ltb _ _ v.ordered, not-ltb _ _ external, same)
      (ap ok (zipped r (size r) r.internal_start r.external_start))

-- one more binding at the end
pub bindings_from-suc :
    (count i e j f : ℕ) (protocol host : String)
    → j ≡ i + count
    → f ≡ e + count
    → bindings_from (suc count) i e protocol host
      ≡ bindings_from count i e protocol host ++ binding j f protocol host ∷ []
bindings_from-suc zero i e j f protocol host h k =
    let same : i ≡ j = omega (arith, h) in
    let same' : e ≡ f = omega (arith, k) in rw (same, same') refl
bindings_from-suc (suc count) i e j f protocol host h k =
    ap (λ rest. binding i e protocol host ∷ rest)
      (bindings_from-suc count (suc i) (suc e) j f protocol host (omega (arith, h))
        (omega (arith, k)))
