-- ===== src/Compose/Utils/NormalLabels.antt =====
-- compose/utils.ts: the labels of a container, with the old names of the supervisor's labels
-- replaced.
pub mod Normal
use Prim.Native.String
use Prim.Native.String.{String, [], ◌∷◌}
use mathlib.Core.List
use text.Mathlib.Text.{starts_with}
use balena_supervisor.Common.{ℕ, zero, suc, Bool, true, false, ◌||◌, not, filter, map, ◌≡◌, refl}
use balena_supervisor.Common.Dicts.{assign}
use balena_supervisor.Compose.Labels.{Labels}

-- the text behind `skip` characters, with each `resin` in it replaced
replaced_behind : ℕ → String → String
replaced_behind skip [] = []
replaced_behind (suc skip) (c ∷ s) = replaced_behind skip s
replaced_behind zero (c ∷ s) = elim (starts_with (c ∷ s) "resin") [
  | true ↦ String.◌++◌ "balena" (replaced_behind 4 s)
  | false ↦ c ∷ replaced_behind zero s
]

-- k.replace(/resin/g, 'balena')
unfoldable pub replace_resin : String → String
unfolding replaced_behind
replace_resin = replaced_behind 0

abbrev pub is_legacy : String → Bool
is_legacy k = starts_with k "io.resin."

abbrev pub is_balena : String → Bool
is_balena k = starts_with k "io.balena."

unfoldable pub normalize_labels : Labels → Labels
unfolding replace_resin
normalize_labels labels =
    let legacy = map (λ (k, v). (replace_resin k, v)) (filter (λ (k, v). is_legacy k) labels) in
    let balena = filter (λ (k, v). is_balena k) labels in
    let other = filter (λ (k, v). not (is_balena k || is_legacy k)) labels in
    assign (assign (assign List.[] other) (assign List.[] legacy)) balena

replace_resin_test : replace_resin "io.resin.features.resin-api" ≡ "io.balena.features.balena-api"
unfolding replace_resin
replace_resin_test = refl
