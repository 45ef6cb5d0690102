-- ===== src/Compose/ApplicationManager/Downloads.antt =====
-- compose/application-manager.ts: the limit on the deltas that are downloaded at once, the last part
-- of `inferNextSteps`. `max_delta_downloads` stands in lib/constants.ts.
pub mod Bounds
use balena_supervisor.Common.{
  ℕ, zero, suc, ◌+◌, ◌-◌, Bool, true, false, ◌&&◌, List, [], ◌∷◌, Option, none, some, any, filter,
  length, ◌==◌, some_and, is_empty, if◌then◌else◌, not,
}
use balena_supervisor.Compose.Images.{Image}
use balena_supervisor.Compose.Steps.{CompositionStep, fetch, is_fetch, noop}

unfoldable pub max_delta_downloads : ℕ
max_delta_downloads = 3

-- n > 0
abbrev pub is_positive : ℕ → Bool
is_positive zero = false
is_positive (suc n) = true

-- the app of a download
abbrev pub fetch_app : CompositionStep → Option ℕ
fetch_app (fetch image name) = some image.app_id
fetch_app _ = none

-- a download for an app that has an image already
abbrev pub is_update_fetch : List Image → CompositionStep → Bool
is_update_fetch available step =
    some_and (fetch_app step) (λ id. any (λ (i : Image). i.app_id == id) available)

-- The filter; `block` is `downloadsToBlock`, and 0 where that is negative.
unfoldable pub block_downloads : List Image → ℕ → List CompositionStep → List CompositionStep
block_downloads available block [] = []
block_downloads available block (step ∷ rest) =
    elim (is_positive block && is_update_fetch available step) [
      | true ↦ block_downloads available (block - 1) rest
      | false ↦ step ∷ block_downloads available block rest
    ]

-- newDownloads
abbrev pub count_fetches : List CompositionStep → ℕ
count_fetches steps = length (filter is_fetch steps)

unfoldable pub limit_deltas :
    (delta : Bool) (downloading : ℕ) → List Image → List CompositionStep → List CompositionStep
unfolding block_downloads max_delta_downloads
limit_deltas delta downloading available steps =
    if delta && is_positive (count_fetches steps)
    then block_downloads available (downloading + count_fetches steps - max_delta_downloads) steps
    else steps

-- the state application is kept alive while images are downloaded
unfoldable pub keep_alive : (downloading : ℕ) → List CompositionStep → List CompositionStep
keep_alive downloading steps =
    if is_empty steps && is_positive downloading then noop ∷ [] else steps
