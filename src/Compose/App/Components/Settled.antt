-- ===== src/Compose/App/Components/Settled.antt =====
-- When the comparison of two lists of components finds nothing to change.
use balena_supervisor.Common.{
  ℕ, suc, String, Bool, true, false, not, List, [], ◌∷◌, ◌++◌, map, ◌≡◌, refl, ◌↔◌, arith, any,
  every, filter, ◌==◌, append-eq-nil, map-eq-nil, is_some-find,
}
use balena_supervisor.Common.Texts.{str_eq_self}
use balena_supervisor.Compose.App.Types.{ChangingPair}
use balena_supervisor.Compose.App.Components.{
  removal, creation, same_name, outdated, updates, missing_from, find_index, duplicates,
  updated_names, removals, compare_components,
}

module _ {T : Type 0} (name : T → String) (is_equal : T → T → Bool) where
  -- no two components of a list share a name
  abbrev pub Distinct : List T → Type 0
  Distinct [] = Unit
  Distinct (x ∷ xs) = (missing_from name is_equal xs x ≡ true) × Distinct xs

  -- each component has a counterpart in the other list
  abbrev pub all_named : List T → List T → Bool
  all_named xs others = every (λ x. any (same_name name is_equal x) others) xs

  -- no component of the current state is configured otherwise than its counterpart
  abbrev pub none_outdated : List T → List T → Bool
  none_outdated current target = every (λ t. not (any (outdated name is_equal t) current)) target

  filter_missing-eq-nil :
      (xs others : List T)
      → (filter (missing_from name is_equal others) xs ≡ []) ↔ (all_named xs others ≡ true)
  filter_missing-eq-nil [] others = (λ _. refl, λ _. refl)
  filter_missing-eq-nil (x ∷ xs) others = ground (arith, filter_missing-eq-nil xs others)

  updates-eq-nil :
      (current target : List T)
      → (updates name is_equal current target ≡ []) ↔ (none_outdated current target ≡ true)
  unfolding updates
  updates-eq-nil current [] = (λ _. refl, λ _. refl)
  updates-eq-nil current (t ∷ ts) =
      ground (arith, updates-eq-nil current ts, is_some-find (outdated name is_equal t) current)

  -- the loop over duplicates, if nothing is to be updated or removed before it
  abbrev AllFirst : List T → ℕ → List T → Type 0
  AllFirst all index [] = Unit
  AllFirst all index (x ∷ xs) =
      ((find_index name is_equal (name x) all == index) ≡ true) × AllFirst all (suc index) xs

  duplicates-eq-nil :
      (all : List T) (index : ℕ) (rest : List T)
      → (duplicates name is_equal all [] [] index rest ≡ []) ↔ AllFirst all index rest
  unfolding duplicates
  duplicates-eq-nil all index [] = (λ _. tt, λ _. refl)
  duplicates-eq-nil all index (x ∷ xs) = ground (arith, duplicates-eq-nil all (suc index) xs)

  AllFirst-cons :
      (x : T) (all : List T) (index : ℕ) (rest : List T)
      → AllFirst (x ∷ all) (suc index) rest
        ↔ (AllFirst all index rest × (missing_from name is_equal rest x ≡ true))
  AllFirst-cons x all index [] = (λ _. (tt, refl), λ _. tt)
  AllFirst-cons x all index (y ∷ ys) = ground (arith, AllFirst-cons x all (suc index) ys)

  AllFirst-Distinct : (xs : List T) → AllFirst xs 0 xs ↔ Distinct xs
  AllFirst-Distinct [] = (λ _. tt, λ _. tt)
  AllFirst-Distinct (x ∷ xs) =
      ground (arith, AllFirst-cons x xs 0 xs, AllFirst-Distinct xs, str_eq_self (name x))

  updated_names-eq-nil :
      (current target : List T)
      → none_outdated current target ≡ true
      → updated_names name is_equal current target ≡ []
  unfolding updated_names
  updated_names-eq-nil current [] h = refl
  updated_names-eq-nil current (t ∷ ts) h =
      ground
        (arith, updated_names-eq-nil current ts, is_some-find (outdated name is_equal t) current)

  -- The two lists hold components of the same names, configured alike, and the first list holds
  -- none twice.
  abbrev pub IsSettled : List T → List T → Type 0
  IsSettled current target =
      (none_outdated current target ≡ true)
      × (all_named target current ≡ true)
      × (all_named current target ≡ true)
      × Distinct current

  gone-eq-nil :
      (gone : List T) (more : List String → List (ChangingPair T))
      → (map removal gone ++ more (map name gone) ≡ []) ↔ ((gone ≡ []) × (more [] ≡ []))
  gone-eq-nil [] more = (λ h. (refl, h), λ h. h.1)
  gone-eq-nil (x ∷ xs) more = (λ h. cc, λ h. absurd (cc h.0))

  removals-eq-nil :
      (current target : List T)
      → none_outdated current target ≡ true
      → (removals name is_equal current target ≡ [])
        ↔ ((all_named current target ≡ true) × Distinct current)
  unfolding removals
  removals-eq-nil current target h =
      let removed =
        gone-eq-nil (filter (missing_from name is_equal target) current)
          (λ r. duplicates name is_equal current [] r 0 current) in
      let named = filter_missing-eq-nil current target in
      let first = duplicates-eq-nil current 0 current in
      let distinct = AllFirst-Distinct current in
      rw (updated_names-eq-nil current target h) (
        λ e. let (g, d) = removed.0 e in (named.0 g, distinct.0 (first.0 d)),
        λ (a, d). removed.1 (named.1 a, first.1 (distinct.1 d)),
      )

  pub compare_components-IsSettled :
      (current target : List T)
      → (compare_components name is_equal current target true ≡ []) ↔ IsSettled current target
  unfolding compare_components
  compare_components-IsSettled current target =
      let updated = updates-eq-nil current target in
      let created = filter_missing-eq-nil target current in
      (
        λ e.
            let (ur, c) = append-eq-nil _ _ e in
            let (u, r) = append-eq-nil _ _ ur in
            let settled = updated.0 u in
            let (a, d) = (removals-eq-nil current target settled).0 r in
            (settled, created.0 (map-eq-nil creation _ c), a, d),
        λ (settled, n, a, d).
            rw (updated.1 settled, (removals-eq-nil current target settled).1 (a, d))
              (rw (created.1 n)),
      )

  -- The comparison without removals finds nothing to change if no component is configured otherwise
  -- than the one of its name in the other list, and each component of the target is there.
  pub compare_components-eq-nil :
      (current target : List T)
      → none_outdated current target ≡ true
      → all_named target current ≡ true
      → compare_components name is_equal current target false ≡ []
  unfolding compare_components
  compare_components-eq-nil current target settled named =
      rw ((updates-eq-nil current target).1 settled, (filter_missing-eq-nil target current).1 named)
        refl
