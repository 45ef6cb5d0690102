-- ===== src/Compose/App/Components/Justified.antt =====
-- Why a component is in the list of changes.
use balena_supervisor.Common.{
  ℕ, suc, ◌+◌, String, Bool, true, false, List, [], ◌∷◌, ◌++◌, none, some, ◌≡◌, sym, ap, ◌∙◌, ◌⊎◌,
  inl, inr, arith, filter, find, All, All-append, All_imp, All_intro, Bool-cases, Option-cases,
  find-eq-some, find-Member, ◌==◌, All-map_of, Member, All-filter-Member, Member-get_elem?,
  get_elem?, All_of_Member, All-compact, IfSome,
}
use balena_supervisor.Common.Texts.{includes}
use balena_supervisor.Compose.App.Types.{ChangingPair}
use balena_supervisor.Compose.App.Components.{
  removal, creation, outdated, changed, updates, missing_from, find_index, duplicates,
  updated_names, removals, compare_components,
}

module _ {T : Type 0} (name : T → String) (is_equal : T → T → Bool) (current target : List T) where
  -- A component is replaced if the target has one of its name that is configured otherwise. It is
  -- removed if the target has none of its name, or if it is not the first of its name in the
  -- current state. It is created if the current state has none of its name.
  abbrev pub Justified : ChangingPair T → Type 0
  Justified pair = elim pair.current [
    | some c ↦ elim pair.target [
      | some t ↦ Member c current × Member t target × (outdated name is_equal t c ≡ true)
      | none ↦
          Member c current
          × ((missing_from name is_equal target c ≡ true)
              ⊎ ((i : ℕ) × (get_elem? current i ≡ some c)
                  × ((find_index name is_equal (name c) current == i) ≡ false)))
    ]
    | none ↦ elim pair.target [
      | some t ↦ Member t target × (missing_from name is_equal current t ≡ true)
      | none ↦ ⊥
    ]
  ]

  changed-Justified : (t : T) → Member t target → IfSome Justified (changed name is_equal current t)
  changed-Justified t m = elim (Option-cases (find (outdated name is_equal t) current)) [
    | inl e ↦ rw (e, changed, IfSome) tt
    | inr (c, e) ↦
        rw (e, changed, IfSome)
          (
            find-Member (outdated name is_equal t) current c e,
            m,
            find-eq-some (outdated name is_equal t) current c e,
          )
  ]

  updates-Justified : All Justified (updates name is_equal current target)
  unfolding updates
  updates-Justified = All-compact Justified _ (
      All-map_of (IfSome Justified) (changed name is_equal current) target
        (All_of_Member _ target changed-Justified))

  -- `rest` is what is left of the list that `index` elements were taken from
  abbrev Suffix : ℕ → List T → Type 0
  Suffix index rest = (k : ℕ) → get_elem? rest k ≡ get_elem? current (index + k)

  Suffix-tail :
      (index : ℕ) (x : T) (rest : List T) → Suffix index (x ∷ rest) → Suffix (suc index) rest
  Suffix-tail index x rest s k = s (suc k) ∙ ap (get_elem? current) (omega arith)

  duplicates-Justified :
      (updated removed : List String) (index : ℕ) (rest : List T)
      → Suffix index rest
      → All Justified (duplicates name is_equal current updated removed index rest)
  unfolding duplicates
  duplicates-Justified updated removed index [] s = tt
  duplicates-Justified updated removed index (item ∷ rest) s =
      let later = Suffix-tail index item rest s in
      let more = duplicates-Justified updated (removed ++ name item ∷ []) (suc index) rest later in
      let skip = duplicates-Justified updated removed (suc index) rest later in
      let here : get_elem? current index ≡ some item =
        sym (s 0 ∙ ap (get_elem? current) (omega arith)) in
      elim (Bool-cases (find_index name is_equal (name item) current == index)) [
        | inl e ↦ rw e skip
        | inr e ↦ rw e (elim (Bool-cases (includes updated (name item))) [
          | inl u ↦ rw u skip
          | inr u ↦ rw u (elim (Bool-cases (includes removed (name item))) [
            | inl r ↦ rw r skip
            | inr r ↦ rw r ((Member-get_elem? current index item here, inr (index, here, e)), more)
          ])
        ])
      ]

  removals-Justified : All Justified (removals name is_equal current target)
  unfolding removals
  removals-Justified =
      All-append Justified _ _
        (All-map_of Justified removal (filter (missing_from name is_equal target) current) (
          All_imp _ _ (λ c h. (h.0, inl h.1)) _
            (All-filter-Member (missing_from name is_equal target) current)))
        (duplicates-Justified (updated_names name is_equal current target) _ 0 current
          (λ k. ap (get_elem? current) (omega arith)))

  -- Every change that the comparison emits, whether removals are asked for or not, replaces a
  -- current component by one of its name that is configured otherwise, removes one of a name that
  -- the target lacks or that is not the first of its name, or creates one of a name that the
  -- current state lacks.
  pub compare_components-Justified :
      (generate_removes : Bool)
      → All Justified (compare_components name is_equal current target generate_removes)
  unfolding compare_components
  compare_components-Justified r =
      let created =
        All-map_of Justified creation (filter (missing_from name is_equal current) target)
          (All-filter-Member (missing_from name is_equal current) target) in
      elim (Bool-cases r) [
        | inl e ↦ rw e (
            All-append Justified _ _ (All-append Justified _ _ updates-Justified removals-Justified)
              created)
        | inr e ↦
            rw e (All-append Justified _ _ (All-append Justified _ _ updates-Justified tt) created)
      ]

module _ {T : Type 0} (name : T → String) (is_equal : T → T → Bool) (current target : List T) where
  -- What the pair gives up has a counterpart that is configured otherwise.
  abbrev pub Replaces : ChangingPair T → Type 0
  Replaces pair =
      IfSome
        (λ c. Member c current × ((t : T) × Member t target × (outdated name is_equal t c ≡ true)))
        pair.current

  changed-Replaces : (t : T) → Member t target → IfSome Replaces (changed name is_equal current t)
  changed-Replaces t m = elim (Option-cases (find (outdated name is_equal t) current)) [
    | inl e ↦ rw (e, changed, IfSome) tt
    | inr (c, e) ↦
        rw (e, changed, IfSome)
          (
            find-Member (outdated name is_equal t) current c e,
            (t, m, find-eq-some (outdated name is_equal t) current c e),
          )
  ]

  -- Without removals, as for volumes, a component is given up only for one of its name that the
  -- target configures otherwise.
  pub compare_components-Replaces :
      All Replaces (compare_components name is_equal current target false)
  unfolding compare_components updates
  compare_components-Replaces =
      All-append Replaces _ _
        (All-append Replaces _ []
          (All-compact Replaces _ (
            All-map_of (IfSome Replaces) (changed name is_equal current) target
              (All_of_Member _ target changed-Replaces)))
          tt)
        (All-map_of Replaces creation _ (All_intro _ (λ t. tt) _))
