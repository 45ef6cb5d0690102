-- ===== src/Compose/App/Services/Pairs.antt =====
-- compose/app.ts: what the pairs that `compareServices` returns stand for.
use balena_supervisor.Common.{
  String, Bool, true, false, not, List, map, none, some, ◌≡◌, refl, subst, ◌⊎◌, inl, inr, arith,
  any, filter, All, All-append, All-map_of, All_imp, All-filter, All-filter_with, All-filter-Member,
  All-flat_map_of, All_of_Member, All-Member, All-unmiddle, Member,
}
use balena_supervisor.Common.Texts.{includes}
use balena_supervisor.Common.Results.{
  Result, ok, thrown, Ensures, at_ok, map_result, map_result-All, ◌>>=◌, >>=-eq-ok, ok_injective,
}
use balena_supervisor.Compose.Service.{Service}
use balena_supervisor.Compose.App.Types.{ChangingPair, ContainerIds}
use balena_supervisor.Compose.App.Components.{removal, creation}
use balena_supervisor.Compose.App.Services.{
  ServicePairs, key_by, keys, values, only_in, shared_with, pick_current, is_named, Candidate,
  candidate, needs_update, compare_services,
}
use balena_supervisor.Compose.App.Services.Latest.{IsPicked, pick_current-IsPicked}
use balena_supervisor.Compose.App.Services.Keys.{key_by-All, includes-key_by}

module _ (current target : List Service) where
  -- the containers of a service
  abbrev pub containers : String → List Service
  containers name = filter (is_named name) current

  -- A target service is new: no container has its name.
  abbrev pub IsInstalled : ChangingPair Service → Type 0
  IsInstalled pair = elim pair.current [
    | some c ↦ ⊥
    | none ↦ elim pair.target [
      | none ↦ ⊥
      | some t ↦ Member t target × (any (is_named t.service_name) current ≡ false)
    ]
  ]

  -- The container `c` is kept for a service, and `others` are its other containers.
  abbrev pub IsKept : Service → List Service → String → Type 0
  IsKept c others name = IsPicked (containers name) c others

  -- A container goes if its service is not in the target, or if another one is kept for it.
  abbrev pub IsRemoved : ChangingPair Service → Type 0
  IsRemoved pair = elim pair.current [
    | none ↦ ⊥
    | some c ↦ elim pair.target [
      | some t ↦ ⊥
      | none ↦
          Member c current
          × ((any (is_named c.service_name) target ≡ false)
              ⊎ ((kept : Service) × (others : List Service) × (name : String) × IsKept kept others
                    name
                  × Member c others))
    ]
  ]

  abbrev pub IsCandidate : Candidate → Type 0
  IsCandidate c = Member c.target target × IsKept c.current c.spurious c.target.service_name

  candidate-IsCandidate :
      (k : String) (t : Service)
      → (k ≡ t.service_name) × Member t target
      → Ensures IsCandidate (candidate current (k, t))
  unfolding candidate
  candidate-IsCandidate k t (same, m) = picked (pick_current (containers k)) refl
    where
      picked :
          (r : Result (Service × List Service))
          → pick_current (containers k) ≡ r
          → Ensures IsCandidate
              (r >>= λ (c, others). ok (record { current = c; target = t; spurious = others }))
      picked (thrown e) h = tt
      picked (ok (c, others)) h = (m, rw (← same) (pick_current-IsPicked (containers k) c others h))

  candidates-IsCandidate :
      Ensures
        (All IsCandidate)
        (map_result (candidate current) (shared_with (key_by current) (key_by target)))
  candidates-IsCandidate =
      map_result-All (candidate current) (λ (k, t). (k ≡ t.service_name) × Member t target)
        IsCandidate (λ (k, t) h. candidate-IsCandidate k t h) _
        (All-filter _ _ (key_by target) (key_by-All target))

  not_named :
      (xs : List Service) (k : String) (s : Service)
      → k ≡ s.service_name
      → not (includes (keys (key_by xs)) k) ≡ true
      → any (is_named s.service_name) xs ≡ false
  not_named xs k s same h =
      let absent : not (any (is_named k) xs) ≡ true = rw (includes-key_by xs k) at h in
      rw (← same) (ground arith)

  installs : All IsInstalled (map creation (values (only_in (key_by current) (key_by target))))
  installs = All-map_of IsInstalled creation _ (
      All-map_of (λ t. IsInstalled (creation t)) (λ ((k, s) : String × Service). s) _
        (All_imp _ _ (λ (k, s) h. (h.0.1, not_named current k s h.0.0 h.1)) _
          (All-filter_with _ _ (key_by target) (key_by-All target))))

  gone : All IsRemoved (map removal (values (only_in (key_by target) (key_by current))))
  gone = All-map_of IsRemoved removal _ (
      All-map_of (λ c. IsRemoved (removal c)) (λ ((k, s) : String × Service). s) _
        (All_imp _ _ (λ (k, s) h. (h.0.1, inl (not_named target k s h.0.0 h.1))) _
          (All-filter_with _ _ (key_by current) (key_by-All current))))

  spurious-IsRemoved : (c : Candidate) → IsCandidate c → All (λ o. IsRemoved (removal o)) c.spurious
  spurious-IsRemoved c (_, p) =
      let named : All (λ s. Member s current) (containers c.target.service_name) =
        All_imp _ _ (λ s m. m.0) _ (All-filter-Member (is_named c.target.service_name) current) in
      let inside : All (λ s. Member s current) c.spurious =
        rw p.rest (All-unmiddle _ c.current p.before p.after (rw p.whole at named)).1 in
      All_of_Member _ c.spurious λ o m. (
        All-Member _ c.spurious inside o m,
        inr (c.current, c.spurious, c.target.service_name, p, m),
      )

module _ (same_config : Service → Service → ContainerIds → Bool) (current target : List Service)
    (ids : ContainerIds) where
  -- The latest container of a service is updated, and only where the update is needed.
  abbrev pub IsUpdated : ChangingPair Service → Type 0
  IsUpdated pair = elim pair.current [
    | none ↦ ⊥
    | some c ↦ elim pair.target [
      | none ↦ ⊥
      | some t ↦
          Member t target
          × ((others : List Service) × IsKept current target c others t.service_name)
          × (needs_update same_config c t ids ≡ true)
    ]
  ]

  pub record IsJustified (p : ServicePairs) : Type 0 where
    pub installed : All (IsInstalled current target) p.install_pairs
    pub removed : All (IsRemoved current target) p.remove_pairs
    pub updated : All IsUpdated p.update_pairs

  pub compare_services-IsJustified :
      (p : ServicePairs) → compare_services same_config current target ids ≡ ok p → IsJustified p
  unfolding compare_services
  compare_services-IsJustified p e =
      let (cs, computed, same) = >>=-eq-ok _ _ e in
      let fit =
        at_ok (All (IsCandidate current target)) _ cs (candidates-IsCandidate current target)
          computed in
      subst IsJustified (ok_injective same) (record {
        installed = installs current target;
        removed = All-append (IsRemoved current target) _ _ (gone current target) (
            All-flat_map_of (IsRemoved current target) _ cs (
              All_imp _ _
                (λ c h.
                  All-map_of (IsRemoved current target) removal c.spurious
                    (spurious-IsRemoved current target c h))
                cs fit));
        updated = All-map_of IsUpdated _ _ (
            All_imp _ _ (λ c h. (h.0.0, (c.spurious, h.0.1), h.1)) _
              (All-filter_with _
                (λ (c : Candidate). needs_update same_config c.current c.target ids) cs fit));
      })
