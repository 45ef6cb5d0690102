-- ===== src/Compose/App/Services/Complete.antt =====
-- compose/app.ts: no service is left out of the pairs that `compareServices` returns.
use balena_supervisor.Common.{
  String, Bool, true, List, [], ◌∷◌, map, ◌≡◌, refl, sym, subst, ap, inl, inr, arith, any, filter,
  All, All_of_Member, All-Member, Member, Member-append_left, Member-append_right, Member-of_filter,
  Member-map, Member-flat_map, any_of_Member, Bool-cases, str_eq, false,
}
use balena_supervisor.Common.Texts.{includes, str_eq_self, eq_of_str_eq}
use balena_supervisor.Common.Results.{ok, map_result, map_result-Member, >>=-eq-ok, ok_injective}
use balena_supervisor.Compose.Service.{Service}
use balena_supervisor.Compose.App.Types.{ContainerIds}
use balena_supervisor.Compose.App.Components.{removal, creation, replacement}
use balena_supervisor.Compose.App.Services.{
  ServicePairs, ByName, key_by, keys, values, only_in, shared_with, is_named, Candidate, candidate,
  needs_update, compare_services,
}
use balena_supervisor.Compose.App.Services.Latest.{pick_current-IsPicked}
use balena_supervisor.Compose.App.Services.Keys.{key_by-All, includes-key_by}
use balena_supervisor.Compose.App.Services.Pairs.{IsKept, IsJustified, compare_services-IsJustified}

-- the entry of a key
entry_of_key :
    (d : ByName) (k : String) → includes (keys d) k ≡ true → (s : Service) × Member (k, s) d
entry_of_key [] k h = cc
entry_of_key ((n, s) ∷ d) k h = elim (Bool-cases (str_eq n k)) [
  | inl e ↦ (s, inl (ap (λ m. (m, s)) (eq_of_str_eq n k e)))
  | inr e ↦ let (t, m) = entry_of_key d k (ground arith) in (t, inr m)
]

-- the service that stands for a name among `services`
abbrev pub IsEntry : List Service → String → Service → Type 0
IsEntry services name s = Member s services × (s.service_name ≡ name)

IsEntry-of_name :
    (xs : List Service) (name : String)
    → any (is_named name) xs ≡ true
    → (s : Service) × Member (name, s) (key_by xs) × IsEntry xs name s
IsEntry-of_name xs name h =
    let (s, m) = entry_of_key (key_by xs) name (rw (includes-key_by xs name) h) in
    let (same, inside) = All-Member _ (key_by xs) (key_by-All xs) (name, s) m in
    (s, m, (inside, sym same))

named_of_Member :
    (xs : List Service) (s : Service) → Member s xs → any (is_named s.service_name) xs ≡ true
named_of_Member xs s m = any_of_Member (is_named s.service_name) xs s m (str_eq_self s.service_name)

-- a service whose name the others do not have is in the list of those that only this side has
alone :
    (xs others : List Service) (s : Service)
    → Member s xs
    → any (is_named s.service_name) others ≡ false
    → (t : Service) × IsEntry xs s.service_name t
      × Member t (values (only_in (key_by others) (key_by xs)))
alone xs others s m h =
    let (t, entry, meant) = IsEntry-of_name xs s.service_name (named_of_Member xs s m) in
    (
      t,
      meant,
      Member-map (λ ((k, s) : String × Service). s) _ (s.service_name, t)
          (Member-of_filter _ (key_by xs) (s.service_name, t) entry
            (rw (includes-key_by others s.service_name, h) refl)),
    )

module _ (same_config : Service → Service → ContainerIds → Bool) (current target : List Service)
    (ids : ContainerIds) where
  -- What becomes of a service of the target that has containers: one is kept, the others go, and
  -- the one that is kept is updated if it needs it.
  pub record IsHandled (p : ServicePairs) (name : String) : Type 0 where
    pub kept : Service
    pub others : List Service
    pub wanted : Service
    pub is_wanted : IsEntry target name wanted
    pub is_kept : IsKept current target kept others name
    pub others_go : All (λ o. Member (removal o) p.remove_pairs) others
    pub is_updated :
        needs_update same_config kept wanted ids ≡ true
        → Member (replacement kept wanted) p.update_pairs

  -- The pairs have their reasons, and none is missing.
  pub record IsPaired (p : ServicePairs) : Type 0 where
    pub justified : IsJustified same_config current target ids p
    pub new_installed :
        All
          (λ (t : Service).
            any (is_named t.service_name) current ≡ false
            → (s : Service) × IsEntry target t.service_name s × Member (creation s) p.install_pairs)
          target
    pub unwanted_go :
        All
          (λ (c : Service).
            any (is_named c.service_name) target ≡ false
            → (s : Service) × IsEntry current c.service_name s × Member (removal s) p.remove_pairs)
          current
    pub handled :
        All
          (λ (t : Service).
            any (is_named t.service_name) current ≡ true → IsHandled p t.service_name)
          target

  abbrev AreFollowed : List Candidate → ServicePairs → Type 0
  AreFollowed cs p =
      (c : Candidate)
      → Member c cs
      → All (λ o. Member (removal o) p.remove_pairs) c.spurious
        × (needs_update same_config c.current c.target ids ≡ true
            → Member (replacement c.current c.target) p.update_pairs)

  handle :
      (cs : List Candidate) (p : ServicePairs) (t : Service)
      → map_result (candidate current) (shared_with (key_by current) (key_by target)) ≡ ok cs
      → AreFollowed cs p
      → Member t target
      → any (is_named t.service_name) current ≡ true
      → IsHandled p t.service_name
  unfolding candidate
  handle cs p t computed follow m h =
      let name = t.service_name in
      let (s, entry, (inside, same)) = IsEntry-of_name target name (named_of_Member target t m) in
      let shared =
        Member-of_filter _ (key_by target) (name, s) entry (rw (includes-key_by current name) h) in
      let (c, call, among) = map_result-Member (candidate current) _ cs computed (name, s) shared in
      let ((kept, others), picked, same_candidate) = >>=-eq-ok _ _ call in
      let (go, update) =
        follow (record { current = kept; target = s; spurious = others })
          (subst (λ d. Member d cs) (sym (ok_injective same_candidate)) among) in
      record {
        kept = kept;
        others = others;
        wanted = s;
        is_wanted = (inside, same);
        is_kept = pick_current-IsPicked (filter (is_named name) current) kept others picked;
        others_go = go;
        is_updated = update;
      }

  -- Every target service whose name no container has is installed, and every container whose service
  -- is not in the target goes. Of the containers of a target service one of the latest is kept, the
  -- others go, and the one that is kept is updated if it needs it. A service is installed, updated or
  -- removed for no other reason. Of two services of one name in the target, one is meant.
  pub compare_services-IsPaired :
      (p : ServicePairs) → compare_services same_config current target ids ≡ ok p → IsPaired p
  unfolding compare_services
  compare_services-IsPaired p e =
      let (cs, computed, same) = >>=-eq-ok _ _ e in
      subst IsPaired (ok_injective same) (record {
        justified =
            subst (IsJustified same_config current target ids) (sym (ok_injective same))
              (compare_services-IsJustified same_config current target ids p e);
        new_installed = All_of_Member _ target λ t m missing.
            let (s, meant, among) = alone target current t m missing in
            (s, meant, Member-map creation _ s among);
        unwanted_go = All_of_Member _ current λ c m missing.
            let (s, meant, among) = alone current target c m missing in
            (s, meant, Member-append_left (removal s) _ _ (Member-map removal _ s among));
        handled = All_of_Member _ target λ t m there.
            handle cs _ t computed
              (λ c among. (
                All_of_Member _ c.spurious (λ o k. Member-append_right (removal o) _ _ (
                    Member-flat_map (λ (d : Candidate). map removal d.spurious) cs c (removal o)
                      among (Member-map removal c.spurious o k))),
                λ needed.
                    Member-map (λ (d : Candidate). replacement d.current d.target) _ c
                      (Member-of_filter _ cs c among needed),
              ))
              m there;
      })
