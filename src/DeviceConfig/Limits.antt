-- ===== src/DeviceConfig/Limits.antt =====
-- device-config.ts: the limit on the rate at which the VPN is switched, over several rounds.
use balena_supervisor.Common.{
  ℕ, ◌+◌, ◌≤◌, String, Bool, true, false, List, [], ◌∷◌, Option, none, some, any, if◌then◌else◌,
  ◌≡◌, refl, inl, inr, arith, Bool-cases, Option-cases, ltb, ◌⊎◌,
}
use balena_supervisor.Common.Dicts.{Dict, lookup}
use balena_supervisor.DeviceConfig.{
  ConfigStep, set_vpn_enabled, noop, RateLimit, get_vpn_steps, limit_vpn_step, is_limited,
  reset_rate_limits,
}

-- a call of getVPNSteps
pub record Round : Type 0 where
  pub now : ℕ
  pub current : Dict String
  pub target : Dict String

abbrev pub is_switch : ConfigStep → Bool
is_switch (set_vpn_enabled target) = true
is_switch _ = false

-- What happens to the limit: a call of getVPNSteps, or one of resetRateLimits, which the device state
-- makes whenever the target is reached.
pub data Event : Type 0 where
  called : Round → Event
  reset : Event

-- What is seen of it: the time of a step that switches the VPN, or a reset.
pub data Mark : Type 0 where
  switch : ℕ → Mark
  was_reset : Mark

abbrev when : Bool → ℕ → List Mark → List Mark
when b now marks = if b then switch now ∷ marks else marks

-- the steps to switch the VPN that are returned, in events that share the limit
unfoldable pub switches : Bool → RateLimit → List Event → List Mark
unfolding get_vpn_steps
switches unmanaged limit [] = []
switches unmanaged limit (called r ∷ events) =
    let (steps, limit') = get_vpn_steps unmanaged r.now limit r.current r.target in
    when (any is_switch steps) r.now (switches unmanaged limit' events)
switches unmanaged limit (reset ∷ events) =
    was_reset ∷ switches unmanaged (reset_rate_limits limit) events

-- The clock does not go back.
abbrev pub Ascending : ℕ → List Event → Type 0
Ascending t [] = Unit
Ascending t (called r ∷ events) = t ≤ r.now × Ascending r.now events
Ascending t (reset ∷ events) = Ascending t events

-- Each switch is at least the duration behind the one before, if there is no reset between them.
abbrev pub IsSpaced : (duration : ℕ) → Option ℕ → List Mark → Type 0
IsSpaced duration last [] = Unit
IsSpaced duration last (was_reset ∷ marks) = IsSpaced duration none marks
IsSpaced duration none (switch t ∷ marks) = IsSpaced duration (some t) marks
IsSpaced duration (some last) (switch t ∷ marks) =
    last + duration ≤ t × IsSpaced duration (some t) marks

-- The last switch, if there was one, is not behind the last attempt, which is not behind `t`.
abbrev IsPast : Option ℕ → Option ℕ → ℕ → Type 0
IsPast none none t = Unit
IsPast none (some attempt) t = attempt ≤ t
IsPast (some last) none t = ⊥
IsPast (some last) (some attempt) t = last ≤ attempt × attempt ≤ t

-- what a round comes to: no attempt, an attempt that is too early, or a switch
data RoundShape (limit : RateLimit) (now : ℕ) (r : List ConfigStep × RateLimit) : Type 0 where
  quiet : r ≡ ([], limit) → RoundShape limit now r
  limited :
      is_limited now limit ≡ true
      → r ≡ (noop ∷ [], record limit { last_attempt = some now })
      → RoundShape limit now r
  switched :
      (target : String)
      → is_limited now limit ≡ false
      → r ≡ (set_vpn_enabled target ∷ [], record limit { last_attempt = some now })
      → RoundShape limit now r

get_vpn_steps-RoundShape :
    (unmanaged : Bool) (now : ℕ) (limit : RateLimit) (current target : Dict String)
    → RoundShape limit now (get_vpn_steps unmanaged now limit current target)
unfolding get_vpn_steps limit_vpn_step
get_vpn_steps-RoundShape unmanaged now limit current target =
    elim (Option-cases (lookup "SUPERVISOR_VPN_CONTROL" target)) [
      | inl e ↦ quiet (rw (e, get_vpn_steps) refl)
      | inr (wanted, e) ↦
          rw (e, get_vpn_steps) (chosen _ wanted (Bool-cases (is_limited now limit)))
    ]
  where
    chosen :
        (b : Bool) (t : String)
        → (is_limited now limit ≡ true) ⊎ (is_limited now limit ≡ false)
        → RoundShape limit now (if b then limit_vpn_step now limit t else ([], limit))
    chosen true t (inl e) = limited e (rw e refl)
    chosen true t (inr e) = switched t e (rw e refl)
    chosen false t c = quiet refl

after_attempt :
    (duration : ℕ) (last : Option ℕ) (limit : RateLimit) (t now : ℕ)
    → IsPast last limit.last_attempt t
    → t ≤ now
    → IsPast last (some now) now
after_attempt duration none limit t now h le = omega arith
after_attempt duration (some last) limit t now h le = elim (Option-cases limit.last_attempt) [
  | inl e ↦ elim (rw e at h) [ ]
  | inr (a, e) ↦ let (x, y) : (last ≤ a) × (a ≤ t) = rw e at h in (omega arith, omega arith)
]

waited :
    (last now : ℕ) (limit : RateLimit) (t : ℕ)
    → IsPast (some last) limit.last_attempt t
    → is_limited now limit ≡ false
    → last + limit.duration ≤ now
unfolding is_limited
waited last now limit t h e = elim (Option-cases limit.last_attempt) [
  | inl f ↦ elim (rw f at h) [ ]
  | inr (a, f) ↦
      let (x, y) : (last ≤ a) × (a ≤ t) = rw f at h in
      let k : ltb now (a + limit.duration) ≡ false = rw f at e in ground arith
]

earlier :
    (last attempt : Option ℕ) (t now : ℕ)
    → IsPast last attempt t
    → t ≤ now
    → IsPast last attempt now
earlier none none t now h le = tt
earlier none (some a) t now h le = omega arith
earlier (some l) none t now h le = h
earlier (some l) (some a) t now (x, y) le = (x, omega arith)

module _ (unmanaged : Bool) where
  switches_apart :
      (limit : RateLimit) (events : List Event) (t : ℕ) (last : Option ℕ)
      → IsPast last limit.last_attempt t
      → Ascending t events
      → IsSpaced limit.duration last (switches unmanaged limit events)
  unfolding switches
  switches_apart limit [] t last h asc = tt
  switches_apart limit (reset ∷ events) t last h asc =
      switches_apart (reset_rate_limits limit) events t none tt asc
  switches_apart limit (called r ∷ events) t last h (le, asc) =
      elim (get_vpn_steps-RoundShape unmanaged r.now limit r.current r.target) [
        | quiet e ↦ rw e (
            switches_apart limit events r.now last (earlier last limit.last_attempt t r.now h le)
              asc)
        | limited l e ↦ rw e (
            switches_apart (record limit { last_attempt = some r.now }) events r.now last
              (after_attempt limit.duration last limit t r.now h le) asc)
        | switched u l e ↦ rw e (
            behind last h l (
              switches_apart (record limit { last_attempt = some r.now }) events r.now (some r.now)
                (omega arith, omega arith) asc))
      ]
    where
      behind :
          (last : Option ℕ)
          → IsPast last limit.last_attempt t
          → is_limited r.now limit ≡ false
          → IsSpaced limit.duration
              (some r.now)
              (switches unmanaged (record limit { last_attempt = some r.now }) events)
          → IsSpaced limit.duration last (
              switch r.now ∷ switches unmanaged (record limit { last_attempt = some r.now }) events)
      behind none h l k = k
      behind (some last) h l k = (waited last r.now limit t h l, k)

  -- As long as the clock does not go back, two steps that switch the VPN are returned at least the
  -- duration of the limit apart, unless the limits are reset between them, whatever the configuration
  -- and the target are in each round.
  pub switches-IsSpaced :
      (duration : ℕ) (events : List Event)
      → Ascending 0 events
      → IsSpaced duration none
          (switches unmanaged (record { duration = duration; last_attempt = none }) events)
  switches-IsSpaced duration events asc =
      switches_apart (record { duration = duration; last_attempt = none }) events 0 none tt asc
