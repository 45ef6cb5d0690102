-- ===== src/Compose/Utils/Networks/Reported.antt =====
-- compose/utils.ts and compose/service.ts: a network of a target against the one that the engine
-- reports after it was created.
use text.Mathlib.Text.{starts_with}
use balena_supervisor.Common.{
  String, Bool, true, false, not, List, [], ◌∷◌, ◌++◌, Option, none, some, filter, All, is_some,
  is_empty, str_eq, ◌≡◌, refl, arith, ap, IfSome, All_imp,
}
use balena_supervisor.Common.Texts.{includes, str_eq_self}
use balena_supervisor.Common.Equality.{is_equal, is_equal_self, string_eq, list_eq, option_eq}
use balena_supervisor.Compose.ServiceTypes.{ServiceNetwork}
use balena_supervisor.Compose.Utils.Networks.{
  Endpoint, to_endpoint, own_aliases, read_aliases, non_empty, of_endpoint, uniq, intersection,
  same_aliases, same_if_set, is_same_network,
}

-- What the engine reports of a network: the names that it was given, followed by names of its own,
-- which begin the id of the container; and the addresses that it was given.
pub record Reports (container_id : String) (created reported : Endpoint) : Type 0 where
  pub given : List String
  pub own : List String
  pub all_given : created.aliases ≡ some given
  pub all_own : All (λ alias. starts_with container_id alias ≡ true) own
  pub aliases : reported.aliases ≡ some (given ++ own)
  pub ipam : reported.ipam_config ≡ created.ipam_config

-- every name stands once
abbrev pub Distinct : List String → Type 0
Distinct [] = Unit
Distinct (x ∷ xs) = (includes xs x ≡ false) × Distinct xs

-- Names that can be told from those that the engine adds.
pub record AreNames (container_id : String) (names : List String) : Type 0 where
  pub some_name : is_empty names ≡ false
  pub distinct : Distinct names
  pub others : All (λ alias. starts_with container_id alias ≡ false) names

pub record IsReportable (container_id : String) (net : ServiceNetwork) : Type 0 where
  pub names : IfSome (AreNames container_id) net.aliases
  pub ipv4 : IfSome (λ s. str_eq s "" ≡ false) net.ipv4_address
  pub ipv6 : IfSome (λ s. str_eq s "" ≡ false) net.ipv6_address

own_aliases-own :
    (id : String) (own : List String)
    → All (λ alias. starts_with id alias ≡ true) own
    → own_aliases id own ≡ []
unfolding own_aliases
own_aliases-own id [] h = refl
own_aliases-own id (a ∷ own) (e, h) = rw e (own_aliases-own id own h)

own_aliases-given :
    (id : String) (given own : List String)
    → All (λ alias. starts_with id alias ≡ false) given
    → All (λ alias. starts_with id alias ≡ true) own
    → own_aliases id (given ++ own) ≡ given
unfolding own_aliases
own_aliases-given id [] own h k = own_aliases-own id own k
own_aliases-given id (a ∷ given) own (e, h) k =
    rw e (ap (λ ys. a ∷ ys) (own_aliases-given id given own h k))

filter_all : (p : String → Bool) (xs : List String) → All (λ x. p x ≡ true) xs → filter p xs ≡ xs
filter_all p [] h = refl
filter_all p (x ∷ xs) (e, h) = rw e (ap (λ ys. x ∷ ys) (filter_all p xs h))

others :
    (x : String) (xs : List String) → includes xs x ≡ false → All (λ y. not (str_eq y x) ≡ true) xs
others x [] h = tt
others x (y ∷ xs) h = (ground arith, others x xs (ground arith))

pub uniq-Distinct : (xs : List String) → Distinct xs → uniq xs ≡ xs
unfolding uniq
uniq-Distinct [] h = refl
uniq-Distinct (x ∷ xs) (fresh, h) =
    rw (uniq-Distinct xs h) (ap (λ ys. x ∷ ys) (filter_all _ xs (others x xs fresh)))

includes_self : (xs : List String) → All (λ x. includes xs x ≡ true) xs
includes_self [] = tt
includes_self (x ∷ xs) =
    (rw (str_eq_self x) refl, All_imp _ _ (λ y h. ground arith) xs (includes_self xs))

intersection_self : (xs : List String) → Distinct xs → intersection xs xs ≡ xs
unfolding intersection
intersection_self xs h = rw (filter_all (includes xs) xs (includes_self xs)) (uniq-Distinct xs h)

read_aliases-given :
    (id : String) (given own : List String)
    → AreNames id given
    → All (λ alias. starts_with id alias ≡ true) own
    → read_aliases id (some (given ++ own)) ≡ some given
unfolding read_aliases
read_aliases-given id [] own h k = cc (h.some_name)
read_aliases-given id (a ∷ given) own h k =
    ap some (own_aliases-given id (a ∷ given) own h.others k)

same_aliases-reported :
    (id : String) (given own : List String) (target : Option (List String))
    → IfSome (AreNames id) target
    → (to_endpoint (record {
      aliases = target;
      ipv4_address = none;
      ipv6_address = none;
      link_local_ips = none;
    })).aliases
      ≡ some given
    → All (λ alias. starts_with id alias ≡ true) own
    → same_aliases (read_aliases id (some (given ++ own))) target ≡ true
unfolding same_aliases to_endpoint
same_aliases-reported id given own none h e k = refl
same_aliases-reported id given own (some names) h e k =
    let same : names ≡ given = cc in
    rw (← same) (
      rw (read_aliases-given id names own h k, same_aliases, intersection_self names h.distinct)
        (ground arith))

non_empty_self :
    (address : Option String)
    → IfSome (λ s. str_eq s "" ≡ false) address
    → non_empty address ≡ address
unfolding non_empty
non_empty_self none h = refl
non_empty_self (some s) h = rw h refl

same_address : (address : Option String) → same_if_set is_equal address address ≡ true
same_address none = refl
same_address (some s) = is_equal_self (some s)

no_link_local : (ips : Option (List String)) → same_if_set is_equal none ips ≡ not (is_some ips)
no_link_local none = refl
no_link_local (some ips) = refl

-- A network that the engine created from a target and reports equals its target exactly when the
-- target asks for no link-local addresses, provided that the aliases of the target, if it has any,
-- are distinct, are some, and none begins the id of the container, and its addresses are not empty.
pub is_same_network-reported :
    (container_id : String) (net : ServiceNetwork) (reported : Endpoint)
    → Reports container_id (to_endpoint net) reported
    → IsReportable container_id net
    → is_same_network (of_endpoint container_id reported) net ≡ not (is_some net.link_local_ips)
unfolding is_same_network of_endpoint to_endpoint
is_same_network-reported id net reported r h =
    let same : reported ≡ record {
      aliases = some (r.given ++ r.own);
      ipam_config = (to_endpoint net).ipam_config;
    } =
      λ i. record { aliases = r.aliases i; ipam_config = r.ipam i } in
    rw same (
      rw
        (
          same_aliases-reported id r.given r.own net.aliases h.names r.all_given r.all_own,
          non_empty_self net.ipv4_address h.ipv4,
          non_empty_self net.ipv6_address h.ipv6,
          same_address net.ipv4_address,
          same_address net.ipv6_address,
        )
        (no_link_local net.link_local_ips))
