-- ===== src/Network/Hosts.antt =====
-- core/network_safety.py: resolving a host, and whether it is safe to connect to.
use hyper_loader.Prelude.{
  Bool, List, Option, Text, [], codes, false, if◌then◌else◌, is_empty, map, max, none, not, one_of,
  opt_map, some, sorted_texts, strip, suc, text_eq, true, zero, ℕ, ◌&&◌, ◌+◌, ◌||◌, ◌∷◌,
}
use hyper_loader.Network.Names.{all_of, any_of, ends_with, is_basic_hostname, normalize_host}

-- what the code uses of Python's `ipaddress`: `ip_address`, `str`, and the classes of addresses
pub record Addresses (A : Type 0) : Type 0 where
  pub ip_address : Text → Option A
  pub print : A → Text
  pub is_loopback : A → Bool
  pub is_private : A → Bool
  pub is_link_local : A → Bool
  pub is_multicast : A → Bool
  pub is_reserved : A → Bool
  pub is_unspecified : A → Bool

-- what the resolver answers
pub data Resolution : Type 0 where
  raised : Resolution
  one : Text → Resolution
  listed : List Text → Resolution

abbrev pub Resolver : Type 0
Resolver = ℕ → Text → Resolution

-- `HostResolutionSnapshot`
pub record HostResolutionSnapshot : Type 0 where
  pub host : Text
  pub allowed_ips : List Text
  pub allow_private : Bool

-- the named arguments of the checks
pub record Options : Type 0 where
  pub allow_private : Bool
  pub resolver : Option Resolver
  pub host_validator : Option (Text → Bool)
  pub resolver_attempts : ℕ
  pub require_consistent_resolution : Bool

abbrev pub candidates_of : Resolution → List Text
candidates_of raised = []
candidates_of (one t) = t ∷ []
candidates_of (listed ts) = ts

abbrev pub validator_of : Option (Text → Bool) → Text → Bool
validator_of none = is_basic_hostname
validator_of (some validator) = validator

abbrev pub local_names : List Text
local_names = codes "localhost" ∷ codes "127.0.0.1" ∷ codes "::1" ∷ []

abbrev pub local_suffixes : List Text
local_suffixes = codes ".local" ∷ codes ".internal" ∷ codes ".localhost" ∷ codes ".localdomain" ∷ []

-- The entries of `getaddrinfo`: `none` without a socket address, and else its first element, if that is
-- anything.
abbrev address_text : Option Text → Text
address_text none = []
address_text (some s) = strip s

unfoldable pub resolve_tcp_host_ips : List (Option (Option Text)) → List Text
unfolding strip
resolve_tcp_host_ips [] = []
resolve_tcp_host_ips (none ∷ infos) = resolve_tcp_host_ips infos
resolve_tcp_host_ips (some address ∷ infos) = address_text address ∷ resolve_tcp_host_ips infos

-- the tests of a name that stand for the local machine or network
unfoldable pub is_local_name : Text → Bool
unfolding one_of ends_with
is_local_name host = one_of host local_names || any_of (ends_with host) local_suffixes

abbrev pub all_equal : List Text → List Text → Bool
all_equal [] [] = true
all_equal (s ∷ ss) (t ∷ ts) = text_eq s t && all_equal ss ts
all_equal [] (t ∷ ts) = false
all_equal (s ∷ ss) [] = false

-- `len(set(snapshots)) <= 1`
unfoldable pub are_same : List (List Text) → Bool
unfolding text_eq
are_same [] = true
are_same (s ∷ ss) = all_of (all_equal s) ss

abbrev pub attempt_count : Options → ℕ
attempt_count o = max 1 o.resolver_attempts

abbrev pub consistent_after : ℕ → Bool → Option (List (List Text)) → Option ℕ
consistent_after n required none = none
consistent_after n required (some ss) = if required && not (are_same ss) then none else some n

abbrev pub if_true : Bool → Option ℕ
if_true b = if b then some 0 else none

abbrev pub make : Options → Text → List Text → Option HostResolutionSnapshot
make o host [] = none
make o host (ip ∷ ips) =
    some (record { host = host; allowed_ips = ip ∷ ips; allow_private = o.allow_private })

-- `{str(ip) for ip in ips}`
unfoldable pub distinct : List Text → List Text
unfolding one_of
distinct [] = []
distinct (t ∷ ts) = let rest = distinct ts in if one_of t rest then rest else t ∷ rest

module _ {A : Type 0} (lib : Addresses A) where
  unfoldable pub is_safe_resolved_ip : Bool → A → Bool
  is_safe_resolved_ip allow_private ip =
      if lib.is_loopback ip
        || lib.is_private ip
        || lib.is_link_local ip
        || lib.is_multicast ip
        || lib.is_reserved ip
        || lib.is_unspecified ip
      then allow_private
      else true

  -- a candidate that was not seen before
  abbrev pub new_address : List Text → Text → Option A
  new_address seen s = if is_empty s || one_of s seen then none else lib.ip_address s

  -- the loop over the candidates
  unfoldable pub addresses_of : List Text → List Text → List A
  unfolding strip one_of
  addresses_of seen [] = []
  addresses_of seen (raw ∷ rest) = elim (new_address seen (strip raw)) [
    | none ↦ addresses_of seen rest
    | some ip ↦ ip ∷ addresses_of (strip raw ∷ seen) rest
  ]

  unfoldable pub resolve_host_ips : Resolution → List A
  unfolding addresses_of
  resolve_host_ips answer = addresses_of [] (candidates_of answer)

  -- `tuple(sorted(str(ip) for ip in ips))`
  abbrev pub snapshot_of : List A → List Text
  snapshot_of ips = sorted_texts (map lib.print ips)

  -- the loop over the attempt_count from the `k`-th on; `none` is a return of `False`
  unfoldable pub snapshots : Bool → (ℕ → Resolution) → ℕ → ℕ → Option (List (List Text))
  unfolding resolve_host_ips is_safe_resolved_ip sorted_texts
  snapshots allow_private answer k zero = some []
  snapshots allow_private answer k (suc left) =
      let rest = snapshots allow_private answer (k + 1) left in
      let ips = resolve_host_ips (answer k) in
      if not (is_empty ips) && all_of (is_safe_resolved_ip allow_private) ips
      then opt_map (λ ss. snapshot_of ips ∷ ss) rest
      else none

  -- a name that is no address
  unfoldable pub is_safe_name : Options → Text → Option ℕ
  unfolding snapshots are_same is_basic_hostname
  is_safe_name o host =
      if validator_of o.host_validator host
      then elim o.resolver [
        | none ↦ none
        | some resolver ↦
            consistent_after (attempt_count o) o.require_consistent_resolution
              (snapshots o.allow_private (λ k. resolver k host) 0 (attempt_count o))
      ]
      else none

  -- `is_safe_host` for a normalized name. `none` is `False`; `some n` is `True`, after `n` calls of
  -- the resolver.
  unfoldable pub is_safe_normalized : Options → Text → Option ℕ
  unfolding is_local_name is_safe_resolved_ip is_safe_name
  is_safe_normalized o host =
      if is_empty host
      then none
      else if is_local_name host
      then if_true o.allow_private
      else elim (lib.ip_address host) [
        | some ip ↦ if_true (is_safe_resolved_ip o.allow_private ip)
        | none ↦ is_safe_name o host
      ]

  unfoldable pub is_safe_host : Options → Text → Option ℕ
  unfolding normalize_host is_safe_normalized
  is_safe_host o host = is_safe_normalized o (normalize_host host)

  -- the last resolution, after `n` calls
  unfoldable pub take_snapshot : Options → Text → ℕ → Option HostResolutionSnapshot
  unfolding resolve_host_ips distinct sorted_texts
  take_snapshot o host n = elim o.resolver [
    | none ↦ none
    | some resolver ↦
        make o host (sorted_texts (distinct (map lib.print (resolve_host_ips (resolver n host)))))
  ]

  unfoldable pub snapshot_of_name : Options → Text → Option HostResolutionSnapshot
  unfolding is_safe_host take_snapshot
  snapshot_of_name o host = elim (is_safe_host o host) [
    | none ↦ none
    | some n ↦ take_snapshot o host n
  ]

  unfoldable pub resolve_safe_host_snapshot : Options → Text → Option HostResolutionSnapshot
  unfolding normalize_host is_safe_resolved_ip snapshot_of_name
  resolve_safe_host_snapshot o raw =
      let host = normalize_host raw in
      if is_empty host then none else elim (lib.ip_address host) [
        | none ↦ snapshot_of_name o host
        | some ip ↦
            if is_safe_resolved_ip o.allow_private ip then make o host (lib.print ip ∷ []) else none
      ]
