-- ===== src/Network/Laws.antt =====
-- core/network_safety.py: what a host that is called safe, and a response that matches, come to.
use hyper_loader.Prelude.{
  ==_iff, Bool, Bool-cases, List, Option, Text, arith, false, inl, inr, is_empty, none, not,
  opt_map, refl, some, suc, true, zero, ℕ, ◌&&◌, ◌+◌, ◌<◌, ◌==◌, ◌∷◌, ◌≡◌, ◌≤◌, Option-cases, ap,
  ◌∙◌, ◌⊎◌, [], is_empty-one_of, map, one_of, one_of-sorted_texts, sorted_texts, sym, text_eq,
  text_eq_iff, ◌||◌, ◌↔◌,
}
use hyper_loader.Network.Names.{all_of, normalize_host}
use hyper_loader.Network.Hosts.{
  Addresses, Options, Resolution, Resolver, HostResolutionSnapshot, is_safe_resolved_ip,
  resolve_host_ips, snapshot_of, snapshots, are_same, attempt_count, consistent_after, if_true,
  is_safe_name, is_safe_normalized, is_safe_host, is_local_name, validator_of, make, distinct,
  take_snapshot, snapshot_of_name, resolve_safe_host_snapshot,
}
use hyper_loader.Network.Peers.{
  PeerResponse, extract_response_peer_ip, is_allowed_peer, response_matches_snapshot,
}

opt_map-some {ℓ κ} :
    {B : Type ℓ} {C : Type κ} (f : B → C) (o : Option B) (c : C)
    → opt_map f o ≡ some c
    → (b : B) × (o ≡ some b)
opt_map-some f none c h = cc
opt_map-some f (some b) c h = (b, refl)

if_true-some : (b : Bool) (n : ℕ) → if_true b ≡ some n → b ≡ true
if_true-some true n h = refl
if_true-some false n h = cc

consistent_after-some :
    (n k : ℕ) (required : Bool) (o : Option (List (List Text)))
    → consistent_after n required o ≡ some k
    → (ss : List (List Text)) × (o ≡ some ss) × ((required && not (are_same ss)) ≡ false) × (k ≡ n)
consistent_after-some n k required none h = cc
consistent_after-some n k required (some ss) h = elim (Bool-cases (required && not (are_same ss))) [
  | inl varied ↦ let no = rw varied at h in cc
  | inr steady ↦ let yes = rw steady at h in (ss, refl, steady, cc)
]

-- a repeated text
repeats :
    (t u : Text) (ts : List Text) → one_of u ts ≡ true → one_of t ts ≡ (text_eq t u || one_of t ts)
repeats t u ts there = elim (Bool-cases (text_eq t u)) [
  | inl same ↦ rw same (ap (λ x. one_of x ts) ((text_eq_iff t u).0 same) ∙ there)
  | inr other ↦ rw other refl
]

module _ {A : Type 0} (lib : Addresses A) where
  -- an answer that is not empty, all of whose addresses are safe
  abbrev pub AllSafe : Bool → Resolution → Type 0
  AllSafe allow_private answer =
      (is_empty (resolve_host_ips lib answer) ≡ false)
      × (all_of (is_safe_resolved_ip lib allow_private) (resolve_host_ips lib answer) ≡ true)

  snapshots-AllSafe :
      (allow_private : Bool) (answer : ℕ → Resolution) (k left : ℕ) (ss : List (List Text))
      → snapshots lib allow_private answer k left ≡ some ss
      → (j : ℕ) → k ≤ j
      → j < k + left
      → AllSafe allow_private (answer j)
  unfolding snapshots
  snapshots-AllSafe allow_private answer k zero ss h j from to = absurd (omega arith)
  snapshots-AllSafe allow_private answer k (suc left) ss h j from to =
      let ips = resolve_host_ips lib (answer k) in
      elim (Bool-cases (not (is_empty ips) && all_of (is_safe_resolved_ip lib allow_private) ips)) [
        | inr bad ↦ let no = rw bad at h in cc
        | inl good ↦
            let (rest, later) =
              opt_map-some (λ xs. snapshot_of lib ips ∷ xs)
                (snapshots lib allow_private answer (k + 1) left) ss (rw good at h) in
            elim (Bool-cases (k == j)) [
              | inl here ↦
                  let same : k ≡ j = (==_iff k j).0 here in
                  let safe : AllSafe allow_private (answer k) =
                    (ground (arith, good), ground (arith, good)) in
                  rw same at safe
              | inr there ↦
                  snapshots-AllSafe allow_private answer (k + 1) left rest later j
                    (ground (arith, there)) (omega arith)
            ]
      ]

  -- a name whose answers are all safe, and the same if that is asked for
  pub record Resolves (o : Options) (host : Text) (n : ℕ) : Type 0 where
    pub resolver : Resolver
    pub given : o.resolver ≡ some resolver
    pub calls : n ≡ attempt_count o
    pub valid : validator_of o.host_validator host ≡ true
    pub safe : (k : ℕ) → k < n → AllSafe o.allow_private (resolver k host)
    pub same :
        (ss : List (List Text)) × (snapshots lib o.allow_private (λ k. resolver k host) 0 n
          ≡ some ss)
        × ((o.require_consistent_resolution && not (are_same ss)) ≡ false)

  is_safe_name-Resolves :
      (o : Options) (host : Text) (n : ℕ) → is_safe_name lib o host ≡ some n → Resolves o host n
  unfolding is_safe_name
  is_safe_name-Resolves o host n h = elim (Bool-cases (validator_of o.host_validator host)) [
    | inr refused ↦ let no = rw refused at h in cc
    | inl valid ↦ elim (Option-cases o.resolver) [
      | inl missing ↦ let no = rw (valid, missing) at h in cc
      | inr (resolver, given) ↦
          let (ss, run, steady, calls) =
            consistent_after-some (attempt_count o) n o.require_consistent_resolution
              (snapshots lib o.allow_private (λ k. resolver k host) 0 (attempt_count o))
              (rw (valid, given) at h) in
          record {
            resolver = resolver;
            given = given;
            calls = calls;
            valid = valid;
            safe = λ k lt.
                snapshots-AllSafe o.allow_private (λ j. resolver j host) 0 (attempt_count o) ss run
                  k (omega arith) (omega arith);
            same = (
              ss,
              ap (snapshots lib o.allow_private (λ k. resolver k host) 0) calls ∙ run,
              steady,
            );
          }
    ]
  ]

  -- a host that is an address, and one that resolves
  abbrev pub Safe : Options → Text → ℕ → Type 0
  Safe o host n =
      (is_local_name host ≡ false)
      × (((ip : A) × (lib.ip_address host ≡ some ip) × (is_safe_resolved_ip lib false ip ≡ true))
          ⊎ Resolves o host n)

  is_safe_normalized-Safe :
      (o : Options) (host : Text) (n : ℕ)
      → o.allow_private ≡ false
      → is_safe_normalized lib o host ≡ some n
      → Safe o host n
  unfolding is_safe_normalized
  is_safe_normalized-Safe o host n strict h = elim (Bool-cases (is_empty host)) [
    | inl empty ↦ let no = rw empty at h in cc
    | inr filled ↦ elim (Bool-cases (is_local_name host)) [
      | inl near ↦ let no = rw (filled, near, strict) at h in cc
      | inr far ↦ elim (Option-cases (lib.ip_address host)) [
        | inl name ↦ (far, inr (is_safe_name-Resolves o host n (rw (filled, far, name) at h)))
        | inr (ip, parsed) ↦
            let safe =
              if_true-some (is_safe_resolved_ip lib o.allow_private ip) n
                (rw (filled, far, parsed) at h) in
            (far, inl (ip, parsed, rw strict at safe))
      ]
    ]
  ]

  -- Where private addresses are not allowed, a host that is called safe does not name the local machine
  -- or network, and either it is an address that is safe, or all the answers of the resolver that are asked for
  -- have addresses, which are all safe.
  pub is_safe_host-Safe :
      (o : Options) (raw : Text) (n : ℕ)
      → o.allow_private ≡ false
      → is_safe_host lib o raw ≡ some n
      → Safe o (normalize_host raw) n
  unfolding is_safe_host
  is_safe_host-Safe o raw n strict h = is_safe_normalized-Safe o (normalize_host raw) n strict h

  make-allowed :
      (o : Options) (host : Text) (ips : List Text)
      → is_empty ips ≡ false
      → make o host ips
        ≡ some (record { host = host; allowed_ips = ips; allow_private = o.allow_private })
  make-allowed o host [] h = cc
  make-allowed o host (ip ∷ ips) h = refl

  one_of-distinct : (t : Text) (ts : List Text) → one_of t (distinct ts) ≡ one_of t ts
  unfolding distinct one_of
  one_of-distinct t [] = refl
  one_of-distinct t (u ∷ ts) = elim (Bool-cases (one_of u (distinct ts))) [
    | inl repeated ↦
        rw repeated (one_of-distinct t ts ∙ repeats t u ts (sym (one_of-distinct u ts) ∙ repeated))
    | inr once ↦ rw once (ap (λ b. text_eq t u || b) (one_of-distinct t ts))
  ]

  snapshot_of_name-listed :
      (o : Options) (host : Text) (resolver : Resolver) (n : ℕ) (t : Text)
      → o.resolver ≡ some resolver
      → is_safe_host lib o host ≡ some n
      → one_of t (map lib.print (resolve_host_ips lib (resolver n host))) ≡ true
      → (s : HostResolutionSnapshot) × (snapshot_of_name lib o host ≡ some s)
        × (one_of t s.allowed_ips ≡ true)
  unfolding snapshot_of_name take_snapshot
  snapshot_of_name-listed o host resolver n t given safe there =
      let ips = distinct (map lib.print (resolve_host_ips lib (resolver n host))) in
      let listed =
        one_of-sorted_texts t ips
        ∙ one_of-distinct t (map lib.print (resolve_host_ips lib (resolver n host)))
        ∙ there in
      (
        record { host = host; allowed_ips = sorted_texts ips; allow_private = o.allow_private },
        rw (safe, given, snapshot_of_name, take_snapshot)
            (make-allowed o host (sorted_texts ips) (is_empty-one_of t (sorted_texts ips) listed)),
        listed,
      )

  -- The addresses that a connection may use are those of one more resolution, after the ones that were
  -- found safe; nothing is asked of these.
  pub resolve_safe_host_snapshot-unchecked :
      (o : Options) (raw : Text) (resolver : Resolver) (n : ℕ) (t : Text)
      → is_empty (normalize_host raw) ≡ false
      → lib.ip_address (normalize_host raw) ≡ none
      → o.resolver ≡ some resolver
      → is_safe_host lib o (normalize_host raw) ≡ some n
      → one_of t (map lib.print (resolve_host_ips lib (resolver n (normalize_host raw)))) ≡ true
      → (s : HostResolutionSnapshot) × (resolve_safe_host_snapshot lib o raw ≡ some s)
        × (one_of t s.allowed_ips ≡ true)
  unfolding resolve_safe_host_snapshot
  resolve_safe_host_snapshot-unchecked o raw resolver n t filled name given safe there =
      let (s, found, listed) =
        snapshot_of_name-listed o (normalize_host raw) resolver n t given safe there in
      (s, rw (filled, name) found, listed)

  is_allowed_peer_iff :
      (s : HostResolutionSnapshot) (found : Option A)
      → (is_allowed_peer lib s found ≡ true) ↔ (
          (ip : A) × (found ≡ some ip)
          × (is_safe_resolved_ip lib s.allow_private ip ≡ true)
          × (one_of (lib.print ip) s.allowed_ips ≡ true))
  is_allowed_peer_iff s none = (λ h. cc, λ h. let no = h.1 in cc)
  is_allowed_peer_iff s (some ip) = (
    λ h. (ip, refl, ground (arith, h), ground (arith, h)),
    λ h.
        let same : h.0 ≡ ip = cc in
        let allowed : is_allowed_peer lib s (some h.0) ≡ true = ground (arith, h.2, h.3) in
        sym (ap (λ x. is_allowed_peer lib s (some x)) same) ∙ allowed,
  )

  -- A response matches exactly if its peer is an address that is safe, as far as the snapshot asks, and
  -- that the snapshot lists.
  pub response_matches_snapshot_iff :
      (response : Option PeerResponse) (s : HostResolutionSnapshot)
      → is_empty (extract_response_peer_ip response) ≡ false
      → (response_matches_snapshot lib response (some s) ≡ true) ↔ (
          (ip : A) × (lib.ip_address (extract_response_peer_ip response) ≡ some ip)
          × (is_safe_resolved_ip lib s.allow_private ip ≡ true)
          × (one_of (lib.print ip) s.allowed_ips ≡ true))
  unfolding response_matches_snapshot
  response_matches_snapshot_iff response s peered =
      rw peered (is_allowed_peer_iff s (lib.ip_address (extract_response_peer_ip response)))
