-- ===== src/Network/Peers.antt =====
-- core/network_safety.py: the address that a response came from.
use hyper_loader.Prelude.{
  Bool, List, Option, Text, [], false, is_empty, none, not, one_of, some, strip, ◌&&◌, ◌∷◌, ◌++◌,
}
use hyper_loader.Network.Hosts.{Addresses, HostResolutionSnapshot, is_safe_resolved_ip}

-- what an object that may be the socket gives
pub data Candidate : Type 0 where
  absent no_method unreachable other_peer : Candidate
  pair_of text_of : Text → Candidate

-- the attributes that are looked at: those of the object `fp` of a response, and of the response
pub record Holder : Type 0 where
  pub raw : Candidate
  pub raw_sock : Candidate
  pub sock : Candidate

pub record PeerResponse : Type 0 where
  pub fp : Option Holder
  pub own : Holder

abbrev pub held_by : Holder → List Candidate
held_by h = h.raw ∷ h.raw_sock ∷ h.sock ∷ []

-- the candidates, in the order in which they are tried
unfoldable pub candidates_in : Option PeerResponse → List Candidate
candidates_in none = []
candidates_in (some r) = elim r.fp [ none ↦ [] | some h ↦ held_by h ] ++ held_by r.own

-- the loop over the candidates
unfoldable pub first_peer : List Candidate → Text
unfolding strip
first_peer [] = []
first_peer (pair_of address ∷ cs) = strip address
first_peer (text_of address ∷ cs) = strip address
first_peer (c ∷ cs) = first_peer cs

unfoldable pub extract_response_peer_ip : Option PeerResponse → Text
unfolding candidates_in first_peer
extract_response_peer_ip response = first_peer (candidates_in response)

module _ {A : Type 0} (lib : Addresses A) where
  -- `none` is a peer that does not parse
  abbrev pub is_allowed_peer : HostResolutionSnapshot → Option A → Bool
  is_allowed_peer s none = false
  is_allowed_peer s (some ip) =
      is_safe_resolved_ip lib s.allow_private ip && one_of (lib.print ip) s.allowed_ips

  unfoldable pub response_matches_snapshot :
      Option PeerResponse → Option HostResolutionSnapshot → Bool
  unfolding extract_response_peer_ip is_safe_resolved_ip one_of
  response_matches_snapshot response none = false
  response_matches_snapshot response (some s) =
      let peer = extract_response_peer_ip response in
      not (is_empty peer) && is_allowed_peer s (lib.ip_address peer)
