-- ===== src/Network/Tests.antt =====
-- A host whose name is resolved to a public address, and later to a private one.
use hyper_loader.Prelude.{
  Text, [], codes, false, if◌then◌else◌, is_empty, map, none, one_of, refl, some, suc, text_eq,
  true, zero, ℕ, ◌∷◌, ◌≡◌, Option,
}
use hyper_loader.Network.Names.{normalize_host, is_basic_hostname}
use hyper_loader.Network.Hosts.{
  Addresses, Options, Resolution, one, listed, HostResolutionSnapshot, is_safe_host,
  resolve_host_ips, resolve_tcp_host_ips,
}
use hyper_loader.Network.Peers.{PeerResponse, absent, no_method, pair_of, extract_response_peer_ip}
use hyper_loader.Network.Laws.{Safe, is_safe_host-Safe}

abbrev public_ip : Text
public_ip = codes "8.8.8.8"

abbrev private_ip : Text
private_ip = codes "10.0.0.1"

-- two addresses, which stand for themselves
abbrev addresses : Addresses Text
addresses = record {
  ip_address = λ s. if one_of s (public_ip ∷ private_ip ∷ []) then some s else none;
  print = λ s. s;
  is_loopback = λ s. false;
  is_private = λ s. text_eq s private_ip;
  is_link_local = λ s. false;
  is_multicast = λ s. false;
  is_reserved = λ s. false;
  is_unspecified = λ s. false;
}

abbrev rebound : ℕ → Text → Resolution
rebound zero host = one public_ip
rebound (suc zero) host = listed (codes " 8.8.8.8" ∷ public_ip ∷ codes "?" ∷ [])
rebound (suc (suc k)) host = one private_ip

abbrev strict : Options
strict = record {
  allow_private = false;
  resolver = some rebound;
  host_validator = none;
  resolver_attempts = 2;
  require_consistent_resolution = true;
}

abbrev raw_host : Text
raw_host = codes " Example.com "

abbrev host : Text
host = codes "example.com"

tcp_answers :
    resolve_tcp_host_ips (some (some (codes " 8.8.8.8")) ∷ none ∷ some none ∷ [])
    ≡ public_ip ∷ [] ∷ []
unfolding resolve_tcp_host_ips
tcp_answers = refl

names :
    (is_basic_hostname (codes "a..b") ≡ false)
    × (is_basic_hostname (codes "-a.b") ≡ false)
    × (is_basic_hostname raw_host ≡ true)
unfolding is_basic_hostname
names = (refl, refl, refl)

brackets : normalize_host (codes "[::1]") ≡ codes "::1"
unfolding normalize_host
brackets = refl

normalized : normalize_host raw_host ≡ host
unfolding normalize_host
normalized = refl

looks_safe : is_safe_host addresses strict raw_host ≡ some 2
unfolding is_safe_host
looks_safe = refl

is_safe_host-Safe_example : Safe addresses strict (normalize_host raw_host) 2
is_safe_host-Safe_example = is_safe_host-Safe addresses strict raw_host 2 refl looks_safe

not_empty : is_empty (normalize_host raw_host) ≡ false
unfolding normalize_host
not_empty = refl

no_address : addresses.ip_address (normalize_host raw_host) ≡ none
unfolding normalize_host one_of
no_address = refl

safe_again : is_safe_host addresses strict (normalize_host raw_host) ≡ some 2
unfolding is_safe_host
safe_again = refl

private_there :
    one_of private_ip
      (map addresses.print (resolve_host_ips addresses (rebound 2 (normalize_host raw_host))))
    ≡ true
unfolding resolve_host_ips
private_there = refl

abbrev snapshot : HostResolutionSnapshot
snapshot = record { host = host; allowed_ips = public_ip ∷ []; allow_private = false }

abbrev response : Option PeerResponse
response = some (record {
  fp = some (record { raw = absent; raw_sock = no_method; sock = absent });
  own = record { raw = absent; raw_sock = pair_of (codes "8.8.8.8 "); sock = absent };
})

peered : is_empty (extract_response_peer_ip response) ≡ false
unfolding extract_response_peer_ip
peered = refl
