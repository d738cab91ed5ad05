-- ===== src/Network.antt =====
-- core/network_safety.py: the checks that keep requests away from addresses of the local network.
-- Parsing and printing an address and its classes are those of Python's `ipaddress`, the record
-- `Addresses`. `resolver n` is the `n`-th answer of the name service.
pub mod Names
pub mod Hosts
pub mod Peers
pub mod Laws
mod Tests
