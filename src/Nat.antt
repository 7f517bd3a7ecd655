-- ===== src/Nat.antt =====
-- bsp/nat.h and bsp/nat.c: sessions of the address translation, their hash tables, the port
-- allocator and the expiry sweep. The ARP cache of the same file is the module Arp.
pub mod Types
pub mod Hash
pub mod Lookup
pub mod Translate
pub mod WellFormed
pub mod Exact
pub mod Session
pub mod Sweep
pub mod RoundTrip
pub mod Stale
pub mod Expiry
pub mod Run
mod Tests
