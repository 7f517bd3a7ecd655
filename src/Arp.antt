-- ===== src/Arp.antt =====
-- The ARP cache of bsp/nat.c. OSTime is the argument `now`; the console is left out.
pub mod Lookup
pub mod Evict
pub mod Expiry
mod Tests
use ucosii_arm64_qemu.Prelude.{
  ℕ, suc, ◌+◌, ◌/◌, Bool, true, false, ◌&&◌, not, Option, none, some, List, [], ◌∷◌, ltb, leb,
  if◌then◌else◌, get_or, set, find_index, sub32,
}
use ucosii_arm64_qemu.Addr.{Ip, Mac, zero_ip, zero_mac, ip_equal}

-- `struct arp_entry`
pub record ArpEntry : Type 0 where
  pub active : Bool
  pub ip : Ip
  pub mac : Mac
  pub last_update : ℕ

abbrev pub unused_arp : ArpEntry
unused_arp = record { active = false; ip = zero_ip; mac = zero_mac; last_update = 0 }

-- The test of the loops over the cache: an active entry for `ip`.
unfoldable pub arp_match : Ip → ArpEntry → Bool
arp_match ip e = e.active && ip_equal e.ip ip

-- The loop that looks for the smallest `last_update` below the start value, first one first.
unfoldable pub oldest_index : List ArpEntry → ℕ → ℕ → ℕ → ℕ
oldest_index [] i oldest_time oldest = oldest
oldest_index (e ∷ es) i oldest_time oldest =
    oldest_index es (suc i) (if ltb e.last_update oldest_time then e.last_update else oldest_time)
      (if ltb e.last_update oldest_time then i else oldest)

-- The entry that `arp_cache_add` writes: the one for `ip`, else a free one, else the oldest.
unfoldable pub arp_slot : Ip → ℕ → List ArpEntry → ℕ
unfolding arp_match oldest_index
arp_slot ip now table = elim (find_index (arp_match ip) table) [
  | some i ↦ i
  | none ↦ elim (find_index (λ e. not e.active) table) [
    | some i ↦ i
    | none ↦ oldest_index table 0 now 0
  ]
]

unfoldable pub arp_cache_add : Ip → Mac → ℕ → List ArpEntry → List ArpEntry
arp_cache_add ip mac now table =
    set table (arp_slot ip now table)
      (record { active = true; ip = ip; mac = mac; last_update = now })

unfoldable pub arp_cache_lookup : Ip → List ArpEntry → Option Mac
unfolding arp_match
arp_cache_lookup ip table = elim (find_index (arp_match ip) table) [
  | none ↦ none
  | some i ↦ some (get_or table i unused_arp).mac
]

-- One round of the loop of `arp_cache_cleanup`: the entry afterwards, and whether it was removed.
unfoldable pub arp_expired : ℕ → ArpEntry → Bool
arp_expired current_sec e = e.active && leb 300 (sub32 current_sec (e.last_update / 1000))

unfoldable pub arp_sweep : ℕ → List ArpEntry → List ArpEntry × ℕ
unfolding arp_expired
arp_sweep current_sec [] = ([], 0)
arp_sweep current_sec (e ∷ es) =
    let (es', removed) = arp_sweep current_sec es in
    if arp_expired current_sec e
    then (record e { active = false } ∷ es', suc removed)
    else (e ∷ es', removed)

unfoldable pub arp_cache_cleanup : ℕ → List ArpEntry → List ArpEntry × ℕ
unfolding arp_sweep
arp_cache_cleanup current_ticks table = arp_sweep (current_ticks / 1000) table
