-- ===== src/Arp/Tests.antt =====
-- Each theorem on the ARP cache at an input that meets its hypotheses, and runs of the model.
use ucosii_arm64_qemu.Prelude.{
  ℕ, zero, suc, ◌≤◌, ◌≡◌, refl, true, some, List, [], ◌∷◌, arith, get_or, replicate, find_index,
}
use ucosii_arm64_qemu.Addr.{Ip, Mac, ip_equal}
use ucosii_arm64_qemu.Arp.{
  ArpEntry, unused_arp, arp_match, arp_slot, oldest_index, arp_cache_add, arp_cache_lookup,
}
use ucosii_arm64_qemu.Arp.Lookup.{arp_cache_lookup-add}

abbrev host : Ip
host = record { a = 192; b = 168; c = 1; d = 103 }

abbrev gateway : Ip
gateway = record { a = 10; b = 3; c = 5; d = 1 }

abbrev card : Mac
card = record { m0 = 0x52; m1 = 0x54; m2 = 0; m3 = 0x12; m4 = 0x34; m5 = 0x56 }

abbrev empty_cache : List ArpEntry
empty_cache = replicate 32 unused_arp

-- Two entries, learned at ticks 900 and 500, and no room.
abbrev full_cache : List ArpEntry
full_cache =
    record { active = true; ip = host; mac = card; last_update = 900 }
    ∷ record { active = true; ip = gateway; mac = card; last_update = 500 }
    ∷ []

abbrev printer : Ip
printer = record { a = 192; b = 168; c = 1; d = 7 }

replaces_oldest : arp_slot printer 1000 full_cache ≡ 1
unfolding arp_slot oldest_index find_index arp_match ip_equal
replaces_oldest = refl

arp_cache_lookup-add_example :
    arp_cache_lookup printer (arp_cache_add printer card 1000 full_cache) ≡ some card
arp_cache_lookup-add_example = arp_cache_lookup-add printer card 1000 full_cache (omega arith)

stamps_past : (k : ℕ) → (get_or full_cache k unused_arp).last_update ≤ 1000
stamps_past zero = omega arith
stamps_past (suc zero) = omega arith
stamps_past (suc (suc k)) = omega arith
