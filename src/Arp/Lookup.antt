-- ===== src/Arp/Lookup.antt =====
-- What the ARP cache of bsp/nat.c remembers.
use ucosii_arm64_qemu.Prelude.{
  ℕ, ◌<◌, ◌≡◌, refl, ◌∙◌, ◌≢◌, ◌⊎◌, ap, true, false, not, some, List, arith, length, get_or, set,
  find_index, find_index_hit, find_index_miss, find_index-set_fail, find_index-set_hit,
  find_index-set_new, get_or-set, get_or-set_self, Option-cases, inl, inr,
}
use ucosii_arm64_qemu.Addr.{Ip, Mac, ip_equal_iff}
use ucosii_arm64_qemu.Arp.{
  ArpEntry, unused_arp, arp_match, arp_slot, arp_cache_add, arp_cache_lookup,
}
use ucosii_arm64_qemu.Arp.Evict.{arp_slot-lt, arp_slot_cases, oldest_index-lt}

abbrev learned : Ip → Mac → ℕ → ArpEntry
learned ip mac now = record { active = true; ip = ip; mac = mac; last_update = now }

learned-match : (ip : Ip) (mac : Mac) (now : ℕ) → arp_match ip (learned ip mac now) ≡ true
unfolding arp_match
learned-match ip mac now = (ip_equal_iff ip ip).1 refl

-- The entry written is the first one for its address.
find-arp_cache_add :
    (ip : Ip) (mac : Mac) (now : ℕ) (table : List ArpEntry)
    → 0 < length table
    → find_index (arp_match ip) (arp_cache_add ip mac now table) ≡ some (arp_slot ip now table)
unfolding arp_cache_add
find-arp_cache_add ip mac now table h =
    arp_slot_cases (λ i. find_index (arp_match ip) (set table i (learned ip mac now)) ≡ some i) ip
      now table
      (λ i e.
        find_index-set_hit (arp_match ip) table i (learned ip mac now) (learned-match ip mac now) e)
      (λ i e a.
        find_index-set_new (arp_match ip) table i (learned ip mac now) (learned-match ip mac now) e
          (find_index_hit (λ (e : ArpEntry). not e.active) table i unused_arp a).0)
      (λ e _.
        find_index-set_new (arp_match ip) table _ (learned ip mac now) (learned-match ip mac now) e
          (oldest_index-lt table 0 now 0 (length table) h (omega arith)))

-- An address learned is looked up with the MAC learned, whether its entry was updated, taken from the
-- free ones, or taken from the oldest one of a full cache.
pub arp_cache_lookup-add :
    (ip : Ip) (mac : Mac) (now : ℕ) (table : List ArpEntry)
    → 0 < length table
    → arp_cache_lookup ip (arp_cache_add ip mac now table) ≡ some mac
unfolding arp_cache_lookup arp_cache_add
arp_cache_lookup-add ip mac now table h =
    rw (arp_cache_lookup, find-arp_cache_add ip mac now table h)
      (ap (λ e. some e.mac)
        (get_or-set_self table (arp_slot ip now table) (learned ip mac now) unused_arp
          (arp_slot-lt ip now table h)))

-- Overwriting an entry that is not for `other` does not change what `other` is looked up with.
set-arp_cache_lookup :
    (ip other : Ip) (mac : Mac) (now : ℕ) (table : List ArpEntry) (i : ℕ)
    → other ≢ ip
    → arp_match other (get_or table i unused_arp) ≡ false
    → arp_cache_lookup other (set table i (learned ip mac now)) ≡ arp_cache_lookup other table
unfolding arp_cache_lookup
set-arp_cache_lookup ip other mac now table i ne miss =
    elim (Option-cases (find_index (arp_match other) table)) [
      | inl e ↦ rw (arp_cache_lookup, same ∙ e, e)
      | inr (j, e) ↦ rw (arp_cache_lookup, same ∙ e, e) (ap (λ x. some x.mac) (kept j e))
    ]
  where
    same :
        find_index (arp_match other) (set table i (learned ip mac now))
        ≡ find_index (arp_match other) table
    same =
        find_index-set_fail (arp_match other) table i (learned ip mac now) unused_arp
          (unfold arp_match in ground (arith, ip_equal_iff ip other)) miss

    kept :
        (j : ℕ)
        → find_index (arp_match other) table ≡ some j
        → get_or (set table i (learned ip mac now)) j unused_arp ≡ get_or table j unused_arp
    kept j e = ground (
      arith,
      get_or-set table i j (learned ip mac now) unused_arp,
      find_index_hit (arp_match other) table j unused_arp e,
      miss,
    )

-- If the cache has an entry for an address or a free one, learning that address leaves what every
-- other address is looked up with.
pub arp_cache_lookup-add_other :
    (ip other : Ip) (mac : Mac) (now : ℕ) (table : List ArpEntry) (k : ℕ)
    → other ≢ ip
    → k < length table
    → ((get_or table k unused_arp).active ≡ false)
      ⊎ (arp_match ip (get_or table k unused_arp) ≡ true)
    → arp_cache_lookup other (arp_cache_add ip mac now table) ≡ arp_cache_lookup other table
unfolding arp_cache_add arp_match
arp_cache_lookup-add_other ip other mac now table k ne in_table room =
    arp_slot_cases
      (λ i.
        arp_cache_lookup other (set table i (learned ip mac now)) ≡ arp_cache_lookup other table)
      ip now table
      (λ i e. set-arp_cache_lookup ip other mac now table i ne (
        ground (
          arith,
          find_index_hit (arp_match ip) table i unused_arp e,
          ip_equal_iff (get_or table i unused_arp).ip ip,
          ip_equal_iff (get_or table i unused_arp).ip other,
        )))
      (λ i _ a.
        set-arp_cache_lookup ip other mac now table i ne
          (ground (arith, find_index_hit (λ (e : ArpEntry). not e.active) table i unused_arp a)))
      (λ e a. absurd (
        ground (
          arith,
          find_index_miss (arp_match ip) table k unused_arp e in_table,
          find_index_miss (λ (e : ArpEntry). not e.active) table k unused_arp a in_table,
        )))
