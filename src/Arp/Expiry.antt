-- ===== src/Arp/Expiry.antt =====
-- `arp_cache_cleanup` of bsp/nat.c: which entries it removes.
use ucosii_arm64_qemu.Prelude.{
  ℕ, zero, suc, ◌+◌, ◌-◌, ◌/◌, ◌^◌, ◌≤◌, ◌<◌, ◌≡◌, refl, false, ◌&&◌, List, [], ◌∷◌, ltb,
  if◌then◌else◌, arith, get_or,
}
use ucosii_arm64_qemu.Arp.{ArpEntry, unused_arp, arp_expired, arp_sweep, arp_cache_cleanup}

-- The number of entries that are active.
unfoldable pub count_active : List ArpEntry → ℕ
count_active [] = 0
count_active (e ∷ es) = (if e.active then 1 else 0) + count_active es

arp_sweep-get :
    (sec : ℕ) (es : List ArpEntry) (i : ℕ)
    → get_or (arp_sweep sec es).0 i unused_arp ≡ (
        let e = get_or es i unused_arp in
        record e { active = if arp_expired sec e then false else e.active })
unfolding arp_sweep arp_expired
arp_sweep-get sec [] i = ground arith
arp_sweep-get sec (e ∷ es) zero = ground arith
arp_sweep-get sec (e ∷ es) (suc i) = ground (arith, arp_sweep-get sec es i)

arp_sweep-count :
    (sec : ℕ) (es : List ArpEntry)
    → count_active (arp_sweep sec es).0 + (arp_sweep sec es).1 ≡ count_active es
unfolding arp_sweep arp_expired count_active
arp_sweep-count sec [] = refl
arp_sweep-count sec (e ∷ es) = ground (arith, arp_sweep-count sec es)

-- As long as the tick counter has not wrapped since an entry was learned, the entry stays active
-- exactly if it was, and is younger than 300 seconds; its addresses and time stamp stay.
arp_cache_cleanup_keeps :
    (now : ℕ) (table : List ArpEntry) (i : ℕ)
    → now < 2 ^ 32
    → (get_or table i unused_arp).last_update ≤ now
    → let e = get_or table i unused_arp in
      get_or (arp_cache_cleanup now table).0 i unused_arp
      ≡ record e { active = e.active && ltb (now / 1000 - e.last_update / 1000) 300 }
unfolding arp_cache_cleanup arp_expired
arp_cache_cleanup_keeps now table i h k = ground (arith, arp_sweep-get (now / 1000) table i)

-- The number reported is the number of entries that ceased to be active.
pub arp_cache_cleanup_count :
    (now : ℕ) (table : List ArpEntry)
    → let (table', removed) = arp_cache_cleanup now table in
      count_active table' + removed ≡ count_active table
unfolding arp_cache_cleanup
arp_cache_cleanup_count now table = arp_sweep-count (now / 1000) table
