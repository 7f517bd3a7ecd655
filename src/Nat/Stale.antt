-- ===== src/Nat/Stale.antt =====
-- Two live sessions whose WAN ports are equal modulo 128 share a bucket of bsp/nat.c's reverse hash.
-- When one of them expires the bucket is emptied, and the other is no longer found.
use ucosii_arm64_qemu.Prelude.{
  ℕ, zero, suc, ◌/◌, ◌≡◌, refl, true, false, none, List, [], ◌∷◌, if◌then◌else◌, arith, get_or, set,
  get_or-set, get_or_past,
}
use ucosii_arm64_qemu.Nat.Types.{NatEntry, NatState, Reply, unused_entry, entry_at}
use ucosii_arm64_qemu.Nat.Hash.{nat_hash, nat_hash_remove}
use ucosii_arm64_qemu.Nat.Lookup.{in_match, nat_find_reverse_entry}
use ucosii_arm64_qemu.Nat.Translate.{nat_translate_inbound}
use ucosii_arm64_qemu.Nat.Sweep.{
  Sweep, is_expired, remove_entry, sweep, nat_cleanup_expired, expire, sweep_inv,
}
use ucosii_arm64_qemu.Nat.Expiry.{start, entry-nat_cleanup_expired}

set_empty :
    (table : List ℕ) (h k : ℕ) → get_or table k 255 ≡ 255 → get_or (set table h 255) k 255 ≡ 255
set_empty table h k e = ground (arith, get_or-set table h k 255 255)

set_empty_self : (table : List ℕ) (h : ℕ) → get_or (set table h 255) h 255 ≡ 255
set_empty_self table h = ground (arith, get_or-set table h h 255 255, get_or_past table h 255)

-- An empty bucket stays empty through the sweep, and the bucket of an expired entry ends up empty.
sweep-empty :
    (sec : ℕ) (es : List NatEntry) (w : Sweep) (h : ℕ)
    → get_or w.hash h 255 ≡ 255
    → get_or (sweep sec es w).1.hash h 255 ≡ 255
unfolding remove_entry nat_hash_remove
sweep-empty sec es w h =
    sweep_inv (λ v. get_or v.hash h 255 ≡ 255) (λ e v. set_empty v.hash (nat_hash e.wan_port) h) sec
      es w

sweep-emptied :
    (sec : ℕ) (es : List NatEntry) (w : Sweep) (i : ℕ)
    → is_expired sec (get_or es i unused_entry) ≡ true
    → get_or (sweep sec es w).1.hash (nat_hash (get_or es i unused_entry).wan_port) 255 ≡ 255
unfolding sweep remove_entry nat_hash_remove
sweep-emptied sec [] w i e = absurd (unfold is_expired in cc)
sweep-emptied sec (x ∷ es) w zero e =
    sweep-empty sec es (if is_expired sec x then remove_entry x w else w) (nat_hash x.wan_port)
      (rw e (set_empty_self w.hash (nat_hash x.wan_port)))
sweep-emptied sec (x ∷ es) w (suc i) e =
    sweep-emptied sec es (if is_expired sec x then remove_entry x w else w) i e

-- The class of inputs that shows the fault: entry `i` expires in a sweep that entry `j` survives, and
-- their WAN ports share a bucket. Afterwards `j` is active and still matches its reply, but the
-- reverse search answers NULL for that reply and the reply is dropped.
pub nat_cleanup_strands :
    (s : NatState) (r : Reply) (now later i j : ℕ)
    → is_expired (now / 1000) (entry_at s i) ≡ true
    → is_expired (now / 1000) (entry_at s j) ≡ false
    → in_match r (entry_at s j) ≡ true
    → nat_hash (entry_at s i).wan_port ≡ nat_hash (entry_at s j).wan_port
    → let s' = (nat_cleanup_expired now s).0 in
      (in_match r (entry_at s' j) ≡ true)
      × (nat_find_reverse_entry s' r ≡ none)
      × ((nat_translate_inbound r later s').1 ≡ none)
unfolding nat_find_reverse_entry nat_translate_inbound nat_cleanup_expired start expire
nat_cleanup_strands s r now later i j gone kept m same =
    (still, lost, rw (nat_translate_inbound, lost) refl)
  where
    port : (e : NatEntry) → in_match r e ≡ true → e.wan_port ≡ r.wan_port
    port e h = unfold in_match in ground arith

    still : in_match r (entry_at (nat_cleanup_expired now s).0 j) ≡ true
    still = rw (entry-nat_cleanup_expired now s j, expire, kept) m

    lost : nat_find_reverse_entry (nat_cleanup_expired now s).0 r ≡ none
    lost = ground (
      arith,
      sweep-emptied (now / 1000) s.nat_table (start s) i gone,
      same,
      port (entry_at s j) m,
    )
