-- ===== src/Nat/Expiry.antt =====
-- Which sessions the sweep of bsp/nat.c removes, and what it keeps.
use ucosii_arm64_qemu.Prelude.{
  ℕ, ◌-◌, ◌/◌, ◌^◌, ◌≤◌, ◌<◌, ◌≡◌, refl, ap, ◌∙◌, true, false, ◌&&◌, ltb, arith, length, get_or,
  get_or-map, length-map, length-set, inr,
}
use ucosii_arm64_qemu.Nat.Types.{NatEntry, NatState, Flow, unused_entry, entry_at}
use ucosii_arm64_qemu.Nat.Hash.{nat_hash_remove, nat_outbound_hash_remove}
use ucosii_arm64_qemu.Nat.Lookup.{out_match}
use ucosii_arm64_qemu.Nat.WellFormed.{WellFormed, AreBuckets, set-AreBuckets}
use ucosii_arm64_qemu.Nat.Session.{OneSession}
use ucosii_arm64_qemu.Nat.Sweep.{
  Sweep, is_expired, remove_entry, sweep, nat_cleanup_expired, expire, sweep-map, sweep_inv,
}

unfoldable pub start : NatState → Sweep
start s = record {
  hash = s.nat_hash_table;
  outbound_hash = s.nat_outbound_hash_table;
  stats = s.nat_statistics;
  removed = 0;
}

-- Each entry after the sweep.
pub entry-nat_cleanup_expired :
    (now : ℕ) (s : NatState) (i : ℕ)
    → entry_at (nat_cleanup_expired now s).0 i ≡ expire (now / 1000) (entry_at s i)
unfolding nat_cleanup_expired expire is_expired start
entry-nat_cleanup_expired now s i =
    ap (λ t. get_or t i unused_entry) (sweep-map (now / 1000) s.nat_table (start s))
    ∙ get_or-map (expire (now / 1000)) s.nat_table i unused_entry

-- As long as the tick counter has not wrapped since an entry's last packet, the entry survives the
-- sweep exactly if it was active and has been idle for fewer seconds than its timeout.
pub nat_cleanup_keeps :
    (now : ℕ) (s : NatState) (i : ℕ)
    → now < 2 ^ 32
    → (entry_at s i).last_activity ≤ now
    → let e = entry_at s i in
      (entry_at (nat_cleanup_expired now s).0 i).active
      ≡ (e.active && ltb (now / 1000 - e.last_activity / 1000) e.timeout_sec)
unfolding expire is_expired
nat_cleanup_keeps now s i h k = ground (arith, entry-nat_cleanup_expired now s i)

-- An entry whose last packet lies at a later second than the present tick, as every recent one does
-- just after the 32-bit tick counter wraps, does not survive the sweep, whatever its timeout.
pub nat_cleanup_wrap :
    (now : ℕ) (s : NatState) (i : ℕ)
    → (entry_at s i).last_activity < 2 ^ 32
    → (entry_at s i).timeout_sec < 2 ^ 16
    → now / 1000 < (entry_at s i).last_activity / 1000
    → (entry_at (nat_cleanup_expired now s).0 i).active ≡ false
unfolding expire is_expired
nat_cleanup_wrap now s i h k l = ground (arith, entry-nat_cleanup_expired now s i)

abbrev Tables : NatState → Sweep → Type 0
Tables s w =
    (length w.hash ≡ length s.nat_hash_table)
    × (length w.outbound_hash ≡ length s.nat_outbound_hash_table)
    × AreBuckets w.hash
    × AreBuckets w.outbound_hash

remove_entry-Tables :
    (s : NatState) (e : NatEntry) (w : Sweep) → Tables s w → Tables s (remove_entry e w)
unfolding remove_entry nat_hash_remove nat_outbound_hash_remove
remove_entry-Tables s e w (a, b, h, k) = (
  length-set w.hash _ _ ∙ a,
  length-set w.outbound_hash _ _ ∙ b,
  set-AreBuckets w.hash _ _ (inr refl) h,
  set-AreBuckets w.outbound_hash _ _ (inr refl) k,
)

sweep-Tables :
    (sec : ℕ) (s : NatState) → WellFormed s → Tables s (sweep sec s.nat_table (start s)).1
unfolding start
sweep-Tables sec s v =
    sweep_inv (Tables s) (remove_entry-Tables s) sec s.nat_table (start s)
      (refl, refl, v.buckets, v.outbound_buckets)

-- The sweep keeps the invariant.
pub nat_cleanup_expired-WellFormed :
    (now : ℕ) (s : NatState) → WellFormed s → WellFormed (nat_cleanup_expired now s).0
unfolding nat_cleanup_expired start
nat_cleanup_expired-WellFormed now s v = record {
  table_length =
      ap length (sweep-map (now / 1000) s.nat_table (start s))
      ∙ length-map (expire (now / 1000)) s.nat_table
      ∙ v.table_length;
  hash_length = tables.0 ∙ v.hash_length;
  outbound_length = tables.1 ∙ v.outbound_length;
  buckets = tables.2;
  outbound_buckets = tables.3;
  port_from = v.port_from;
  port_to = v.port_to;
  port_end = v.port_end;
}
  where
    tables : Tables s (sweep (now / 1000) s.nat_table (start s)).1
    tables = sweep-Tables (now / 1000) s v

expire-out_match :
    (f : Flow) (sec : ℕ) (e : NatEntry) → out_match f (expire sec e) ≡ true → out_match f e ≡ true
unfolding out_match expire
expire-out_match f sec e h = ground arith

-- And it keeps one session for each flow.
pub nat_cleanup_expired-OneSession :
    (now : ℕ) (s : NatState) → OneSession s → OneSession (nat_cleanup_expired now s).0
nat_cleanup_expired-OneSession now s one f i j p q =
    one f i j
      (expire-out_match f (now / 1000) (entry_at s i) (rw (entry-nat_cleanup_expired now s i) at p))
      (expire-out_match f (now / 1000) (entry_at s j) (rw (entry-nat_cleanup_expired now s j) at q))
