-- ===== src/Nat/Sweep.antt =====
-- `nat_cleanup_expired` of bsp/nat.c: the sweep over the table. Each round reads and writes one
-- entry, the two hash tables and the counters.
use ucosii_arm64_qemu.Prelude.{
  ℕ, suc, ◌+◌, ◌/◌, ◌≡◌, refl, ap, Bool, false, ◌&&◌, List, [], ◌∷◌, map, leb, if◌then◌else◌, u32,
  sub32, Bool-cases, inl, inr,
}
use ucosii_arm64_qemu.Nat.Types.{NatEntry, NatStats, NatState}
use ucosii_arm64_qemu.Nat.Hash.{nat_hash_remove, nat_outbound_hash_remove}

-- What the loop carries beside the table.
pub record Sweep : Type 0 where
  pub hash : List ℕ
  pub outbound_hash : List ℕ
  pub stats : NatStats
  pub removed : ℕ

-- The test of the loop: active, and idle for the timeout or longer. Seconds are uint32_t.
unfoldable pub is_expired : ℕ → NatEntry → Bool
is_expired current_sec e =
    e.active && leb e.timeout_sec (sub32 current_sec (e.last_activity / 1000))

unfoldable pub remove_entry : NatEntry → Sweep → Sweep
remove_entry e w = record {
  hash = nat_hash_remove e.wan_port w.hash;
  outbound_hash = nat_outbound_hash_remove e.protocol e.lan_port w.outbound_hash;
  stats = record (w.stats) { timeouts = u32 (w.stats.timeouts + 1) };
  removed = suc w.removed;
}

unfoldable pub sweep : ℕ → List NatEntry → Sweep → List NatEntry × Sweep
sweep current_sec [] w = ([], w)
sweep current_sec (e ∷ es) w =
    let gone = is_expired current_sec e in
    let (es', w') = sweep current_sec es (if gone then remove_entry e w else w) in
    ((if gone then record e { active = false } else e) ∷ es', w')

unfoldable pub nat_cleanup_expired : ℕ → NatState → NatState × ℕ
unfolding sweep remove_entry
nat_cleanup_expired current_ticks s =
    let (table, w) = sweep (current_ticks / 1000) s.nat_table (record {
      hash = s.nat_hash_table;
      outbound_hash = s.nat_outbound_hash_table;
      stats = s.nat_statistics;
      removed = 0;
    }) in
    (
      record s {
        nat_table = table;
        nat_hash_table = w.hash;
        nat_outbound_hash_table = w.outbound_hash;
        nat_statistics = w.stats;
      },
      w.removed,
    )

-- What every removal keeps, the sweep keeps.
pub sweep_inv {ℓ} :
    (P : Sweep → Type ℓ)
    → ((e : NatEntry) (w : Sweep) → P w → P (remove_entry e w))
    → (sec : ℕ) (es : List NatEntry) (w : Sweep) → P w
    → P (sweep sec es w).1
unfolding sweep
sweep_inv P keep sec [] w h = h
sweep_inv P keep sec (e ∷ es) w h = elim (Bool-cases (is_expired sec e)) [
  | inl gone ↦ rw gone (sweep_inv P keep sec es (remove_entry e w) (keep e w h))
  | inr stays ↦ rw stays (sweep_inv P keep sec es w h)
]

-- An entry after the sweep, by itself.
unfoldable pub expire : ℕ → NatEntry → NatEntry
expire sec e = if is_expired sec e then record e { active = false } else e

pub sweep-map :
    (sec : ℕ) (es : List NatEntry) (w : Sweep) → (sweep sec es w).0 ≡ map (expire sec) es
unfolding sweep expire
sweep-map sec [] w = refl
sweep-map sec (e ∷ es) w =
    ap (λ t. expire sec e ∷ t) (sweep-map sec es (if is_expired sec e then remove_entry e w else w))
