-- ===== src/Nat/WellFormed.antt =====
-- The invariant of the static variables of bsp/nat.c: sizes, bucket contents and the port range.
use ucosii_arm64_qemu.Prelude.{
  ℕ, ◌≤◌, ◌<◌, ◌≡◌, refl, ◌∙◌, ◌⊎◌, inl, inr, some, List, arith, length, get_or, set, length-set,
  get_or-set, get_or-replicate,
}
use ucosii_arm64_qemu.Nat.Types.{NatState, NatEntry, NatStats, Flow, Reply, nat_init}
use ucosii_arm64_qemu.Nat.Hash.{nat_hash_add, nat_outbound_hash_add}
use ucosii_arm64_qemu.Nat.Lookup.{nat_alloc_entry, nat_alloc_entry-free}
use ucosii_arm64_qemu.Nat.Translate.{
  nat_translate_outbound, nat_translate_inbound, reuse_session, open_session, table_is_full,
  accept_reply, drop_reply, outbound_cases, inbound_cases,
}

-- A bucket is empty, or an index into the session table.
abbrev pub IsBucket : ℕ → Type 0
IsBucket b = (b < 64) ⊎ (b ≡ 255)

abbrev pub AreBuckets : List ℕ → Type 0
AreBuckets table = (h : ℕ) → IsBucket (get_or table h 255)

pub record WellFormed (s : NatState) : Type 0 where
  pub table_length : length s.nat_table ≡ 64
  pub hash_length : length s.nat_hash_table ≡ 128
  pub outbound_length : length s.nat_outbound_hash_table ≡ 128
  pub buckets : AreBuckets s.nat_hash_table
  pub outbound_buckets : AreBuckets s.nat_outbound_hash_table
  pub port_from : s.nat_cfg.port_range_start ≤ s.next_port
  pub port_to : s.next_port ≤ s.nat_cfg.port_range_end
  pub port_end : s.nat_cfg.port_range_end < 65535

pub set-AreBuckets :
    (table : List ℕ) (h b : ℕ) → IsBucket b → AreBuckets table → AreBuckets (set table h b)
set-AreBuckets table h b v w k = ground (arith, get_or-set table h k b 255, w k)

pub nat_init-WellFormed :
    (s : NatState)
    → s.nat_cfg.port_range_start ≤ s.nat_cfg.port_range_end
    → s.nat_cfg.port_range_end < 65535
    → WellFormed (nat_init s)
unfolding nat_init
nat_init-WellFormed s h k = record {
  table_length = refl;
  hash_length = refl;
  outbound_length = refl;
  buckets = λ i. inr (get_or-replicate 128 i 255);
  outbound_buckets = λ i. inr (get_or-replicate 128 i 255);
  port_from = omega arith;
  port_to = h;
  port_end = k;
}

-- Session and statistics updates leave the tables' shape and the port range alone.
pub retable-WellFormed :
    (table : List NatEntry) (stats : NatStats) (s : NatState)
    → length table ≡ 64
    → WellFormed s
    → WellFormed (record s { nat_table = table; nat_statistics = stats })
retable-WellFormed table stats s h v = record {
  table_length = h;
  hash_length = v.hash_length;
  outbound_length = v.outbound_length;
  buckets = v.buckets;
  outbound_buckets = v.outbound_buckets;
  port_from = v.port_from;
  port_to = v.port_to;
  port_end = v.port_end;
}

-- The next port stays in the configured range, whether or not it wraps round.
pub open_session-WellFormed :
    (i : ℕ) (f : Flow) (now : ℕ) (s : NatState)
    → i < 64
    → WellFormed s
    → WellFormed (open_session i f now s)
unfolding open_session nat_hash_add nat_outbound_hash_add
open_session-WellFormed i f now s h v = record {
  table_length = length-set s.nat_table i _ ∙ v.table_length;
  hash_length = length-set s.nat_hash_table _ _ ∙ v.hash_length;
  outbound_length = length-set s.nat_outbound_hash_table _ _ ∙ v.outbound_length;
  buckets = set-AreBuckets s.nat_hash_table _ _ (inl (omega arith)) v.buckets;
  outbound_buckets =
      set-AreBuckets s.nat_outbound_hash_table _ _ (inl (omega arith)) v.outbound_buckets;
  port_from = ground (arith, v.port_from, v.port_to, v.port_end);
  port_to = ground (arith, v.port_from, v.port_to, v.port_end);
  port_end = v.port_end;
}

-- An outbound translation keeps the invariant, on every branch.
pub nat_translate_outbound-WellFormed :
    (f : Flow) (now : ℕ) (s : NatState)
    → WellFormed s
    → WellFormed (nat_translate_outbound f now s).0
unfolding reuse_session table_is_full
nat_translate_outbound-WellFormed f now s v =
    outbound_cases (λ r. WellFormed r.0) f now s
      (λ i _. retable-WellFormed _ _ s (length-set s.nat_table i _ ∙ v.table_length) v)
      (λ i _ free. open_session-WellFormed i f now s (free_in_table i free) v)
      (λ _ _. retable-WellFormed s.nat_table _ s v.table_length v)
  where
    free_in_table : (i : ℕ) → nat_alloc_entry s ≡ some i → i < 64
    free_in_table i free = omega (arith, nat_alloc_entry-free s i free, v.table_length)

-- So does an inbound one.
pub nat_translate_inbound-WellFormed :
    (r : Reply) (now : ℕ) (s : NatState)
    → WellFormed s
    → WellFormed (nat_translate_inbound r now s).0
unfolding accept_reply drop_reply
nat_translate_inbound-WellFormed r now s v =
    inbound_cases (λ r. WellFormed r.0) r now s
      (λ i _. retable-WellFormed _ _ s (length-set s.nat_table i _ ∙ v.table_length) v)
      (λ _. retable-WellFormed s.nat_table _ s v.table_length v)
