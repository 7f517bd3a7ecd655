-- ===== src/Nat/Exact.antt =====
-- What the searches of bsp/nat.c find: the hash buckets change the cost and not the answer.
use ucosii_arm64_qemu.Prelude.{
  ℕ, ◌<◌, ◌≡◌, ◌⊎◌, inl, inr, Bool, true, false, none, some, ltb, arith, length, get_or, find_index,
  find_index_hit, find_index_miss, get_or_past, Bool-cases, Option-cases,
}
use ucosii_arm64_qemu.Nat.Types.{NatEntry, NatState, Flow, Reply, unused_entry, entry_at}
use ucosii_arm64_qemu.Nat.Hash.{nat_hash, nat_outbound_hash}
use ucosii_arm64_qemu.Nat.Lookup.{
  out_match, in_match, out_match-unused, in_match-unused, nat_find_entry, nat_find_reverse_entry,
}
use ucosii_arm64_qemu.Nat.WellFormed.{WellFormed}

-- A table position at which a search may answer.
abbrev pub Found : (NatEntry → Bool) → NatState → ℕ → Type 0
Found p s i = (i < 64) × (p (entry_at s i) ≡ true)

pub scan_hit :
    (p : NatEntry → Bool) (s : NatState) (i : ℕ)
    → WellFormed s
    → find_index p s.nat_table ≡ some i
    → Found p s i
scan_hit p s i v e = ground (arith, find_index_hit p s.nat_table i unused_entry e, v.table_length)

pub scan_miss :
    (p : NatEntry → Bool) (s : NatState) (i : ℕ)
    → p unused_entry ≡ false
    → find_index p s.nat_table ≡ none
    → p (entry_at s i) ≡ false
scan_miss p s i u e = elim (Bool-cases (ltb i (length s.nat_table))) [
  | inl h ↦ find_index_miss p s.nat_table i unused_entry e (ground arith)
  | inr h ↦ rw (get_or_past s.nat_table i unused_entry (ground arith)) u
]

pub nat_find_entry-hit :
    (s : NatState) (f : Flow) (i : ℕ)
    → WellFormed s
    → nat_find_entry s f ≡ some i
    → Found (out_match f) s i
unfolding nat_find_entry
nat_find_entry-hit s f i v e = ground (
  arith,
  v.outbound_buckets (nat_outbound_hash f.protocol f.lan_port),
  scan_hit (out_match f) s i v,
)

pub nat_find_entry-miss :
    (s : NatState) (f : Flow) (i : ℕ)
    → nat_find_entry s f ≡ none
    → out_match f (entry_at s i) ≡ false
unfolding nat_find_entry
nat_find_entry-miss s f i e = ground (arith, scan_miss (out_match f) s i (out_match-unused f))

-- The search for an outbound session finds an active entry with the flow's protocol, addresses and
-- ports, within the table, and answers NULL only if the table holds no such entry.
nat_find_entry_exact :
    (s : NatState) (f : Flow)
    → WellFormed s
    → ((i : ℕ) × (nat_find_entry s f ≡ some i) × (i < 64) × (out_match f (entry_at s i) ≡ true))
      ⊎ ((nat_find_entry s f ≡ none) × ((i : ℕ) → out_match f (entry_at s i) ≡ false))
nat_find_entry_exact s f v = elim (Option-cases (nat_find_entry s f)) [
  | inl e ↦ inr (e, λ i. nat_find_entry-miss s f i e)
  | inr (i, e) ↦ inl (i, e, (nat_find_entry-hit s f i v e).0, (nat_find_entry-hit s f i v e).1)
]

pub nat_find_reverse_entry-hit :
    (s : NatState) (r : Reply) (i : ℕ)
    → WellFormed s
    → nat_find_reverse_entry s r ≡ some i
    → Found (in_match r) s i
unfolding nat_find_reverse_entry
nat_find_reverse_entry-hit s r i v e =
    ground (arith, v.buckets (nat_hash r.wan_port), scan_hit (in_match r) s i v)

-- The reverse search looks past its bucket only if the bucket holds an index.
pub nat_find_reverse_entry-miss :
    (s : NatState) (r : Reply) (i : ℕ)
    → get_or s.nat_hash_table (nat_hash r.wan_port) 255 < 128
    → nat_find_reverse_entry s r ≡ none
    → in_match r (entry_at s i) ≡ false
unfolding nat_find_reverse_entry
nat_find_reverse_entry-miss s r i h e =
    ground (arith, scan_miss (in_match r) s i (in_match-unused r))
