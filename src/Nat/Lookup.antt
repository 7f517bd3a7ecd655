-- ===== src/Nat/Lookup.antt =====
-- The searches of bsp/nat.c: by hash bucket first, then by the linear scan of the table.
use ucosii_arm64_qemu.Prelude.{
  ℕ, ◌<◌, ◌≡◌, refl, arith, length, find_index_hit, Bool, false, ◌&&◌, not, Option, none, some, ltb,
  leb, ◌==◌, if◌then◌else◌, get_or, find_index,
}
use ucosii_arm64_qemu.Addr.{ip_equal}
use ucosii_arm64_qemu.Nat.Types.{NatEntry, unused_entry, NatState, Flow, Reply, entry_at}
use ucosii_arm64_qemu.Nat.Hash.{nat_hash, nat_outbound_hash}

-- The conditions of `nat_find_entry` and `nat_find_reverse_entry` on an entry.
unfoldable pub out_match : Flow → NatEntry → Bool
out_match f e =
    e.active
    && (e.protocol == f.protocol
        && (ip_equal e.lan_ip f.lan_ip
            && (e.lan_port == f.lan_port
                && (ip_equal e.dst_ip f.dst_ip && e.dst_port == f.dst_port))))

unfoldable pub in_match : Reply → NatEntry → Bool
in_match r e =
    e.active
    && (e.protocol == r.protocol
        && (e.wan_port == r.wan_port && (ip_equal e.dst_ip r.src_ip && e.dst_port == r.src_port)))

-- A bucket byte of 128 or more is a negative int8_t.
unfoldable pub nat_find_entry : NatState → Flow → Option ℕ
nat_find_entry s f =
    let bucket = get_or s.nat_outbound_hash_table (nat_outbound_hash f.protocol f.lan_port) 255 in
    if ltb bucket 128 && out_match f (entry_at s bucket)
    then some bucket
    else find_index (out_match f) s.nat_table

unfoldable pub nat_find_reverse_entry : NatState → Reply → Option ℕ
nat_find_reverse_entry s r =
    let bucket = get_or s.nat_hash_table (nat_hash r.wan_port) 255 in
    if leb 128 bucket
    then none
    else if in_match r (entry_at s bucket)
    then some bucket
    else find_index (in_match r) s.nat_table

unfoldable pub nat_alloc_entry : NatState → Option ℕ
nat_alloc_entry s = find_index (λ e. not e.active) s.nat_table

pub nat_alloc_entry-free :
    (s : NatState) (i : ℕ)
    → nat_alloc_entry s ≡ some i
    → (i < length s.nat_table) × ((entry_at s i).active ≡ false)
unfolding nat_alloc_entry
nat_alloc_entry-free s i e =
    ground (arith, find_index_hit (λ (e : NatEntry). not e.active) s.nat_table i unused_entry e)

pub out_match-unused : (f : Flow) → out_match f unused_entry ≡ false
unfolding out_match
out_match-unused f = refl

pub in_match-unused : (r : Reply) → in_match r unused_entry ≡ false
unfolding in_match
in_match-unused r = refl
