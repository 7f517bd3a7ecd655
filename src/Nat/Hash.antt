-- ===== src/Nat/Hash.antt =====
-- The two hash tables of bsp/nat.c: a bucket is an int8_t index into the session table, kept as its
-- byte, so that -1 is 255. Adding overwrites a bucket, and removing empties it.
use ucosii_arm64_qemu.Prelude.{
  ℕ, ◌*◌, ◌%◌, ◌^◌, ◌<◌, ◌≡◌, bit_and, bit_xor, List, u8, u16, set, bit_and_127, arith,
}
use ucosii_arm64_qemu.Nat.Types.{empty_bucket}

unfoldable pub nat_hash : ℕ → ℕ
nat_hash wan_port = u8 (bit_and wan_port 127)

unfoldable pub nat_outbound_hash : ℕ → ℕ → ℕ
nat_outbound_hash protocol lan_port =
    let key = u16 (bit_xor (protocol * 2 ^ 8) lan_port) in u8 (bit_and key 127)

unfoldable pub nat_hash_add : ℕ → ℕ → List ℕ → List ℕ
nat_hash_add wan_port index table = set table (nat_hash wan_port) (u8 index)

unfoldable pub nat_hash_remove : ℕ → List ℕ → List ℕ
nat_hash_remove wan_port table = set table (nat_hash wan_port) empty_bucket

unfoldable pub nat_outbound_hash_add : ℕ → ℕ → ℕ → List ℕ → List ℕ
nat_outbound_hash_add protocol lan_port index table =
    set table (nat_outbound_hash protocol lan_port) (u8 index)

unfoldable pub nat_outbound_hash_remove : ℕ → ℕ → List ℕ → List ℕ
nat_outbound_hash_remove protocol lan_port table =
    set table (nat_outbound_hash protocol lan_port) empty_bucket

-- Both hashes are bucket numbers, and the reverse one is the remainder by 128.
pub nat_hash_lem : (p : ℕ) → nat_hash p ≡ p % 128
unfolding nat_hash
nat_hash_lem p = omega (arith, bit_and_127 p)

pub nat_outbound_hash-lt : (protocol p : ℕ) → nat_outbound_hash protocol p < 128
unfolding nat_outbound_hash
nat_outbound_hash-lt protocol p = omega (arith, bit_and_127 (u16 (bit_xor (protocol * 2 ^ 8) p)))
