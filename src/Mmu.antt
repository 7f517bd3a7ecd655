-- ===== src/Mmu.antt =====
-- The translation table and the registers of bsp/mmu.c. Left out are the barriers, the TLB's
-- invalidation, and the write of TTBR0, which gets the table's address.
pub mod Identity
mod Tests
use ucosii_arm64_qemu.Prelude.{
  ℕ, zero, suc, ◌+◌, ◌-◌, ◌*◌, ◌/◌, ◌%◌, ◌^◌, List, ◌==◌, if◌then◌else◌, set, replicate, bit_and,
  bit_or, u32,
}

pub record Mmu : Type 0 where
  pub level1_table : List ℕ
  pub mair : ℕ
  pub tcr : ℕ
  pub sctlr : ℕ

-- The block descriptor of the `i`-th gigabyte.
unfoldable pub block : ℕ → ℕ
block i =
    let addr = i * 2 ^ 30 in
    let attr_idx = if i == 0 then 1 else 0 in
    let sh = if attr_idx == 0 then 3 * 2 ^ 8 else 0 in
    bit_or (bit_or (bit_or (bit_or addr 1) (attr_idx * 4)) sh) (2 ^ 10)

-- The loop over the first `n` entries.
unfoldable pub fill_table : ℕ → List ℕ → List ℕ
fill_table zero table = table
fill_table (suc n) table = set (fill_table n table) n (block n)

-- Bits 0, 2 and 12 are set, and bits 25, 4 and 3 are cleared.
unfoldable pub enable_mmu_and_caches : ℕ → ℕ
enable_mmu_and_caches sctlr =
    let on = bit_or (bit_or (bit_or sctlr 1) 4) (2 ^ 12) in
    bit_and (bit_and (bit_and on (2 ^ 64 - 1 - 2 ^ 25)) (2 ^ 64 - 1 - 16)) (2 ^ 64 - 1 - 8)

unfoldable pub mmu_init : ℕ → Mmu
unfolding enable_mmu_and_caches
mmu_init sctlr = record {
  level1_table = fill_table 4 (replicate 512 0);
  mair = 255;
  tcr = bit_or (bit_or (bit_or (bit_or 32 (2 ^ 8)) (2 ^ 10)) (3 * 2 ^ 12)) (2 ^ 32);
  sctlr = enable_mmu_and_caches sctlr;
}
