-- ===== src/Mmu/Identity.antt =====
-- What the processor makes of the table of bsp/mmu.c.
use ucosii_arm64_qemu.Prelude.{
  ℕ, zero, suc, ◌+◌, ◌*◌, ◌/◌, ◌%◌, ◌^◌, ◌≤◌, ◌<◌, ◌≡◌, ◌≢◌, ◌∙◌, refl, ap, sym, true, false,
  Option, none, some, List, ltb, ◌==◌, ◌&&◌, if◌then◌else◌, get_or, replicate, get_or-replicate,
  length, length-set, length-replicate, get_or-set_self, get_or-set_ne, arith, Bool-cases, inl, inr,
}
use ucosii_arm64_qemu.Mmu.{Mmu, block, fill_table, mmu_init}

-- The lookup at level 1 with a 4 KB granule: a block whose access flag is set gives the address, and
-- the attribute that MAIR holds for its index.
unfoldable pub leaf : ℕ → ℕ → ℕ → Option (ℕ × ℕ)
leaf entry mair addr =
    let index = entry / 4 % 8 in
    if entry % 4 == 1 && entry / 2 ^ 10 % 2 == 1
    then some (entry / 2 ^ 30 % 2 ^ 18 * 2 ^ 30 + addr % 2 ^ 30, mair / 2 ^ (8 * index) % 256)
    else none

unfoldable pub walk_level1 : Mmu → ℕ → Option (ℕ × ℕ)
unfolding leaf
walk_level1 m addr = leaf (get_or m.level1_table (addr / 2 ^ 30) 0) m.mair addr

fill_table-length : (n : ℕ) (table : List ℕ) → length (fill_table n table) ≡ length table
unfolding fill_table
fill_table-length zero table = refl
fill_table-length (suc n) table =
    length-set (fill_table n table) n (block n) ∙ fill_table-length n table

fill_table-entry :
    (n i : ℕ) (table : List ℕ)
    → n ≤ length table
    → get_or (fill_table n table) i 0 ≡ (if ltb i n then block i else get_or table i 0)
unfolding fill_table
fill_table-entry zero i table room = let past : ltb i 0 ≡ false = ground arith in rw past refl
fill_table-entry (suc n) i table room = elim (Bool-cases (n == i)) [
  | inl same ↦
      let e : i ≡ n = ground arith in
      let within : ltb n (suc n) ≡ true = ground arith in
      let here =
        get_or-set_self (fill_table n table) n (block n) 0
          (omega (arith, fill_table-length n table)) in
      rw (e, within) here
  | inr other ↦
      let apart : n ≢ i = λ e. ground arith in
      let same : ltb i (suc n) ≡ ltb i n = ground arith in
      rw (same, get_or-set_ne (fill_table n table) n i (block n) 0 apart)
        (fill_table-entry n i table (omega arith))
]

-- The four gigabytes, one after another.
leaf-block :
    (i addr : ℕ)
    → i < 4
    → addr / 2 ^ 30 ≡ i
    → leaf (block i) 255 addr ≡ some (addr, if i == 0 then 0 else 255)
unfolding leaf block
leaf-block zero addr small e = ap (λ x. some (x, 0)) (omega arith)
leaf-block (suc zero) addr small e = ap (λ x. some (x, 255)) (omega arith)
leaf-block (suc (suc zero)) addr small e = ap (λ x. some (x, 255)) (omega arith)
leaf-block (suc (suc (suc zero))) addr small e = ap (λ x. some (x, 255)) (omega arith)
leaf-block (suc (suc (suc (suc i)))) addr small e = absurd (omega arith)

leaf-zero : (addr : ℕ) → leaf 0 255 addr ≡ none
unfolding leaf
leaf-zero addr = refl

-- With the table and the attributes that are set up, the processor maps each of the first four
-- gigabytes to itself, the first as device memory (attribute 0) and the others as normal write-back
-- memory (attribute 255), and maps nothing else.
pub mmu_init_identity :
    (sctlr addr : ℕ)
    → walk_level1 (mmu_init sctlr) addr
      ≡ (if ltb addr (2 ^ 32) then some (addr, if ltb addr (2 ^ 30) then 0 else 255) else none)
unfolding walk_level1 mmu_init
mmu_init_identity sctlr addr =
    let entry =
      fill_table-entry 4 (addr / 2 ^ 30) (replicate 512 0)
        (omega (arith, length-replicate {A = ℕ} 512 0)) in
    elim (Bool-cases (ltb addr (2 ^ 32))) [
      | inl low ↦
          let within : ltb (addr / 2 ^ 30) 4 ≡ true = ground arith in
          let first : (addr / 2 ^ 30 == 0) ≡ ltb addr (2 ^ 30) = ground arith in
          rw (low, entry, within, sym first) (leaf-block (addr / 2 ^ 30) addr (ground arith) refl)
      | inr high ↦
          let past : ltb (addr / 2 ^ 30) 4 ≡ false = ground arith in
          rw (high, entry, past, get_or-replicate {A = ℕ} 512 (addr / 2 ^ 30) 0) (leaf-zero addr)
    ]
