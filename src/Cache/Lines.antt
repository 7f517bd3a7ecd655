-- ===== src/Cache/Lines.antt =====
-- Which cache lines the functions of bsp/cache.c maintain.
use ucosii_arm64_qemu.Prelude.{
  ℕ, zero, suc, ◌+◌, ◌-◌, ◌*◌, ◌/◌, ◌%◌, ◌^◌, ◌≤◌, ◌<◌, ◌≡◌, refl, true, false, some, List, [], ◌∷◌,
  ◌++◌, ltb, ◌==◌, arith,
}
use ucosii_arm64_qemu.Cache.{
  Op, Instruction, dc, dsb, isb, align_down, align_up, cache_op_range, op_range, cache_clean_range,
  cache_invalidate_range, cache_clean_invalidate_range,
}

-- The `n` lines from the `k`-th on, each once, in order.
unfoldable pub touch : Op → ℕ → ℕ → List Instruction
touch op k zero = []
touch op k (suc n) = dc op (k * 64) ∷ touch op (suc k) n

cache_op_range-touch :
    (fuel k n : ℕ) (op : Op)
    → n < fuel
    → (k + n) * 64 + 64 ≤ 2 ^ 64
    → cache_op_range fuel (k * 64) ((k + n) * 64) op ≡ some (touch op k n)
unfolding cache_op_range touch
cache_op_range-touch zero k n op enough room = absurd (omega arith)
cache_op_range-touch (suc fuel) k zero op enough room =
    let done : ltb (k * 64) ((k + 0) * 64) ≡ false = ground arith in rw done refl
cache_op_range-touch (suc fuel) k (suc n) op enough room =
    let more : ltb (k * 64) ((k + suc n) * 64) ≡ true = ground arith in
    let next : (k * 64 + 64) % 2 ^ 64 ≡ suc k * 64 = omega arith in
    let end : (k + suc n) * 64 ≡ (suc k + n) * 64 = omega arith in
    rw (more, next, end, cache_op_range-touch fuel (suc k) n op (omega arith) (omega arith)) refl

-- The lines that hold a byte of the range.
abbrev pub covering : Op → ℕ → ℕ → List Instruction
covering op addr size = touch op (addr / 64) ((addr + size - 1) / 64 + 1 - addr / 64)

op_range-covering :
    (addr size : ℕ) (op : Op) (barriers : List Instruction)
    → 0 < size
    → addr + size + 128 ≤ 2 ^ 64
    → op_range addr size op barriers ≡ some (covering op addr size ++ barriers)
unfolding op_range align_down align_up
op_range-covering addr size op barriers pos room =
    let present : (size == 0) ≡ false = ground arith in
    let last : ((addr + size) % 2 ^ 64 + 63) % 2 ^ 64 / 64 * 64
        ≡ (addr / 64 + ((addr + size - 1) / 64 + 1 - addr / 64)) * 64 =
      omega arith in
    rw
      (
        present,
        last,
        cache_op_range-touch (size / 64 + 3) (addr / 64) ((addr + size - 1) / 64 + 1 - addr / 64) op
            (omega arith) (omega arith),
      )
      refl

-- For a range of at least one byte that ends at least 128 bytes below the top of the address space,
-- each function maintains exactly the 64-byte lines that hold a byte of the range, each once and in
-- ascending order, and then executes its barriers. The fuel is enough.
pub cache_ranges_lem :
    (addr size : ℕ)
    → 0 < size
    → addr + size + 128 ≤ 2 ^ 64
    → (cache_clean_range addr size ≡ some (covering Op.cvac addr size ++ dsb ∷ []))
      × (cache_invalidate_range addr size ≡ some (covering Op.ivac addr size ++ dsb ∷ isb ∷ []))
      × (cache_clean_invalidate_range addr size
          ≡ some (covering Op.civac addr size ++ dsb ∷ isb ∷ []))
unfolding cache_clean_range cache_invalidate_range cache_clean_invalidate_range
cache_ranges_lem addr size pos room = (
  op_range-covering addr size Op.cvac _ pos room,
  op_range-covering addr size Op.ivac _ pos room,
  op_range-covering addr size Op.civac _ pos room,
)
