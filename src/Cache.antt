-- ===== src/Cache.antt =====
-- The maintenance of the data cache by address ranges, bsp/cache.c. The result is the sequence of
-- instructions that a call executes.
pub mod Lines
mod Tests
use ucosii_arm64_qemu.Prelude.{
  ℕ, zero, suc, ◌+◌, ◌*◌, ◌/◌, ◌%◌, ◌^◌, Option, none, some, List, [], ◌∷◌, ◌++◌, ltb, ◌==◌,
  if◌then◌else◌,
}
use mathlib.Core.Option.{map}

pub data Op : Type 0 where
  cvac : Op
  ivac : Op
  civac : Op

pub data Instruction : Type 0 where
  dc : Op → ℕ → Instruction
  dsb : Instruction
  isb : Instruction

-- Clearing the six low bits of a 64-bit address.
unfoldable pub align_down : ℕ → ℕ
align_down addr = addr / 64 * 64

unfoldable pub align_up : ℕ → ℕ
align_up addr = (addr + 63) % 2 ^ 64 / 64 * 64

-- The loop. `none` if the fuel runs out.
unfoldable pub cache_op_range : ℕ → ℕ → ℕ → Op → Option (List Instruction)
cache_op_range zero addr end op = none
cache_op_range (suc fuel) addr end op =
    let rest = cache_op_range fuel ((addr + 64) % 2 ^ 64) end op in
    if ltb addr end then map (λ l. dc op addr ∷ l) rest else some []

-- A call with `size / 64 + 3` units of fuel, and the barriers after it.
unfoldable pub op_range : ℕ → ℕ → Op → List Instruction → Option (List Instruction)
unfolding align_down align_up
op_range addr size op barriers =
    let ops =
      cache_op_range (size / 64 + 3) (align_down addr) (align_up ((addr + size) % 2 ^ 64)) op in
    if size == 0 then some [] else map (λ l. l ++ barriers) ops

unfoldable pub cache_clean_range : ℕ → ℕ → Option (List Instruction)
cache_clean_range addr size = op_range addr size Op.cvac (dsb ∷ [])

unfoldable pub cache_invalidate_range : ℕ → ℕ → Option (List Instruction)
cache_invalidate_range addr size = op_range addr size Op.ivac (dsb ∷ isb ∷ [])

unfoldable pub cache_clean_invalidate_range : ℕ → ℕ → Option (List Instruction)
cache_clean_invalidate_range addr size = op_range addr size Op.civac (dsb ∷ isb ∷ [])
