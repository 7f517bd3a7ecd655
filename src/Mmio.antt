-- ===== src/Mmio.antt =====
-- Device registers (bsp/mmio.h): every access is logged, newest first, and a read answers what the
-- devices say after the accesses so far.
use ucosii_arm64_qemu.Prelude.{ℕ, u32, List, ◌∷◌}

-- The blocks of registers: a VirtIO transport by its base, the GIC's distributor and redistributor.
pub data Bank : Type 0 where
  virtio : ℕ → Bank
  gicd : Bank
  gicr : Bank

pub data Access : Type 0 where
  read32 : Bank → ℕ → Access
  write32 : Bank → ℕ → ℕ → Access
  write8 : Bank → ℕ → ℕ → Access

abbrev pub Log : Type 0
Log = List Access

-- The devices: what a register holds after a sequence of accesses.
abbrev pub Host : Type 0
Host = Log → Bank → ℕ → ℕ

abbrev pub mmio_read32 : Host → Bank → ℕ → Log → ℕ × Log
mmio_read32 host bank offset log = (u32 (host log bank offset), Access.read32 bank offset ∷ log)

abbrev pub mmio_write32 : Bank → ℕ → ℕ → Log → Log
mmio_write32 bank offset value log = Access.write32 bank offset value ∷ log

abbrev pub mmio_write8 : Bank → ℕ → ℕ → Log → Log
mmio_write8 bank offset value log = Access.write8 bank offset value ∷ log
