-- ===== src/Irq/Gic.antt =====
-- gic_init of bsp/gic.c: the distributor, the timer's interrupt in the redistributor, and the processor's
-- interface to the GIC. What ICC_SRE_EL1 reads is an argument; the console and the barriers are left out.
use ucosii_arm64_qemu.Prelude.{
  ℕ, ◌+◌, ◌-◌, ◌*◌, ◌/◌, ◌%◌, ◌^◌, Bool, true, List, ◌∷◌, ◌==◌, not, if◌then◌else◌, bit_and, bit_or,
}
use ucosii_arm64_qemu.Mmio.{Bank, Log, Host, mmio_read32, mmio_write32}

-- A write to one of the processor's interface registers.
pub data CpuWrite : Type 0 where
  icc_sre : ℕ → CpuWrite
  icc_pmr : ℕ → CpuWrite
  icc_bpr1 : ℕ → CpuWrite
  icc_ctlr : ℕ → CpuWrite
  icc_grpen1 : ℕ → CpuWrite

-- `sre` is what the first and the second read of ICC_SRE_EL1 give. Writes are newest first.
unfoldable pub gic_enable_sre : ℕ × ℕ → List CpuWrite → Bool × List CpuWrite
gic_enable_sre (before, behind) writes =
    if not (bit_and before 1 == 0)
    then (true, writes)
    else (not (bit_and behind 1 == 0), CpuWrite.icc_sre (bit_or before 1) ∷ writes)

unfoldable pub gic_cpu_sys_reg_init : ℕ × ℕ → List CpuWrite → List CpuWrite
unfolding gic_enable_sre
gic_cpu_sys_reg_init sre writes =
    let (enabled, w) = gic_enable_sre sre writes in
    if enabled
    then CpuWrite.icc_grpen1 1
      ∷ CpuWrite.icc_ctlr 0
      ∷ CpuWrite.icc_bpr1 0
      ∷ CpuWrite.icc_pmr 240
      ∷ w
    else w

-- The offsets of the redistributor's SGI frame are behind its own 64 kilobytes.
unfoldable pub gic_init : Host → ℕ × ℕ → Log → List CpuWrite → Log × List CpuWrite
unfolding gic_cpu_sys_reg_init
gic_init host sre log writes =
    let timer_id : ℕ = 27 in
    let on = mmio_write32 Bank.gicd 0 55 (mmio_write32 Bank.gicd 0 0 log) in
    let grouped = mmio_write32 Bank.gicr (65536 + 128) (2 ^ 32 - 1) on in
    let priority_reg = 65536 + 1024 + timer_id / 4 * 4 in
    let shift = timer_id % 4 * 8 in
    let (old, log1) = mmio_read32 host Bank.gicr priority_reg grouped in
    let priority = bit_or (bit_and old (2 ^ 32 - 1 - 255 * 2 ^ shift)) (128 * 2 ^ shift) in
    let enabled =
      mmio_write32 Bank.gicr (65536 + 256) (2 ^ timer_id)
        (mmio_write32 Bank.gicr priority_reg priority log1) in
    let cfg_reg = 65536 + 3072 + 4 in
    let (cfg, log2) = mmio_read32 host Bank.gicr cfg_reg enabled in
    (
      mmio_write32 Bank.gicr cfg_reg (bit_or cfg (2 * 2 ^ ((timer_id - 16) * 2))) log2,
      gic_cpu_sys_reg_init sre writes,
    )
