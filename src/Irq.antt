-- ===== src/Irq.antt =====
-- Interrupt dispatch: src/irq.c, bsp/bsp_int.c, and the distributor writes of bsp/gic.c. What
-- gic_acknowledge reads is an argument; the console is left out.
pub mod Dispatch
pub mod Gic
mod Tests
use ucosii_arm64_qemu.Prelude.{
  ℕ, ◌+◌, ◌-◌, ◌*◌, ◌/◌, ◌%◌, ◌^◌, Option, none, some, List, ltb, leb, if◌then◌else◌, get_or, set,
  u32, bit_and, bit_or,
}
use ucosii_arm64_qemu.Mmio.{Bank, Log, Host, mmio_read32, mmio_write32, mmio_write8}

-- `bsp_int_vect_tbl`: handlers of any type, 256 of them.
unfoldable pub bsp_int_vect_set {ℓ} : {F : Type ℓ} → ℕ → F → List (Option F) → List (Option F)
bsp_int_vect_set int_id int_fnct table =
    if ltb int_id 256 then set table int_id (some int_fnct) else table

-- `run` calls a handler; the table's state and the handlers' are apart.
unfoldable pub bsp_int_handler {ℓ κ} :
    {F : Type ℓ} {S : Type κ} → (F → ℕ → S → S) → List (Option F) → ℕ → S → S
bsp_int_handler run table int_id s =
    if ltb int_id 256
    then elim (get_or table int_id none) [ none ↦ s | some f ↦ run f int_id s ]
    else s

-- The state after the handler, and what gic_end_interrupt is called with, if it is.
unfoldable pub irq_dispatch {ℓ κ} :
    {F : Type ℓ} {S : Type κ} → (F → ℕ → S → S) → List (Option F) → ℕ → S → S × Option ℕ
irq_dispatch run table raw_id s =
    let int_id = bit_and raw_id 1023 in
    if leb 1020 int_id then (s, none) else (bsp_int_handler run table int_id s, some raw_id)

-- Enable, priority, route and group of a shared interrupt. An identifier below 32 is refused.
unfoldable pub gic_enable_spi_interrupt : Host → ℕ → Log → Log
gic_enable_spi_interrupt host int_id log =
    let word = int_id / 32 * 4 in
    let bit = 2 ^ (int_id % 32) in
    let enabled = mmio_write32 Bank.gicd (256 + word) bit log in
    let ranked = mmio_write8 Bank.gicd (1024 + int_id) 128 enabled in
    let low = mmio_write32 Bank.gicd (24576 + (int_id - 32) * 8) 0 ranked in
    let routed = mmio_write32 Bank.gicd (24576 + (int_id - 32) * 8 + 4) 0 low in
    let (group, read) = mmio_read32 host Bank.gicd (128 + word) routed in
    if ltb int_id 32 then log else mmio_write32 Bank.gicd (128 + word) (bit_or group bit) read

unfoldable pub bsp_int_src_en : Host → ℕ → Log → Log
bsp_int_src_en host int_id log =
    if leb 32 int_id then gic_enable_spi_interrupt host int_id log else log
