-- ===== src/Virtio/Device.antt =====
-- The set-up of a device's queues in bsp/virtio_net.c. The zeroing of the used rings is left out:
-- from then on the device writes them.
use ucosii_arm64_qemu.Prelude.{
  ℕ, zero, suc, ◌+◌, ◌%◌, ◌/◌, ◌^◌, Bool, true, false, Option, none, some, List, ltb, leb, ◌==◌,
  if◌then◌else◌, ◌||◌, u16, u32, bit_and, set, replicate,
}
use ucosii_arm64_qemu.Addr.{Mac, zero_mac}
use ucosii_arm64_qemu.Mmio.{Bank, Log, Host, mmio_read32, mmio_write32}
use ucosii_arm64_qemu.Virtio.Rx.{Avail, RxQueue}
use ucosii_arm64_qemu.Virtio.Tx.{Desc, TxQueue, no_desc}

-- `struct virtio_net_device` with the rows of the static arrays that belong to it.
pub record Device : Type 0 where
  pub base : ℕ
  pub irq : ℕ
  pub mac : Mac
  pub rx_sem : Option ℕ
  pub rx_desc : List Desc
  pub rx : RxQueue
  pub tx : TxQueue

-- The memory of a queue: where its descriptors and rings are.
pub record Layout : Type 0 where
  pub desc_addr : ℕ
  pub avail_addr : ℕ
  pub used_addr : ℕ

-- `queue_size`: the low sixteen bits of what the device reports, at most 256.
unfoldable pub clamp_queue : ℕ → ℕ
clamp_queue queue_max =
    let queue_size = u16 queue_max in if ltb 256 queue_size then 256 else queue_size

-- The registers of a queue. The result is the queue size, or `none` for -1.
unfoldable pub virtio_net_configure_queue : Host → ℕ → ℕ → Layout → Log → Option ℕ × Log
unfolding clamp_queue
virtio_net_configure_queue host base queue_index at log =
    let dev = Bank.virtio base in
    let selected = mmio_write32 dev 48 queue_index log in
    let (queue_max, read) = mmio_read32 host dev 52 selected in
    let queue_size = clamp_queue queue_max in
    let sized = mmio_write32 dev 56 queue_size read in
    let d =
      mmio_write32 dev 132 (u32 (at.desc_addr / 2 ^ 32))
        (mmio_write32 dev 128 (u32 at.desc_addr) sized) in
    let a =
      mmio_write32 dev 148 (u32 (at.avail_addr / 2 ^ 32))
        (mmio_write32 dev 144 (u32 at.avail_addr) d) in
    let u =
      mmio_write32 dev 164 (u32 (at.used_addr / 2 ^ 32))
        (mmio_write32 dev 160 (u32 at.used_addr) a) in
    if queue_max == 0 then (none, read) else (some queue_size, mmio_write32 dev 68 1 u)

-- What the configuration leaves in memory: an empty available ring, and zero descriptors.
abbrev pub zero_avail : Avail
zero_avail = record { idx = 0; ring = replicate 256 0 }

unfoldable pub clear_desc : ℕ → List Desc → List Desc
clear_desc zero desc = desc
clear_desc (suc n) desc = set (clear_desc n desc) n no_desc

-- The loops of virtio_net_prepare_rx and virtio_net_prepare_tx, up to `n`.
unfoldable pub fill_ring : ℕ → List ℕ → List ℕ
fill_ring zero ring = ring
fill_ring (suc n) ring = set (fill_ring n ring) n n

unfoldable pub fill_desc : ℕ → List Desc → List Desc
fill_desc zero desc = desc
fill_desc (suc n) desc =
    set (fill_desc n desc) n (record { buffer = n; len = 2048; flags = 2; next = 0 })

unfoldable pub clear_buffers : ℕ → List (List ℕ) → List (List ℕ)
clear_buffers zero buffers = buffers
clear_buffers (suc n) buffers = set (clear_buffers n buffers) n (replicate 2048 0)

unfoldable pub virtio_net_prepare_rx : RxQueue → RxQueue
unfolding fill_ring
virtio_net_prepare_rx rx = record rx {
  avail = record { idx = rx.queue_size; ring = fill_ring rx.queue_size rx.avail.ring };
  last_used = 0;
  head = 0;
  tail = 0;
  count = 0;
}

unfoldable pub virtio_net_prepare_tx : TxQueue → TxQueue
unfolding clear_desc clear_buffers
virtio_net_prepare_tx tx = record tx {
  buffers = clear_buffers tx.queue_size tx.buffers;
  desc = clear_desc tx.queue_size tx.desc;
  avail = record (tx.avail) { idx = 0 };
  last_used = 0;
}

-- `util_memset(dev, 0, sizeof(*dev))`, and the fields set before the device is touched.
unfoldable pub reset_device : ℕ → ℕ → Option ℕ → Device → Device
reset_device base irq rx_sem dev = record dev {
  base = base;
  irq = irq;
  mac = zero_mac;
  rx_sem = rx_sem;
  rx = record (dev.rx) { queue_size = 0; last_used = 0 };
  tx = record (dev.tx) { driver_ok = false; queue_size = 0; last_used = 0; batch_count = 0 };
}

-- The magic number, the version and the device ID.
unfoldable pub identify : Host → ℕ → Log → Bool × Log
identify host base log =
    let dev = Bank.virtio base in
    let (magic, log1) = mmio_read32 host dev 0 log in
    let (version, log2) = mmio_read32 host dev 4 log1 in
    let log3 = if leb version 1 then mmio_write32 dev 40 4096 log2 else log2 in
    let (device_id, log4) = mmio_read32 host dev 8 log3 in
    let (vendor_id, log5) = mmio_read32 host dev 12 log4 in
    if magic == 1953655158 then (device_id == 1 || device_id == 0, log5) else (false, log1)

-- From the reset of the device status to FEATURES_OK. A feature is accepted if it is offered: bit 5
-- of the low word (MAC address) and bit 0 of the high word (version 1).
unfoldable pub negotiate : Host → ℕ → Log → Log
negotiate host base log =
    let dev = Bank.virtio base in
    let (s1, log1) =
      mmio_read32 host dev 112 (mmio_write32 dev 112 1 (mmio_write32 dev 112 0 log)) in
    let (s2, log2) = mmio_read32 host dev 112 (mmio_write32 dev 112 3 log1) in
    let (features_lo, log3) = mmio_read32 host dev 16 (mmio_write32 dev 20 0 log2) in
    let (features_hi, log4) = mmio_read32 host dev 16 (mmio_write32 dev 20 1 log3) in
    let driver_features_lo = if bit_and features_lo 32 == 0 then 0 else 32 in
    let driver_features_hi = if bit_and features_hi 1 == 0 then 0 else 1 in
    let log5 = mmio_write32 dev 32 driver_features_lo (mmio_write32 dev 36 0 log4) in
    let log6 = mmio_write32 dev 32 driver_features_hi (mmio_write32 dev 36 1 log5) in
    let (s3, log7) = mmio_read32 host dev 112 (mmio_write32 dev 112 11 log6) in log7

-- `config->mac[i]`: six byte reads of the configuration space.
unfoldable pub read_mac : Host → ℕ → Log → Mac
read_mac host base log =
    let byte = λ (i : ℕ). host log (Bank.virtio base) (256 + i) % 256 in
    record { m0 = byte 0; m1 = byte 1; m2 = byte 2; m3 = byte 3; m4 = byte 4; m5 = byte 5 }

-- Both queues and DRIVER_OK. On a queue that cannot be configured the rest is skipped.
unfoldable pub start_rx : Host → Layout → Device → Log → Option Device × Log
unfolding virtio_net_prepare_rx fill_desc
start_rx host at dev log =
    let (size, log1) = virtio_net_configure_queue host dev.base 0 at log in
    elim size [
      | none ↦ (none, log1)
      | some n ↦ (
        some (record dev {
          rx_desc = fill_desc n (clear_desc n dev.rx_desc);
          rx = virtio_net_prepare_rx (record (dev.rx) { queue_size = n; avail = zero_avail });
        }),
        mmio_write32 (Bank.virtio dev.base) 80 0 log1,
      )
    ]

unfoldable pub start_tx : Host → Layout → Device → Log → Option Device × Log
unfolding virtio_net_prepare_tx clear_desc
start_tx host at dev log =
    let (size, log1) = virtio_net_configure_queue host dev.base 1 at log in
    elim size [
      | none ↦ (none, log1)
      | some n ↦ (
        some (record dev {
          tx = virtio_net_prepare_tx (record (dev.tx) {
            queue_size = n;
            avail = zero_avail;
            desc = clear_desc n dev.tx.desc;
          });
        }),
        log1,
      )
    ]

-- DRIVER_OK, and the queue sizes that are printed.
unfoldable pub finish : Host → ℕ → Log → Log
finish host base log =
    let dev = Bank.virtio base in
    let (status, log1) = mmio_read32 host dev 112 (mmio_write32 dev 112 15 log) in
    let (rx_max, log2) = mmio_read32 host dev 52 (mmio_write32 dev 48 0 log1) in
    let (tx_max, log3) = mmio_read32 host dev 52 (mmio_write32 dev 48 1 log2) in log3

-- What follows the two queues' configuration. What was set before a failure stays set.
unfoldable pub after_tx : Host → Device → Option Device × Log → Device × Bool × Log
unfolding finish
after_tx host dev (none, log) = (dev, false, log)
after_tx host dev (some dev', log) =
    (record dev' { tx = record (dev'.tx) { driver_ok = true } }, true, finish host dev'.base log)

unfoldable pub after_rx : Host → Layout → Device → Option Device × Log → Device × Bool × Log
after_rx host at dev (none, log) = (dev, false, log)
after_rx host at dev (some dev', log) = after_tx host dev' (start_tx host at dev' log)

-- virtio_net_init_device between the reset of the structure and the interrupt's registration: the
-- device, whether it came up, and the accesses.
unfoldable pub bring_up : Host → (ℕ → Layout) → Device → Log → Device × Bool × Log
bring_up host at dev log =
    let (known, log1) = identify host dev.base log in
    let log2 = negotiate host dev.base log1 in
    let dev1 = record dev { mac = read_mac host dev.base log2 } in
    if known then after_rx host (at 1) dev1 (start_rx host (at 0) dev1 log2) else (dev, false, log1)
