-- ===== src/Virtio/Single.antt =====
-- The functions of bsp/virtio_net.c for a program with one device: they use `g_dev`, or set it. The
-- console is left out.
use ucosii_arm64_qemu.Prelude.{
  ℕ, ◌<◌, ◌≡◌, ◌⊎◌, refl, subst, Bool, true, false, Option, none, some, List, ◌==◌, ◌||◌,
  if◌then◌else◌, arith, set, Option-cases, inl, inr,
}
use ucosii_arm64_qemu.Addr.{Mac}
use ucosii_arm64_qemu.Mmio.{Bank, Log, mmio_read32, mmio_write32}
use ucosii_arm64_qemu.Virtio.Calls.{virtio_net_poll_frame_dev}
use ucosii_arm64_qemu.Virtio.Tx.{virtio_net_send_frame_dev}
use ucosii_arm64_qemu.Virtio.Scan.{virtio_net_scan, virtio_net_scan_cases, candidate, candidate_irq}
use ucosii_arm64_qemu.Virtio.Board.{Board, World, device, virtio_net_init_device, create_global_sem}
use ucosii_arm64_qemu.Virtio.Up.{IsUp}
use ucosii_arm64_qemu.Virtio.Start.{HasTables, init_device_lem}

-- The default device becomes usable, or the call fails.
unfoldable pub adopt : Bool × Board → Bool × Board
adopt (false, b) = (false, b)
adopt (true, b) = (true, record b { device_count = 1; dev = some 0 })

-- Where the scan finds nothing, the arguments serve, with defaults for zeros.
unfoldable pub init_at : World → ℕ → ℕ → Option (ℕ × ℕ) × Log → Board → Bool × Board
unfolding adopt
init_at w base_addr irq (some (base, line), log) b =
    adopt (virtio_net_init_device w 0 base line (record b { log = log }))
init_at w base_addr irq (none, log) b = adopt (
    virtio_net_init_device w 0 (if base_addr == 0 then 167772160 else base_addr)
      (if irq == 0 then 48 else irq) (record b { log = log }))

-- Whether it returned 0.
unfoldable pub virtio_net_init : World → ℕ → ℕ → Board → Bool × Board
unfolding create_global_sem init_at
virtio_net_init w base_addr irq b =
    let b' = create_global_sem w b in init_at w base_addr irq (virtio_net_scan w.host 0 b'.log) b'

-- A frame of the default device; `false` for -1.
unfoldable pub send_on : (ℕ → ℕ) → List ℕ → ℕ → Board → Option ℕ → Bool × Board
send_on used_idx frame length b none = (false, b)
send_on used_idx frame length b (some i) =
    let d = device b i in
    let sent = virtio_net_send_frame_dev used_idx frame length d.tx in
    (
      sent.accepted,
      record b {
        devices = set b.devices i (record d { tx = sent.tx });
        log = if sent.notified then mmio_write32 (Bank.virtio d.base) 80 1 b.log else b.log;
      },
    )

unfoldable pub virtio_net_send_frame : (ℕ → ℕ) → List ℕ → ℕ → Board → Bool × Board
unfolding send_on
virtio_net_send_frame used_idx frame length b = send_on used_idx frame length b b.dev

unfoldable pub virtio_net_poll_frame : Board → Board × Option (ℕ × ℕ)
unfolding virtio_net_poll_frame_dev
virtio_net_poll_frame b = virtio_net_poll_frame_dev b b.dev

unfoldable pub virtio_net_get_mac_dev : Board → Option ℕ → Option Mac
virtio_net_get_mac_dev b none = none
virtio_net_get_mac_dev b (some i) = some (device b i).mac

unfoldable pub virtio_net_get_mac : Board → Option Mac
unfolding virtio_net_get_mac_dev
virtio_net_get_mac b = virtio_net_get_mac_dev b b.dev

-- Both queues' sizes, read behind a write of the queue's number: whether neither is zero.
unfoldable pub test_registers : World → Board → Option ℕ → Bool × Board
test_registers w b none = (false, b)
test_registers w b (some i) =
    let d = device b i in
    let bank = Bank.virtio d.base in
    let (rx_max, log1) = mmio_read32 w.host bank 52 (mmio_write32 bank 48 0 b.log) in
    let (tx_max, log2) = mmio_read32 w.host bank 52 (mmio_write32 bank 48 1 log1) in
    if d.tx.driver_ok
    then (if rx_max == 0 || tx_max == 0 then false else true, record b { log = log2 })
    else (false, b)

unfoldable pub virtio_net_self_test_registers : World → Board → Bool × Board
unfolding test_registers
virtio_net_self_test_registers w b = test_registers w b b.dev

-- How a set-up ends.
abbrev Ready : ℕ → Bool × Board → Type 0
Ready before (ok, b) =
    ((ok ≡ false) × (b.device_count ≡ before))
    ⊎ ((ok ≡ true) × (b.device_count ≡ 1) × (b.dev ≡ some 0) × IsUp b.vectors (device b 0))

adopt-Ready :
    (before : ℕ) (r : Bool × Board)
    → r.1.device_count ≡ before
    → (r.0 ≡ true → IsUp r.1.vectors (device r.1 0))
    → Ready before (adopt r)
unfolding adopt
adopt-Ready before (false, b) counted up = inl (refl, counted)
adopt-Ready before (true, b) counted up = inr (refl, refl, refl, up refl)

init_device-Ready :
    (w : World) (base irq : ℕ) (b : Board) (log : Log)
    → HasTables b 0
    → irq < 256
    → Ready b.device_count (adopt (virtio_net_init_device w 0 base irq (record b { log = log })))
init_device-Ready w base irq b log tables small =
    let (counted, kept, readied) =
      init_device_lem w (record b { log = log }) 0 base irq
        (record { two = tables.two; table = tables.table; rows = tables.rows })
        (λ j before. absurd (omega arith)) (omega arith) small in
    adopt-Ready b.device_count (virtio_net_init_device w 0 base irq (record b { log = log }))
      counted (λ e. (readied e).0)

init_at-Ready :
    (w : World) (base_addr irq : ℕ) (b : Board)
    → HasTables b 0
    → irq < 256
    → Ready b.device_count (init_at w base_addr irq (virtio_net_scan w.host 0 b.log) b)
unfolding init_at
init_at-Ready w base_addr irq b tables small =
    virtio_net_scan_cases (λ r. Ready b.device_count (init_at w base_addr irq r b)) w.host 0 b.log
      (λ log.
        init_device-Ready w (if base_addr == 0 then 167772160 else base_addr)
          (if irq == 0 then 48 else irq) b log tables (ground arith))
      (λ j log below.
        init_device-Ready w (candidate j) (candidate_irq j) b log tables (omega arith))

global_sem_lem :
    (w : World) (b : Board)
    → HasTables b 0
    → HasTables (create_global_sem w b) 0 × ((create_global_sem w b).device_count ≡ b.device_count)
unfolding create_global_sem
global_sem_lem w b tables = elim (Option-cases b.rx_global_sem) [
  | inl absent ↦
      rw absent (record { two = tables.two; table = tables.table; rows = tables.rows }, refl)
  | inr (e, present) ↦
      rw present (record { two = tables.two; table = tables.table; rows = tables.rows }, refl)
]

-- The set-up of a program with one device fails and counts what was counted before, or it leaves device
-- 0 as the one counted and default device, ready for use: DRIVER_OK is set, its queues got the size 0 or
-- are well formed, and its interrupt has the driver's handler. At the start the two devices' arrays
-- have their 256 entries, and so has the interrupt table; the interrupt that is given is below 256.
virtio_net_init-IsUp :
    (w : World) (base_addr irq : ℕ) (b : Board)
    → HasTables b 0
    → irq < 256
    → let (ok, b') = virtio_net_init w base_addr irq b in
      ((ok ≡ false) × (b'.device_count ≡ b.device_count))
      ⊎ ((ok ≡ true) × (b'.device_count ≡ 1) × (b'.dev ≡ some 0) × IsUp b'.vectors (device b' 0))
unfolding virtio_net_init
virtio_net_init-IsUp w base_addr irq b tables small =
    let (has, same) = global_sem_lem w b tables in
    subst (λ n. Ready n (virtio_net_init w base_addr irq b)) same
      (init_at-Ready w base_addr irq (create_global_sem w b) has small)
