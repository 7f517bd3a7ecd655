-- ===== src/Virtio/Interrupt.antt =====
-- The interrupt side of bsp/virtio_net.c: the handler, and the functions that look at the board's
-- queues. `used` and `tx_used` are what the devices wrote: the receive queues' used rings and the
-- indices of the transmit queues'. The handler is atomic: interrupts are masked while it
-- runs. A device with DRIVER_OK has its queues, so the test of `tx_queue` is left out.
use ucosii_arm64_qemu.Prelude.{
  ℕ, zero, suc, Bool, true, false, Option, none, some, leb, ◌==◌, if◌then◌else◌, not, bit_and, set,
  find_index,
}
use ucosii_arm64_qemu.Mmio.{Bank, mmio_read32, mmio_write32}
use ucosii_arm64_qemu.Sem.{Os, os_sem_post}
use ucosii_arm64_qemu.Virtio.Rx.{Scan, Used, virtio_net_handle_rx_used, queue_pending}
use ucosii_arm64_qemu.Virtio.Tx.{virtio_net_tx_flush_dev}
use ucosii_arm64_qemu.Virtio.Device.{Device}
use ucosii_arm64_qemu.Virtio.Board.{Board, World, device}

-- A semaphore that was not created is not posted.
unfoldable pub post : World → Option ℕ → Os → Os
post w none os = os
post w (some e) os = (os_sem_post w.kernel (some e) os).0

-- The end of virtio_net_handle_rx_used, and the acknowledgement.
unfoldable pub handled : World → ℕ → ℕ → ℕ → Device → Board → Option Scan → Option Board
unfolding post
handled w i tx_idx status d b none = none
handled w i tx_idx status d b (some s) =
    let noted = if s.notify_device then mmio_write32 (Bank.virtio d.base) 80 0 b.log else b.log in
    some (record b {
      devices = set b.devices i (record d { rx = s.rx; tx = record (d.tx) { last_used = tx_idx } });
      os = if s.enqueued then post w b.rx_global_sem (post w d.rx_sem b.os) else b.os;
      log = mmio_write32 (Bank.virtio d.base) 100 status noted;
    })

-- The interrupt of device `i`. `none` if the scan's fuel runs out.
unfoldable pub handle_device : World → (ℕ → Used) → (ℕ → ℕ) → Board → Option ℕ → Option Board
unfolding handled
handle_device w used tx_used b none = some b
handle_device w used tx_used b (some i) =
    let d = device b i in
    let (status, log1) = mmio_read32 w.host (Bank.virtio d.base) 96 b.log in
    if not d.tx.driver_ok
    then some b
    else if bit_and status 1 == 0
    then some (record b { log = mmio_write32 (Bank.virtio d.base) 100 status log1 })
    else handled w i (tx_used i) status d (record b { log = log1 })
        (virtio_net_handle_rx_used (used i) d.rx)

unfoldable pub virtio_net_interrupt_handler :
    World → (ℕ → Used) → (ℕ → ℕ) → ℕ → Board → Option Board
unfolding handle_device
virtio_net_interrupt_handler w used tx_used int_id b =
    handle_device w used tx_used b (find_index (λ d. d.irq == int_id) b.devices)

-- The loop over the counted devices, from the `i`-th on.
unfoldable pub any_pending : ℕ → ℕ → Board → Bool
any_pending zero i b = false
any_pending (suc n) i b =
    let rest = any_pending n (suc i) b in if queue_pending (device b i).rx then true else rest

unfoldable pub virtio_net_has_pending_rx : Board → Bool
virtio_net_has_pending_rx b = any_pending b.device_count 0 b

unfoldable pub tx_flush_dev : ℕ → Board → Board
tx_flush_dev dev_idx b =
    let d = device b dev_idx in
    let (tx, notified) = virtio_net_tx_flush_dev d.tx in
    if leb b.device_count dev_idx then b else record b {
      devices = set b.devices dev_idx (record d { tx = tx });
      log = if notified then mmio_write32 (Bank.virtio d.base) 80 1 b.log else b.log;
    }

unfoldable pub virtio_net_rx_flush_dev : ℕ → Board → Board
virtio_net_rx_flush_dev dev_idx b =
    if leb 2 dev_idx
    then b
    else record b { log = mmio_write32 (Bank.virtio (device b dev_idx).base) 80 0 b.log }
