-- ===== src/Virtio/Ready.antt =====
-- What virtio_net_init_device in bsp/virtio_net.c leaves when it succeeds, and how it talks to the device.
use ucosii_arm64_qemu.Prelude.{
  ℕ, zero, suc, ◌%◌, ◌≤◌, ◌<◌, ◌≡◌, ◌∙◌, refl, none, some, List, ◌==◌, u32, replicate, length,
  length-set, arith, Bool-cases, inl, inr, ◌⊎◌, ◌↔◌,
}
use ucosii_arm64_qemu.Mmio.{Bank, Log, Host, mmio_read32, mmio_write32}
use ucosii_arm64_qemu.Virtio.Rx.{RxQueue}
use ucosii_arm64_qemu.Virtio.Tx.{Desc, TxQueue, no_desc}
use ucosii_arm64_qemu.Virtio.Receive.{IsQueue}
use ucosii_arm64_qemu.Virtio.Send.{IsTxQueue}
use ucosii_arm64_qemu.Virtio.Device.{
  Device, Layout, clamp_queue, virtio_net_configure_queue, clear_desc, fill_ring, clear_buffers,
  virtio_net_prepare_rx, virtio_net_prepare_tx,
}

pub clamp_queue_lem :
    (n : ℕ) → (clamp_queue n ≤ 256) × (clamp_queue n ≤ n) × ((clamp_queue n ≡ 0) ↔ (n % 65536 ≡ 0))
unfolding clamp_queue
clamp_queue_lem n = (ground arith, ground arith, (λ e. ground arith, λ e. ground arith))

-- The configuration fails exactly if the device reports the size 0. Otherwise it gives a size of at
-- most 256 and at most what the device reports, and the size is 0, with which nothing can be queued,
-- exactly if the device reports a multiple of 65536.
pub virtio_net_configure_queue_size :
    (host : Host) (base queue : ℕ) (at : Layout) (log : Log)
    → let reported =
        (mmio_read32 host (Bank.virtio base) 52 (mmio_write32 (Bank.virtio base) 48 queue log)).0 in
      let size = (virtio_net_configure_queue host base queue at log).0 in
      ((size ≡ none) × (reported ≡ 0))
      ⊎ ((n : ℕ) × (size ≡ some n)
          × (0 < reported)
          × (n ≤ 256)
          × (n ≤ reported)
          × ((n ≡ 0) ↔ (reported % 65536 ≡ 0)))
unfolding virtio_net_configure_queue
virtio_net_configure_queue_size host base queue at log =
    let reported =
      u32 (host (mmio_write32 (Bank.virtio base) 48 queue log) (Bank.virtio base) 52) in
    elim (Bool-cases (reported == 0)) [
      | inl nothing ↦ inl (rw nothing refl, ground arith)
      | inr more ↦
          let (small, within, zero_iff) = clamp_queue_lem reported in
          inr (clamp_queue reported, rw more refl, ground arith, small, within, zero_iff)
    ]

pub fill_ring-length : (n : ℕ) (ring : List ℕ) → length (fill_ring n ring) ≡ length ring
unfolding fill_ring
fill_ring-length zero ring = refl
fill_ring-length (suc n) ring = length-set (fill_ring n ring) n n ∙ fill_ring-length n ring

pub clear_desc-length : (n : ℕ) (desc : List Desc) → length (clear_desc n desc) ≡ length desc
unfolding clear_desc
clear_desc-length zero desc = refl
clear_desc-length (suc n) desc = length-set (clear_desc n desc) n no_desc ∙ clear_desc-length n desc

clear_buffers-length :
    (n : ℕ) (buffers : List (List ℕ)) → length (clear_buffers n buffers) ≡ length buffers
unfolding clear_buffers
clear_buffers-length zero buffers = refl
clear_buffers-length (suc n) buffers =
    length-set (clear_buffers n buffers) n (replicate 2048 0) ∙ clear_buffers-length n buffers

-- The static arrays of a device have 256 entries, and nothing waits for a notification.
pub record HasRows (dev : Device) : Type 0 where
  pub completions : length dev.rx.completions ≡ 256
  pub descs : length dev.tx.desc ≡ 256
  pub storage : length dev.tx.buffers ≡ 256
  pub no_batch : dev.tx.batch_count ≡ 0

pub prepare_rx-IsQueue :
    (rx : RxQueue)
    → 0 < rx.queue_size
    → rx.queue_size ≤ 256
    → length rx.completions ≡ 256
    → length rx.avail.ring ≡ 256
    → IsQueue (virtio_net_prepare_rx rx)
unfolding virtio_net_prepare_rx
prepare_rx-IsQueue rx p m c r = record {
  size_pos = p;
  size_max = m;
  storage = omega arith;
  head_in = p;
  tail_at = ground arith;
  count_in = omega arith;
  last_used_in = omega arith;
  avail_in = omega arith;
  avail_ring = fill_ring-length rx.queue_size rx.avail.ring ∙ r;
}

pub prepare_tx-IsTxQueue :
    (tx : TxQueue)
    → 0 < tx.queue_size
    → tx.queue_size ≤ 256
    → length tx.desc ≡ 256
    → length tx.buffers ≡ 256
    → length tx.avail.ring ≡ 256
    → tx.batch_count ≡ 0
    → IsTxQueue (virtio_net_prepare_tx tx)
unfolding virtio_net_prepare_tx
prepare_tx-IsTxQueue tx p m d b r n = record {
  size_pos = p;
  size_max = m;
  descs = clear_desc-length tx.queue_size tx.desc ∙ d;
  ring = r;
  storage = clear_buffers-length tx.queue_size tx.buffers ∙ b;
  idx_in = omega arith;
  last_in = omega arith;
  in_flight = omega arith;
  batch = omega arith;
}
