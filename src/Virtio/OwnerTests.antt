-- ===== src/Virtio/OwnerTests.antt =====
-- A prepared receive queue of bsp/virtio_net.c and the interrupt for its first two frames.
use ucosii_arm64_qemu.Prelude.{
  ℕ, ◌+◌, ◌-◌, ◌≤◌, ◌≡◌, refl, false, some, ◌++◌, ltb, if◌then◌else◌, arith,
}
use ucosii_arm64_qemu.Virtio.Rx.{
  Scan, RxQueue, give_back, scan_used, scan_round, enqueue, virtio_net_handle_rx_used, peek_queue,
  payload_length,
}
use ucosii_arm64_qemu.Virtio.Fifo.{queued, used_completions}
use ucosii_arm64_qemu.Virtio.Device.{virtio_net_prepare_rx}
use ucosii_arm64_qemu.Virtio.Ledger.{Ledger, LedgerStep, Run, uses, device_reports}
use ucosii_arm64_qemu.Virtio.Owner.{
  opened, stands-fill_ring, virtio_net_prepare_rx-Run, virtio_net_peek-Run,
}
use ucosii_arm64_qemu.Virtio.Tests.{one_frame, one_frame-IsQueue}
use ucosii_arm64_qemu.Virtio.BoardTests.{reported, one_frame-completions, reported-Obeys}

abbrev prepared : RxQueue
prepared = virtio_net_prepare_rx one_frame

reports_few : (d : ℕ) → uses d (device_reports reported prepared) ≤ (if ltb d 256 then 1 else 0)
unfolding uses virtio_net_prepare_rx used_completions
reports_few d = ground arith

held : (d : ℕ) → uses d (device_reports reported prepared) ≤ (opened one_frame).with_device d
unfolding virtio_net_prepare_rx
held d =
    rw (stands-fill_ring d 256 256 one_frame.avail.ring (omega arith) (omega arith)) (reports_few d)

-- The queue after the interrupt: both frames wait.
abbrev both : Scan
both =
    scan_round reported
      (scan_round reported (record { rx = prepared; notify_device = false; enqueued = false }))

both_done : virtio_net_handle_rx_used reported prepared ≡ some both
unfolding virtio_net_handle_rx_used scan_used scan_round enqueue give_back virtio_net_prepare_rx
both_done = refl

abbrev first_two : Ledger
first_two = record (opened one_frame) {
  rx = both.rx;
  with_device = λ d. (opened one_frame).with_device d - uses d (device_reports reported prepared);
  arrived = device_reports reported prepared;
}

ran : Run (opened one_frame) first_two
ran = Run.after (LedgerStep.interrupt reported both reported-Obeys both_done held) Run.here

virtio_net_prepare_rx-Run_example :
    ((d : ℕ)
      → first_two.with_device d + uses d (queued first_two.rx) ≡ (if ltb d 256 then 1 else 0))
    × (first_two.taken ++ queued first_two.rx ≡ first_two.arrived)
virtio_net_prepare_rx-Run_example =
    virtio_net_prepare_rx-Run one_frame first_two (omega arith) (omega arith) one_frame-completions
      one_frame-IsQueue.avail_ring ran

peeked : peek_queue both.rx ≡ some (88, 4)
unfolding peek_queue scan_round enqueue virtio_net_prepare_rx payload_length
peeked = refl

virtio_net_peek-Run_example : first_two.with_device 4 ≡ 0
virtio_net_peek-Run_example =
    virtio_net_peek-Run one_frame first_two 88 4 (omega arith) (omega arith) one_frame-completions
      one_frame-IsQueue.avail_ring ran peeked
