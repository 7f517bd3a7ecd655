-- ===== src/Virtio/PollTests.antt =====
-- A wait with a timeout on a board without a semaphore.
use ucosii_arm64_qemu.Prelude.{ℕ, ◌≡◌, ◌⊎◌, none, ◌+◌, refl, arith, some, u32}
use ucosii_arm64_qemu.Sem.{event_at}
use ucosii_arm64_qemu.Virtio.Board.{device}
use ucosii_arm64_qemu.Virtio.Wait.{Clock, virtio_net_has_pending_rx_dev, virtio_net_wait_rx_dev}
use ucosii_arm64_qemu.Virtio.Poll.{Ticks, Ends, Pends, virtio_net_wait_rx_dev-Ends}
use ucosii_arm64_qemu.Virtio.BoardTests.{board, world, fresh}

-- The clock stands in a field of the kernel's state, and each delay takes exactly its ticks.
abbrev pub clock : Clock
clock = record {
  time_get = λ b. u32 b.os.tcb_dly;
  time_dly = λ n b. record b { os = record (b.os) { tcb_dly = b.os.tcb_dly + n } };
  meanwhile = λ b. b;
}

clock-Ticks : Ticks clock
clock-Ticks = record {
  word = λ b. omega arith;
  passes = λ b. (1, omega arith, omega arith, omega arith);
}

no_semaphore :
    (sem : ℕ)
    → (device (board fresh) 0).rx_sem ≡ some sem
    → (event_at (board fresh).os sem).event_type ≡ 3
no_semaphore sem e = absurd (cc)

virtio_net_wait_rx_dev-Ends_example :
    let result = virtio_net_wait_rx_dev 4 world clock (some 0) 3 (board fresh) in
    (((device (board fresh) 0).rx_sem ≡ none)
      × Ends clock (virtio_net_has_pending_rx_dev 0) 0 3 3 (board fresh) result)
    ⊎ ((sem : ℕ) × ((device (board fresh) 0).rx_sem ≡ some sem)
        × Pends world clock sem 3 (board fresh) result)
virtio_net_wait_rx_dev-Ends_example =
    virtio_net_wait_rx_dev-Ends 4 world clock 0 3 (board fresh) clock-Ticks no_semaphore refl
      (omega arith) (omega arith) (omega arith)
