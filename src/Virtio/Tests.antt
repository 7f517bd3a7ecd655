-- ===== src/Virtio/Tests.antt =====
-- Queues of bsp/virtio_net.c at work, and each theorem at an input that meets its hypotheses.
use ucosii_arm64_qemu.Prelude.{
  ◌<◌, suc, ℕ, ◌≤◌, ◌≡◌, ◌⊎◌, refl, true, some, [], ◌∷◌, ◌++◌, arith, List, set, replicate, take,
  length-set, length-replicate,
}
use ucosii_arm64_qemu.Virtio.Rx.{
  RxQueue, Used, Scan, no_completion, no_elem, virtio_net_handle_rx_used, peek_queue,
}
use ucosii_arm64_qemu.Virtio.Receive.{IsQueue, virtio_net_handle_rx_used_done}
use ucosii_arm64_qemu.Virtio.Fifo.{queued, used_completions, virtio_net_handle_rx_used_appends}
use ucosii_arm64_qemu.Virtio.Tx.{
  TxQueue, no_desc, free_slots, read_used, find_slots, queue_frame, virtio_net_send_frame_dev,
}
use ucosii_arm64_qemu.Virtio.Slots.{find_slots_done}
use ucosii_arm64_qemu.Virtio.Send.{
  IsTxQueue, Follows, Accepted, virtio_net_send_frame_dev-IsTxQueue, virtio_net_send_accepted,
}

-- A queue with one frame of sixty bytes, which the device wrote to the buffer of descriptor 3.
abbrev pub one_frame : RxQueue
one_frame = record {
  queue_size = 256;
  last_used = 1;
  avail = record { idx = 256; ring = replicate 256 0 };
  completions = set (replicate 256 no_completion) 0 (record { desc_id = 3; total_len = 72 });
  head = 0;
  tail = 1;
  count = 1;
}

pub one_frame-IsQueue : IsQueue one_frame
one_frame-IsQueue = record {
  size_pos = omega arith;
  size_max = omega arith;
  storage = omega (
    arith,
    length-set (replicate 256 no_completion) 0 (record { desc_id = 3; total_len = 72 }),
    length-replicate 256 no_completion,
  );
  head_in = omega arith;
  tail_at = refl;
  count_in = omega arith;
  last_used_in = omega arith;
  avail_in = omega arith;
  avail_ring = length-replicate {A = ℕ} 256 0;
}

-- The device has finished two more.
abbrev pub filled : Used
filled = record {
  idx = 3;
  ring = no_elem ∷ record { id = 4; len = 100 } ∷ record { id = 5; len = 90 } ∷ [];
}

scanned : Scan
scanned = (virtio_net_handle_rx_used_done filled one_frame (omega arith) one_frame-IsQueue).0

scanned_at : virtio_net_handle_rx_used filled one_frame ≡ some scanned
unfolding scanned
scanned_at = (virtio_net_handle_rx_used_done filled one_frame (omega arith) one_frame-IsQueue).1

peeked : peek_queue one_frame ≡ some (60, 3)
unfolding peek_queue
peeked = refl

virtio_net_handle_rx_used_appends_example :
    queued scanned.rx ≡ queued one_frame ++ take 255 (used_completions filled 256 1 2)
virtio_net_handle_rx_used_appends_example =
    virtio_net_handle_rx_used_appends filled one_frame scanned (omega arith) one_frame-IsQueue
      scanned_at

-- A transmit queue with fifteen frames that wait for a notification; the device has taken all but one.
abbrev pub waiting : TxQueue
waiting = record {
  driver_ok = true;
  queue_size = 256;
  last_used = 0;
  desc = replicate 256 no_desc;
  avail = record { idx = 15; ring = replicate 256 0 };
  buffers = replicate 256 [];
  batch_count = 15;
}

pub waiting-IsTxQueue : IsTxQueue waiting
waiting-IsTxQueue = record {
  size_pos = omega arith;
  size_max = omega arith;
  descs = length-replicate 256 no_desc;
  ring = length-replicate {A = ℕ} 256 0;
  storage = length-replicate {A = List ℕ} 256 [];
  idx_in = omega arith;
  last_in = omega arith;
  in_flight = omega arith;
  batch = omega arith;
}

abbrev device : ℕ → ℕ
device n = 14

follows : Follows device waiting
follows n = (omega arith, omega arith)

find_slots_done_example :
    let w = find_slots device waiting in
    (w.slots ≡ free_slots 256 15 w.last_used)
    × ((k : ℕ) × (w.reads ≡ suc k) × (w.last_used ≡ 14))
    × (w.retries < w.reads)
    × ((4 ≤ w.slots) ⊎ (w.retries ≡ 100))
find_slots_done_example = find_slots_done device waiting

virtio_net_send_frame_dev-IsTxQueue_example :
    IsTxQueue (virtio_net_send_frame_dev device (1 ∷ 2 ∷ 3 ∷ []) 3 waiting).tx
virtio_net_send_frame_dev-IsTxQueue_example =
    virtio_net_send_frame_dev-IsTxQueue device (1 ∷ 2 ∷ 3 ∷ []) 3 waiting follows waiting-IsTxQueue

accepted_here : (virtio_net_send_frame_dev device (1 ∷ 2 ∷ 3 ∷ []) 3 waiting).accepted ≡ true
unfolding virtio_net_send_frame_dev find_slots read_used free_slots queue_frame
accepted_here = refl

virtio_net_send_accepted_example :
    Accepted
      (1 ∷ 2 ∷ 3 ∷ [])
      3
      waiting
      (virtio_net_send_frame_dev device (1 ∷ 2 ∷ 3 ∷ []) 3 waiting)
virtio_net_send_accepted_example =
    virtio_net_send_accepted device (1 ∷ 2 ∷ 3 ∷ []) 3 waiting waiting-IsTxQueue accepted_here
