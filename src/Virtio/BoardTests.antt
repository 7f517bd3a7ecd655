-- ===== src/Virtio/BoardTests.antt =====
-- Two devices from their set-up to an interrupt, and each theorem at an input that meets its
-- hypotheses.
use ucosii_arm64_qemu.Prelude.{
  ℕ, zero, suc, ◌+◌, ◌≤◌, ◌<◌, ◌≡◌, ◌⊎◌, ◌↔◌, refl, true, false, some, none, Option, [], ◌∷◌, arith,
  replicate, ◌==◌, if◌then◌else◌, u16, sub16, length, length-replicate, length-set, ◌∙◌, get_or,
  find_index, inr,
}
use ucosii_arm64_qemu.Mmio.{Host}
use ucosii_arm64_qemu.Virtio.Rx.{
  Used, Scan, no_completion, no_elem, payload_length, head_entry, virtio_net_handle_rx_used,
}
use ucosii_arm64_qemu.Virtio.Receive.{IsQueue, virtio_net_handle_rx_used_done}
use ucosii_arm64_qemu.Virtio.Send.{IsTxQueue}
use ucosii_arm64_qemu.Virtio.Device.{
  Device, Layout, bring_up, virtio_net_configure_queue, virtio_net_prepare_rx,
}
use ucosii_arm64_qemu.Virtio.Ready.{HasRows, prepare_rx-IsQueue, virtio_net_configure_queue_size}
use ucosii_arm64_qemu.Virtio.Marks.{marks, negotiated}
use ucosii_arm64_qemu.Virtio.BringUp.{bring_up-marks}
use ucosii_arm64_qemu.Virtio.Scan.{
  virtio_net_scan, virtio_net_scan-nth, network_devices, answers, nth,
}
use ucosii_arm64_qemu.Virtio.Board.{Handler, Board, World, device, no_device, virtio_net_init_all}
use ucosii_arm64_qemu.Virtio.Up.{IsUp}
use ucosii_arm64_qemu.Virtio.Start.{HasTables, virtio_net_init_all-IsUp}
use ucosii_arm64_qemu.Virtio.Interrupt.{virtio_net_interrupt_handler}
use ucosii_arm64_qemu.Virtio.Served.{IsRunning, Wrote, Served, virtio_net_interrupt_handler_done}
use ucosii_arm64_qemu.Virtio.Calls.{virtio_net_peek_rx_buffer_dev}
use ucosii_arm64_qemu.Virtio.Conserve.{Obeys, QueueStep, Reaches, virtio_net_prepare_rx_conserved}
use ucosii_arm64_qemu.Virtio.Tests.{
  one_frame, one_frame-IsQueue, filled, waiting, waiting-IsTxQueue,
}

-- Every transport is a network device with queues of 256, and every interrupt reports used buffers.
abbrev answer : ℕ → ℕ
answer offset =
    if offset == 0
    then 1953655158
    else if offset == 4
    then 2
    else if offset == 8
    then 1
    else if offset == 52
    then 256
    else if offset == 96
    then 1
    else 0

abbrev net_host : Host
net_host log bank offset = answer offset

abbrev layout : Layout
layout = record { desc_addr = 1073741824; avail_addr = 1073745920; used_addr = 1073750016 }

-- A device as it lies in memory at the start.
abbrev pub fresh : Device
fresh = record no_device {
  rx = record (no_device.rx) { completions = replicate 256 no_completion };
  tx = record waiting { driver_ok = false; batch_count = 0 };
}

fresh-HasRows : HasRows fresh
fresh-HasRows = record {
  completions = length-replicate 256 no_completion;
  descs = waiting-IsTxQueue.descs;
  storage = waiting-IsTxQueue.storage;
  no_batch = refl;
}

bring_up-marks_example :
    let (dev, ok, log) = bring_up net_host (λ i. layout) fresh [] in
    ((ok ≡ true)
      × (marks log
          ≡ (48, 1) ∷ (48, 0) ∷ (112, 15) ∷ (68, 1) ∷ (48, 1) ∷ (68, 1) ∷ (48, 0) ∷ negotiated []))
    ⊎ ((ok ≡ false)
        × ((marks log ≡ marks [])
            ⊎ ((marks log ≡ (48, 0) ∷ negotiated [])
                ⊎ (marks log ≡ (48, 1) ∷ (68, 1) ∷ (48, 0) ∷ negotiated []))))
bring_up-marks_example = bring_up-marks net_host (λ i. layout) fresh []

virtio_net_configure_queue_size_example :
    let size = (virtio_net_configure_queue net_host 0 0 layout []).0 in
    ((size ≡ none) × ◌≡◌ {A = ℕ} 256 0)
    ⊎ ((n : ℕ) × (size ≡ some n)
        × (0 < 256)
        × (n ≤ 256)
        × (n ≤ 256)
        × ((n ≡ 0) ↔ ◌≡◌ {A = ℕ} 256 0))
virtio_net_configure_queue_size_example = virtio_net_configure_queue_size net_host 0 0 layout []

virtio_net_scan-nth_example :
    (virtio_net_scan net_host 1 []).0
    ≡ nth (network_devices (answers (λ i. 1953655158) (λ i. 1)) 16 0) 1
virtio_net_scan-nth_example =
    virtio_net_scan-nth net_host (λ i. 1953655158) (λ i. 1) 1 [] (λ log i. (refl, refl))

abbrev pub world : World
world = record {
  kernel = record {
    event_wait_list_init = λ e s. s;
    event_task_wait = λ e s. s;
    event_task_rdy = λ e s. s;
    event_task_remove = λ e s. s;
    sched = λ s. s;
  };
  host = net_host;
  at = λ dev_idx queue. layout;
}

abbrev pub board : Device → Board
board d = record {
  log = [];
  os = record {
    int_nesting = 0;
    event_free_list = 0 ∷ 1 ∷ 2 ∷ [];
    events = replicate 3 (record { event_type = 0; event_cnt = 0; event_grp = 0 });
    tcb_stat = 0;
    tcb_stat_pend = 0;
    tcb_dly = 0;
  };
  rx_global_sem = none;
  devices = d ∷ d ∷ [];
  device_count = 2;
  dev = none;
  vectors = replicate 256 none;
}

fresh_rows : (j : ℕ) → 0 ≤ j → j < 2 → HasRows (device (board fresh) j)
fresh_rows zero from below = fresh-HasRows
fresh_rows (suc zero) from below = fresh-HasRows
fresh_rows (suc (suc j)) from below = absurd (omega arith)

pub fresh-HasTables : HasTables (board fresh) 0
fresh-HasTables = record {
  two = refl;
  table = length-replicate {A = Option Handler} 256 none;
  rows = fresh_rows;
}

virtio_net_init_all-IsUp_example :
    let (ok, b') = virtio_net_init_all world (board fresh) in
    (b'.device_count ≤ 2)
    × ((j : ℕ) → j < b'.device_count → IsUp b'.vectors (device b' j))
    × (((ok ≡ false) × (b'.device_count ≡ 0))
        ⊎ ((ok ≡ true) × (0 < b'.device_count) × (b'.dev ≡ some 0)))
virtio_net_init_all-IsUp_example = virtio_net_init_all-IsUp world (board fresh) fresh-HasTables

-- A device with a frame that waits and fifteen to send, on interrupt 48.
abbrev pub busy : Device
busy = record no_device { irq = 48; rx = one_frame; tx = waiting }

busy-IsRunning : IsRunning (board busy)
busy-IsRunning = record { two = refl; ready = ready }
  where
    ready :
        (j : ℕ)
        → j < 2
        → (device (board busy) j).tx.driver_ok ≡ false
          ⊎ IsQueue (device (board busy) j).rx × IsTxQueue (device (board busy) j).tx
    ready zero below = inr (one_frame-IsQueue, waiting-IsTxQueue)
    ready (suc zero) below = inr (one_frame-IsQueue, waiting-IsTxQueue)
    ready (suc (suc j)) below = absurd (omega arith)

abbrev sent_so_far : ℕ → ℕ
sent_so_far zero = 15
sent_so_far (suc zero) = 14
sent_so_far (suc (suc j)) = 0

busy-Wrote : Wrote (λ j. filled) sent_so_far (board busy)
busy-Wrote = record { used_in = λ j. omega arith; tx_used_in = small; in_flight = flight }
  where
    small : (j : ℕ) → sent_so_far j < 65536
    small zero = omega arith
    small (suc zero) = omega arith
    small (suc (suc j)) = omega arith

    flight :
        (j : ℕ)
        → sub16 (device (board busy) j).tx.avail.idx (sent_so_far j)
          ≤ (device (board busy) j).tx.queue_size
    flight zero = omega arith
    flight (suc zero) = omega arith
    flight (suc (suc j)) = omega arith

virtio_net_interrupt_handler_done_example :
    let b = board busy in
    ((virtio_net_interrupt_handler world (λ j. filled) sent_so_far 48 b ≡ some b)
      × ((find_index (λ d. d.irq == 48) b.devices ≡ none)
          ⊎ ((j : ℕ) × (find_index (λ d. d.irq == 48) b.devices ≡ some j)
              × ((device b j).tx.driver_ok ≡ false))))
    ⊎ ((i : ℕ) × (b' : Board) × ((device b i).irq ≡ 48)
        × (virtio_net_interrupt_handler world (λ j. filled) sent_so_far 48 b ≡ some b')
        × Served world (λ j. filled) sent_so_far i b b')
virtio_net_interrupt_handler_done_example =
    virtio_net_interrupt_handler_done world (λ j. filled) sent_so_far 48 (board busy) busy-IsRunning
      busy-Wrote

pub one_frame-completions : length one_frame.completions ≡ 256
one_frame-completions =
    length-set (replicate 256 no_completion) 0 (record { desc_id = 3; total_len = 72 })
    ∙ length-replicate 256 no_completion

-- The prepared queue, with an interrupt that reports two frames, a poll and a release.
abbrev pub reported : Used
reported = record {
  idx = 2;
  ring = record { id = 4; len = 100 } ∷ record { id = 5; len = 90 } ∷ [];
}

prepared-IsQueue : IsQueue (virtio_net_prepare_rx one_frame)
prepared-IsQueue =
    prepare_rx-IsQueue one_frame (omega arith) (omega arith) one_frame-completions
      one_frame-IsQueue.avail_ring

pub arrived :
    (t : Scan) × (virtio_net_handle_rx_used reported (virtio_net_prepare_rx one_frame) ≡ some t)
    × IsQueue t.rx
    × (t.rx.last_used ≡ 2)
arrived =
    virtio_net_handle_rx_used_done reported (virtio_net_prepare_rx one_frame) (omega arith)
      prepared-IsQueue

reported_ids : (k : ℕ) → u16 (get_or reported.ring k no_elem).id < 256
reported_ids zero = omega arith
reported_ids (suc zero) = omega arith
reported_ids (suc (suc k)) = omega arith

pub reported-Obeys : Obeys reported (virtio_net_prepare_rx one_frame)
unfolding virtio_net_prepare_rx
reported-Obeys = record {
  idx_in = omega arith;
  offered = omega arith;
  ids = λ k below. reported_ids k;
}

arrived-Reaches : Reaches (virtio_net_prepare_rx one_frame) arrived.0.rx
arrived-Reaches =
    Reaches.after (QueueStep.interrupt reported arrived.0 reported-Obeys arrived.1) Reaches.here

-- A board whose first device has the queue of the frame that arrived.
abbrev arrived_board : Board
arrived_board = board (record busy { rx = arrived.0.rx })

virtio_net_prepare_rx_conserved_example :
    let rx' = arrived.0.rx in
    (sub16 rx'.avail.idx rx'.last_used + rx'.count ≡ rx'.queue_size)
    × ((rx'.count ≡ 0) × (virtio_net_peek_rx_buffer_dev arrived_board (some 0) ≡ none)
        ⊎ (virtio_net_peek_rx_buffer_dev arrived_board (some 0)
            ≡ some (payload_length (head_entry rx').total_len, (head_entry rx').desc_id))
          × ((head_entry rx').desc_id < rx'.queue_size))
virtio_net_prepare_rx_conserved_example =
    virtio_net_prepare_rx_conserved one_frame arrived.0.rx arrived_board 0 (omega arith)
      (omega arith) one_frame-completions one_frame-IsQueue.avail_ring arrived-Reaches refl refl
      (omega arith)
