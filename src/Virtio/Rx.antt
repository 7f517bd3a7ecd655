-- ===== src/Virtio/Rx.antt =====
-- The receive path of bsp/virtio_net.c. What the device writes is an argument: its used ring, which
-- is taken not to change while the interrupt handler scans it. Cache maintenance, barriers and the
-- console are left out; each critical section is one step, together with
-- what a release or a poll does to the available ring right behind it: an interrupt between the two is
-- not modelled. The tests of the device that precede the work
-- on its queue are in Virtio/Calls and Virtio/Wait.
use ucosii_arm64_qemu.Prelude.{
  ℕ, zero, suc, ◌+◌, ◌-◌, ◌%◌, Bool, true, false, Option, none, some, List, ltb, leb, ◌==◌,
  if◌then◌else◌, not, u16, get_or, set,
}

-- `struct rx_completion_entry`
pub record Completion : Type 0 where
  pub desc_id : ℕ
  pub total_len : ℕ

-- `struct vring_used_elem` and `struct vring_used`
pub record UsedElem : Type 0 where
  pub id : ℕ
  pub len : ℕ

pub record Used : Type 0 where
  pub idx : ℕ
  pub ring : List UsedElem

-- `struct vring_avail`
pub record Avail : Type 0 where
  pub idx : ℕ
  pub ring : List ℕ

-- What the driver keeps of one device's receive queue: fields of `struct virtio_net_device`, the
-- available ring, and the device's row of the `g_rx_completion` arrays.
pub record RxQueue : Type 0 where
  pub queue_size : ℕ
  pub last_used : ℕ
  pub avail : Avail
  pub completions : List Completion
  pub head : ℕ
  pub tail : ℕ
  pub count : ℕ

-- The local variables of the scan beside the queue.
pub record Scan : Type 0 where
  pub rx : RxQueue
  pub notify_device : Bool
  pub enqueued : Bool

abbrev pub no_completion : Completion
no_completion = record { desc_id = 0; total_len = 0 }

abbrev pub no_elem : UsedElem
no_elem = record { id = 0; len = 0 }

-- A descriptor is handed back to the device: `ring[idx % size] = desc_id; idx++`.
unfoldable pub give_back : ℕ → ℕ → Avail → Avail
give_back size desc_id a = record {
  idx = u16 (a.idx + 1);
  ring = set a.ring (a.idx % size) desc_id;
}

unfoldable pub enqueue : Completion → RxQueue → RxQueue
enqueue c rx = record rx {
  completions = set rx.completions rx.tail c;
  tail = u16 ((rx.tail + 1) % rx.queue_size);
  count = u16 (rx.count + 1);
}

abbrev pub used_elem : Used → RxQueue → UsedElem
used_elem u rx = get_or u.ring (rx.last_used % rx.queue_size) no_elem

-- One round of the scan: skip a bad index, hand back on a full queue, or enqueue.
unfoldable pub scan_round : Used → Scan → Scan
unfolding give_back enqueue
scan_round u s =
    let rx = s.rx in
    let elem = used_elem u rx in
    let desc_id = u16 elem.id in
    let next = u16 (rx.last_used + 1) in
    if leb rx.queue_size desc_id
    then record s { rx = record rx { last_used = next } }
    else if leb rx.queue_size rx.count
    then record s {
      rx = record rx { last_used = next; avail = give_back rx.queue_size desc_id rx.avail };
      notify_device = true;
    }
    else record s {
      rx = record (enqueue (record { desc_id = desc_id; total_len = elem.len }) rx) {
        last_used = next;
      };
      enqueued = true;
    }

-- The `while (1)`: `none` if the fuel runs out.
unfoldable pub scan_used : ℕ → Used → Scan → Option Scan
unfolding scan_round
scan_used zero u s = none
scan_used (suc fuel) u s =
    let rest = scan_used fuel u (scan_round u s) in if s.rx.last_used == u.idx then some s else rest

-- The device is notified if `notify_device`, and the receive semaphores are posted if `enqueued`.
unfoldable pub virtio_net_handle_rx_used : Used → RxQueue → Option Scan
virtio_net_handle_rx_used u rx =
    scan_used 65536 u (record { rx = rx; notify_device = false; enqueued = false })

abbrev pub head_entry : RxQueue → Completion
head_entry rx = get_or rx.completions rx.head no_completion

unfoldable pub queue_pending : RxQueue → Bool
queue_pending rx = ltb 0 rx.count

-- The frame length behind the 12 bytes of `struct virtio_net_hdr`, at most 1518.
unfoldable pub payload_length : ℕ → ℕ
payload_length total_len =
    if ltb 12 total_len then (if ltb 1518 (total_len - 12) then 1518 else total_len - 12) else 0

-- The length and the descriptor through the pointers; the frame is in that descriptor's buffer.
unfoldable pub peek_queue : RxQueue → Option (ℕ × ℕ)
unfolding payload_length
peek_queue rx =
    if rx.count == 0
    then none
    else if leb rx.queue_size (head_entry rx).desc_id
    then none
    else some (payload_length (head_entry rx).total_len, (head_entry rx).desc_id)

-- The head entry is taken off the completion queue.
unfoldable pub dequeue : RxQueue → RxQueue
dequeue rx = record rx { head = u16 ((rx.head + 1) % rx.queue_size); count = rx.count - 1 }

unfoldable pub release_queue : ℕ → RxQueue → RxQueue
unfolding dequeue give_back
release_queue desc_id rx =
    if rx.count == 0
    then rx
    else if not ((head_entry rx).desc_id == desc_id)
    then rx
    else record (dequeue rx) { avail = give_back rx.queue_size desc_id rx.avail }

-- The return value (`none` for -1) and the length of the frame copied out.
unfoldable pub poll_queue : RxQueue → RxQueue × Option (ℕ × ℕ)
unfolding dequeue give_back payload_length
poll_queue rx =
    let entry = head_entry rx in
    let len = payload_length entry.total_len in
    if rx.count == 0
    then (rx, some (0, 0))
    else if leb rx.queue_size entry.desc_id
    then (dequeue rx, none)
    else (
      record (dequeue rx) { avail = give_back rx.queue_size entry.desc_id rx.avail },
      some (if ltb 0 len then 1 else 0, len),
    )
