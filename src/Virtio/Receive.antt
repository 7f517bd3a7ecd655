-- ===== src/Virtio/Receive.antt =====
-- The invariant of the completion queue of bsp/virtio_net.c, and the end of the scan.
use native.Mathlib.Nat.{mod-add-mod}
use ucosii_arm64_qemu.Prelude.{
  ℕ, zero, suc, ◌+◌, ◌-◌, ◌%◌, ◌≤◌, ◌<◌, ◌≡◌, ap, ◌∙◌, false, some, leb, ◌==◌, arith, u16, sub16,
  length, length-set, Bool-cases, inl, inr, ==_iff,
}
use ucosii_arm64_qemu.Virtio.Rx.{
  Completion, Used, RxQueue, Scan, give_back, enqueue, used_elem, scan_round, scan_used,
  virtio_net_handle_rx_used, release_queue, poll_queue, dequeue, head_entry,
}

pub record IsQueue (rx : RxQueue) : Type 0 where
  pub size_pos : 0 < rx.queue_size
  pub size_max : rx.queue_size ≤ 256
  pub storage : rx.queue_size ≤ length rx.completions
  pub head_in : rx.head < rx.queue_size
  pub tail_at : rx.tail ≡ (rx.head + rx.count) % rx.queue_size
  pub count_in : rx.count ≤ rx.queue_size
  pub last_used_in : rx.last_used < 65536
  pub avail_in : rx.avail.idx < 65536
  pub avail_ring : length rx.avail.ring ≡ 256

pub tail_in : {rx : RxQueue} → IsQueue rx → rx.tail < rx.queue_size
tail_in v = omega arith

tail_next : (h c n : ℕ) → 0 < n → ((h + c) % n + 1) % n ≡ (h + suc c) % n
tail_next h c n p = rw mod-add-mod (ap (λ k. k % n) (omega arith))

head_next : (h c n : ℕ) → 0 < n → 0 < c → (h + c) % n ≡ ((h + 1) % n + (c - 1)) % n
head_next h c n p q = rw mod-add-mod (ap (λ k. k % n) (omega arith))

enqueue_tail :
    (h c n t : ℕ)
    → 0 < n
    → n ≤ 256
    → c < n
    → t ≡ (h + c) % n
    → u16 ((t + 1) % n) ≡ (h + u16 (c + 1)) % n
enqueue_tail h c n t p q r e =
    let one : u16 (c + 1) ≡ suc c = omega arith in
    let fits : u16 (((h + c) % n + 1) % n) ≡ ((h + c) % n + 1) % n = omega (arith, p, q) in
    rw (e, one) (fits ∙ tail_next h c n p)

pub enqueue-IsQueue :
    (c : Completion) (rx : RxQueue) → rx.count < rx.queue_size → IsQueue rx → IsQueue (enqueue c rx)
unfolding enqueue
enqueue-IsQueue c rx h v = record {
  size_pos = v.size_pos;
  size_max = v.size_max;
  storage = omega (arith, length-set rx.completions rx.tail c, v.storage);
  head_in = v.head_in;
  tail_at = enqueue_tail rx.head rx.count rx.queue_size rx.tail v.size_pos v.size_max h v.tail_at;
  count_in = omega (arith, v.size_max);
  last_used_in = v.last_used_in;
  avail_in = v.avail_in;
  avail_ring = v.avail_ring;
}

small :
    (rx : RxQueue)
    → IsQueue rx
    → u16 ((rx.head + 1) % rx.queue_size) ≡ (rx.head + 1) % rx.queue_size
small rx v = omega (arith, v.size_pos, v.size_max)

pub dequeue-IsQueue : (rx : RxQueue) → 0 < rx.count → IsQueue rx → IsQueue (dequeue rx)
unfolding dequeue
dequeue-IsQueue rx h v = record {
  size_pos = v.size_pos;
  size_max = v.size_max;
  storage = v.storage;
  head_in = omega (arith, v.head_in, v.size_max);
  tail_at = omega (
    arith,
    v.tail_at,
    head_next rx.head rx.count rx.queue_size v.size_pos h,
    ap (λ k. (k + (rx.count - 1)) % rx.queue_size) (small rx v),
  );
  count_in = omega (arith, v.count_in);
  last_used_in = v.last_used_in;
  avail_in = v.avail_in;
  avail_ring = v.avail_ring;
}

-- Handing a descriptor back and moving on in the used ring leave the completion queue alone.
pub return-IsQueue :
    (rx : RxQueue) (d n : ℕ)
    → n < 65536
    → IsQueue rx
    → IsQueue (record rx { last_used = n; avail = give_back rx.queue_size d rx.avail })
unfolding give_back
return-IsQueue rx d n h v = record {
  size_pos = v.size_pos;
  size_max = v.size_max;
  storage = v.storage;
  head_in = v.head_in;
  tail_at = v.tail_at;
  count_in = v.count_in;
  last_used_in = h;
  avail_in = omega arith;
  avail_ring = length-set rx.avail.ring _ d ∙ v.avail_ring;
}

pub advance-IsQueue :
    (rx : RxQueue) (n : ℕ) → n < 65536 → IsQueue rx → IsQueue (record rx { last_used = n })
advance-IsQueue rx n h v = record {
  size_pos = v.size_pos;
  size_max = v.size_max;
  storage = v.storage;
  head_in = v.head_in;
  tail_at = v.tail_at;
  count_in = v.count_in;
  last_used_in = h;
  avail_in = v.avail_in;
  avail_ring = v.avail_ring;
}

-- One round of the scan keeps the invariant, on each of its three branches.
pub scan_round-IsQueue : (u : Used) (s : Scan) → IsQueue s.rx → IsQueue (scan_round u s).rx
unfolding scan_round
scan_round-IsQueue u s v = elim (Bool-cases (leb s.rx.queue_size (u16 (used_elem u s.rx).id))) [
  | inl bad ↦ rw (scan_round, bad) (advance-IsQueue s.rx next (omega arith) v)
  | inr good ↦ elim (Bool-cases (leb s.rx.queue_size s.rx.count)) [
    | inl full ↦ rw (scan_round, good, full) (return-IsQueue s.rx _ next (omega arith) v)
    | inr room ↦
        rw (scan_round, good, room)
          (advance-IsQueue (enqueue _ s.rx) next (omega arith)
            (enqueue-IsQueue _ s.rx (ground arith) v))
  ]
]
  where
    next : ℕ
    next = u16 (s.rx.last_used + 1)

pub scan_round-last_used :
    (u : Used) (s : Scan) → (scan_round u s).rx.last_used ≡ u16 (s.rx.last_used + 1)
unfolding scan_round
scan_round-last_used u s = ground arith

-- The scan from `last_used` to the device's index ends, for any fuel above their distance.
scan_used-done :
    (fuel : ℕ) (u : Used) (s : Scan)
    → u.idx < 65536
    → sub16 u.idx s.rx.last_used < fuel
    → IsQueue s.rx
    → (t : Scan) × (scan_used fuel u s ≡ some t) × IsQueue t.rx × (t.rx.last_used ≡ u.idx)
unfolding scan_used
scan_used-done zero u s h k v = absurd (omega arith)
scan_used-done (suc fuel) u s h k v = elim (Bool-cases (s.rx.last_used == u.idx)) [
  | inl done ↦ (s, rw done, v, (==_iff s.rx.last_used u.idx).0 done)
  | inr more ↦ rw more (
      scan_used-done fuel u (scan_round u s) h
        (ground (arith, scan_round-last_used u s, v.last_used_in)) (scan_round-IsQueue u s v))
]

-- On a well-formed queue the interrupt handler's scan of the used ring ends, having taken every element
-- up to the device's index, and keeps the completion queue well formed.
pub virtio_net_handle_rx_used_done :
    (u : Used) (rx : RxQueue)
    → u.idx < 65536
    → IsQueue rx
    → (t : Scan) × (virtio_net_handle_rx_used u rx ≡ some t)
      × IsQueue t.rx
      × (t.rx.last_used ≡ u.idx)
unfolding virtio_net_handle_rx_used
virtio_net_handle_rx_used_done u rx h v =
    scan_used-done 65536 u (record { rx = rx; notify_device = false; enqueued = false }) h
      (omega arith) v

-- Releasing a buffer keeps the queue well formed, whatever descriptor is named.
pub release_queue-IsQueue : (d : ℕ) (rx : RxQueue) → IsQueue rx → IsQueue (release_queue d rx)
unfolding release_queue
release_queue-IsQueue d rx v = elim (Bool-cases (rx.count == 0)) [
  | inl empty ↦ rw (release_queue, empty) v
  | inr some_left ↦ elim (Bool-cases ((head_entry rx).desc_id == d)) [
    | inl same ↦
        rw (release_queue, some_left, same)
          (return-IsQueue (dequeue rx) d rx.last_used v.last_used_in
            (dequeue-IsQueue rx (ground arith) v))
    | inr other ↦ rw (release_queue, some_left, other) v
  ]
]

-- So does polling a frame.
pub poll_queue-IsQueue : (rx : RxQueue) → IsQueue rx → IsQueue (poll_queue rx).0
unfolding poll_queue
poll_queue-IsQueue rx v = elim (Bool-cases (rx.count == 0)) [
  | inl empty ↦ rw (poll_queue, empty) v
  | inr some_left ↦ elim (Bool-cases (leb rx.queue_size (head_entry rx).desc_id)) [
    | inl bad ↦ rw (poll_queue, some_left, bad) (dequeue-IsQueue rx (ground arith) v)
    | inr good ↦
        rw (poll_queue, some_left, good)
          (return-IsQueue (dequeue rx) (head_entry rx).desc_id rx.last_used v.last_used_in
            (dequeue-IsQueue rx (ground arith) v))
  ]
]
