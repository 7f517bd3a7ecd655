-- ===== src/Virtio/Owner.antt =====
-- The queue of virtio_net_prepare_rx of bsp/virtio_net.c from its set-up on: where each
-- descriptor is after any run.
use ucosii_arm64_qemu.Prelude.{
  ℕ, zero, suc, ◌+◌, ◌≤◌, ◌<◌, ◌≡◌, ◌∙◌, refl, true, some, List, [], ◌++◌, ltb, ◌==◌, if◌then◌else◌,
  arith, get_or, length, Bool-cases, inl, inr, get_or-set_self, get_or-set_ne,
}
use ucosii_arm64_qemu.Virtio.Rx.{RxQueue, dequeue, head_entry, peek_queue}
use ucosii_arm64_qemu.Virtio.Device.{virtio_net_prepare_rx, fill_ring}
use ucosii_arm64_qemu.Virtio.Fifo.{queued, queued-dequeue, peek_inv}
use ucosii_arm64_qemu.Virtio.Conserve.{prepare_rx-IsConserved}
use ucosii_arm64_qemu.Virtio.Ready.{prepare_rx-IsQueue, fill_ring-length}
use ucosii_arm64_qemu.Virtio.Ledger.{Ledger, Run, IsBalanced, Run-IsBalanced, uses}

-- How often a descriptor stands in the first `n` slots of the available ring.
unfoldable pub stands : ℕ → ℕ → List ℕ → ℕ
stands d zero ring = 0
stands d (suc n) ring = (if get_or ring n 0 == d then 1 else 0) + stands d n ring

fill_ring-entry :
    (n k : ℕ) (ring : List ℕ) → k < n → n ≤ length ring → get_or (fill_ring n ring) k 0 ≡ k
unfolding fill_ring
fill_ring-entry zero k ring below room = absurd (omega arith)
fill_ring-entry (suc n) k ring below room = elim (Bool-cases (n == k)) [
  | inl same ↦
      let e : k ≡ n = ground arith in
      rw e (get_or-set_self (fill_ring n ring) n n 0 (omega (arith, fill_ring-length n ring)))
  | inr other ↦
      get_or-set_ne (fill_ring n ring) n k n 0 (λ e. ground arith)
      ∙ fill_ring-entry n k ring (ground arith) (omega arith)
]

pub stands-fill_ring :
    (d n size : ℕ) (ring : List ℕ)
    → n ≤ size
    → size ≤ length ring
    → stands d n (fill_ring size ring) ≡ (if ltb d n then 1 else 0)
unfolding stands
stands-fill_ring d zero size ring within room = ground arith
stands-fill_ring d (suc n) size ring within room =
    rw
      (
        fill_ring-entry size n ring (omega arith) room,
        stands-fill_ring d n size ring (omega arith) room,
      )
      (ground arith)

-- The ledger of a queue that was just prepared: the device holds what stands in the available ring.
abbrev pub opened : RxQueue → Ledger
opened rx =
    let prepared = virtio_net_prepare_rx rx in
    record {
      rx = prepared;
      with_device = λ d. stands d prepared.avail.idx prepared.avail.ring;
      arrived = [];
      taken = [];
    }

opened-IsBalanced :
    (rx : RxQueue)
    → 0 < rx.queue_size
    → rx.queue_size ≤ 256
    → length rx.completions ≡ 256
    → length rx.avail.ring ≡ 256
    → IsBalanced rx.queue_size (opened rx)
unfolding virtio_net_prepare_rx uses
opened-IsBalanced rx pos small c r = record {
  conserved = prepare_rx-IsConserved rx (prepare_rx-IsQueue rx pos small c r) small;
  size = refl;
  one_place = λ d. omega (
    arith,
    stands-fill_ring d rx.queue_size rx.queue_size rx.avail.ring (omega arith) (omega arith),
  );
  in_order = refl;
}

-- After the receive queue was prepared, however interrupts, releases and polls follow one another:
-- every descriptor of the queue is either with the device or in one entry of the completion queue,
-- never in both, and no other descriptor is anywhere. The frames that the device reported are, in
-- the order of the reports, those that the driver took and then those that still wait. The size is
-- between 1 and 256, the arrays have 256 entries, and the device follows the protocol and reports
-- only descriptors that it holds.
pub virtio_net_prepare_rx-Run :
    (rx : RxQueue) (l : Ledger)
    → 0 < rx.queue_size
    → rx.queue_size ≤ 256
    → length rx.completions ≡ 256
    → length rx.avail.ring ≡ 256
    → Run (opened rx) l
    → ((d : ℕ) → l.with_device d + uses d (queued l.rx) ≡ (if ltb d rx.queue_size then 1 else 0))
      × (l.taken ++ queued l.rx ≡ l.arrived)
virtio_net_prepare_rx-Run rx l pos small c r run =
    let b = Run-IsBalanced run (opened-IsBalanced rx pos small c r) in (b.one_place, b.in_order)

at_most_one : (d n : ℕ) → (if ltb d n then 1 else 0) ≤ 1
at_most_one d n = ground arith

-- After any such run the device does not hold the buffer that a peek gives to the task, so it does not
-- write to a frame that is being read. The conditions are the same: a size between 1 and 256, arrays of
-- 256 entries, and a device that follows the protocol and reports only descriptors that it holds.
pub virtio_net_peek-Run :
    (rx : RxQueue) (l : Ledger) (len d : ℕ)
    → 0 < rx.queue_size
    → rx.queue_size ≤ 256
    → length rx.completions ≡ 256
    → length rx.avail.ring ≡ 256
    → Run (opened rx) l
    → peek_queue l.rx ≡ some (len, d)
    → l.with_device d ≡ 0
unfolding uses
virtio_net_peek-Run rx l len d pos small c r run peeked =
    let b = Run-IsBalanced run (opened-IsBalanced rx pos small c r) in
    let (left, known, same, size) = peek_inv l.rx len d peeked in
    let split = queued-dequeue l.rx b.conserved.well left in
    let head_is : ((head_entry l.rx).desc_id == d) ≡ true = ground arith in
    let once : uses d (queued l.rx) ≡ suc (uses d (queued (dequeue l.rx))) =
      rw (split, head_is) refl in
    omega (arith, at_most_one d rx.queue_size, b.one_place d)
