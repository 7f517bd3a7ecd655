-- ===== src/Virtio/Conserve.antt =====
-- The receive buffers of bsp/virtio_net.c through any interleaving of interrupts, releases and polls:
-- each is with the device or in the completion queue.
use ucosii_arm64_qemu.Prelude.{
  ℕ, zero, suc, ◌+◌, ◌%◌, ◌≤◌, ◌<◌, ◌≡◌, refl, sym, subst, true, false, some, List, [], ◌∷◌, ◌++◌,
  leb, ◌==◌, arith, u16, sub16, length, get_or, of_some, Bool-cases, inl, inr, ◌⊎◌, none,
}
use ucosii_arm64_qemu.Virtio.Rx.{
  Completion, Used, RxQueue, Scan, give_back, enqueue, dequeue, used_elem, no_elem, head_entry,
  scan_round, scan_used, virtio_net_handle_rx_used, release_queue, poll_queue, peek_queue,
  payload_length,
}
use ucosii_arm64_qemu.Virtio.Receive.{
  IsQueue, enqueue-IsQueue, dequeue-IsQueue, return-IsQueue, advance-IsQueue,
}
use ucosii_arm64_qemu.Virtio.Device.{virtio_net_prepare_rx}
use ucosii_arm64_qemu.Virtio.Ready.{prepare_rx-IsQueue}
use ucosii_arm64_qemu.Virtio.Board.{Board, device}
use ucosii_arm64_qemu.Virtio.Calls.{virtio_net_peek_rx_buffer_dev, served_lem}
use ucosii_arm64_qemu.Virtio.Fifo.{queued, queued-enqueue, queued-dequeue}

pub data AllIn (size : ℕ) : List Completion → Type 0 where
  nothing : AllIn size []
  entry :
      {c : Completion} {cs : List Completion}
      → c.desc_id < size
      → AllIn size cs
      → AllIn size (c ∷ cs)

AllIn-append :
    (size : ℕ) (cs : List Completion) (c : Completion)
    → c.desc_id < size
    → AllIn size cs
    → AllIn size (cs ++ c ∷ [])
AllIn-append size [] c p nothing = entry p nothing
AllIn-append size (d ∷ cs) c p (entry q rest) = entry q (AllIn-append size cs c p rest)

AllIn-head :
    (size : ℕ) (c : Completion) (cs : List Completion)
    → AllIn size (c ∷ cs)
    → (c.desc_id < size) × AllIn size cs
AllIn-head size c cs (entry p rest) = (p, rest)

-- Every buffer of the queue is offered to the device or waits in the completion queue.
pub record IsConserved (rx : RxQueue) : Type 0 where
  pub well : IsQueue rx
  pub every : sub16 rx.avail.idx rx.last_used + rx.count ≡ rx.queue_size
  pub known : AllIn rx.queue_size (queued rx)

-- A device that follows the protocol: it uses only buffers that it was offered, and its ring holds
-- indices of the descriptor table.
pub record Obeys (u : Used) (rx : RxQueue) : Type 0 where
  pub idx_in : u.idx < 65536
  pub offered : sub16 u.idx rx.last_used ≤ sub16 rx.avail.idx rx.last_used
  pub ids : (k : ℕ) → k < rx.queue_size → u16 (get_or u.ring k no_elem).id < rx.queue_size

pub dequeue-IsConserved :
    (rx : RxQueue)
    → 0 < rx.count
    → IsConserved rx
    → ((head_entry rx).desc_id < rx.queue_size)
      × IsConserved
          (record (dequeue rx) { avail = give_back rx.queue_size (head_entry rx).desc_id rx.avail })
unfolding dequeue give_back
dequeue-IsConserved rx some_left v =
    let w = v.well in
    let (p, rest) =
      AllIn-head rx.queue_size (head_entry rx) (queued (dequeue rx))
        (subst (AllIn rx.queue_size) (queued-dequeue rx w some_left) v.known) in
    (
      p,
      record {
        well =
            return-IsQueue (dequeue rx) (head_entry rx).desc_id rx.last_used w.last_used_in
              (dequeue-IsQueue rx some_left w);
        every = omega (arith, v.every, w.avail_in, w.last_used_in, w.size_max);
        known = rest;
      },
    )

scan_round-IsConserved :
    (u : Used) (s : Scan)
    → IsConserved s.rx
    → Obeys u s.rx
    → 0 < sub16 u.idx s.rx.last_used
    → IsConserved (scan_round u s).rx × Obeys u (scan_round u s).rx
unfolding scan_round enqueue
scan_round-IsConserved u s v honest more =
    let w = v.well in
    let slot : s.rx.last_used % s.rx.queue_size < s.rx.queue_size = omega (arith, w.size_pos) in
    let id_in = honest.ids (s.rx.last_used % s.rx.queue_size) slot in
    let good : leb s.rx.queue_size (u16 (used_elem u s.rx).id) ≡ false = ground arith in
    let free : s.rx.count < s.rx.queue_size = omega (arith, v.every, honest.offered) in
    let room : leb s.rx.queue_size s.rx.count ≡ false = ground arith in
    let c : Completion = record {
      desc_id = u16 (used_elem u s.rx).id;
      total_len = (used_elem u s.rx).len;
    } in
    rw (good, room)
      (
        record {
          well =
              advance-IsQueue (enqueue c s.rx) (u16 (s.rx.last_used + 1)) (omega arith)
                (enqueue-IsQueue c s.rx free w);
          every = omega (arith, v.every, honest.offered, w.avail_in, w.last_used_in, w.size_max);
          known =
              subst (AllIn s.rx.queue_size) (sym (queued-enqueue c s.rx w free))
                (AllIn-append s.rx.queue_size (queued s.rx) c id_in v.known);
        },
        record {
          idx_in = honest.idx_in;
          offered = omega (arith, honest.offered, honest.idx_in, w.avail_in, w.last_used_in);
          ids = honest.ids;
        },
      )

scan_used-IsConserved :
    (fuel : ℕ) (u : Used) (s t : Scan)
    → IsConserved s.rx
    → Obeys u s.rx
    → scan_used fuel u s ≡ some t
    → IsConserved t.rx
unfolding scan_used
scan_used-IsConserved zero u s t v honest e = absurd (cc)
scan_used-IsConserved (suc fuel) u s t v honest e = elim (Bool-cases (s.rx.last_used == u.idx)) [
  | inl done ↦ subst (λ x. IsConserved x.rx) (of_some s t (rw done at e)) v
  | inr more ↦
      let distance : 0 < sub16 u.idx s.rx.last_used =
        ground (arith, honest.idx_in, v.well.last_used_in) in
      let (v', honest') = scan_round-IsConserved u s v honest distance in
      scan_used-IsConserved fuel u (scan_round u s) t v' honest' (rw more at e)
]

release-IsConserved : (d : ℕ) (rx : RxQueue) → IsConserved rx → IsConserved (release_queue d rx)
unfolding release_queue
release-IsConserved d rx v = elim (Bool-cases (rx.count == 0)) [
  | inl empty ↦ rw (release_queue, empty) v
  | inr some_left ↦ elim (Bool-cases ((head_entry rx).desc_id == d)) [
    | inr other ↦ rw (release_queue, some_left, other) v
    | inl same ↦
        let e : d ≡ (head_entry rx).desc_id = ground arith in
        rw (release_queue, some_left, same, e) (dequeue-IsConserved rx (ground arith) v).1
  ]
]

poll-IsConserved : (rx : RxQueue) → IsConserved rx → IsConserved (poll_queue rx).0
unfolding poll_queue
poll-IsConserved rx v = elim (Bool-cases (rx.count == 0)) [
  | inl empty ↦ rw (poll_queue, empty) v
  | inr some_left ↦
      let (known, rest) = dequeue-IsConserved rx (ground arith) v in
      let good : leb rx.queue_size (head_entry rx).desc_id ≡ false = ground arith in
      rw (poll_queue, some_left, good) rest
]

-- One step of a running queue, and any number of them.
pub data QueueStep : RxQueue → RxQueue → Type 0 where
  interrupt :
      {rx : RxQueue} (u : Used) (t : Scan)
      → Obeys u rx
      → virtio_net_handle_rx_used u rx ≡ some t
      → QueueStep rx t.rx
  release : {rx : RxQueue} (d : ℕ) → QueueStep rx (release_queue d rx)
  poll : {rx : RxQueue} → QueueStep rx (poll_queue rx).0

pub data Reaches : RxQueue → RxQueue → Type 0 where
  here : {rx : RxQueue} → Reaches rx rx
  after : {rx rx' rx'' : RxQueue} → QueueStep rx rx' → Reaches rx' rx'' → Reaches rx rx''

pub QueueStep-IsConserved : {rx rx' : RxQueue} → QueueStep rx rx' → IsConserved rx → IsConserved rx'
unfolding virtio_net_handle_rx_used
QueueStep-IsConserved (interrupt {rx} u t honest done) v =
    scan_used-IsConserved 65536 u (record { rx = rx; notify_device = false; enqueued = false }) t v
      honest done
QueueStep-IsConserved (release {rx} d) v = release-IsConserved d rx v
QueueStep-IsConserved (poll {rx}) v = poll-IsConserved rx v

pub Reaches-IsConserved : {rx rx' : RxQueue} → Reaches rx rx' → IsConserved rx → IsConserved rx'
Reaches-IsConserved here v = v
Reaches-IsConserved (after step rest) v = Reaches-IsConserved rest (QueueStep-IsConserved step v)

pub prepare_rx-IsConserved :
    (rx : RxQueue)
    → IsQueue (virtio_net_prepare_rx rx)
    → rx.queue_size ≤ 256
    → IsConserved (virtio_net_prepare_rx rx)
unfolding virtio_net_prepare_rx
prepare_rx-IsConserved rx v small = record {
  well = v;
  every = omega (arith, small);
  known = nothing;
}

-- After the receive queue was prepared, however interrupts, releases and polls follow one another, no
-- buffer is lost: those with the device and those in the completion queue make up the whole queue.
-- On a board whose device has that queue, is usable and is counted, a peek refuses only an empty
-- completion queue, and else gives the head's frame, in a buffer of the queue. The size is between 1
-- and 256, the arrays have 256 entries, and the device follows the protocol.
pub virtio_net_prepare_rx_conserved :
    (rx rx' : RxQueue) (b : Board) (i : ℕ)
    → 0 < rx.queue_size
    → rx.queue_size ≤ 256
    → length rx.completions ≡ 256
    → length rx.avail.ring ≡ 256
    → Reaches (virtio_net_prepare_rx rx) rx'
    → (device b i).rx ≡ rx'
    → (device b i).tx.driver_ok ≡ true
    → i < b.device_count
    → (sub16 rx'.avail.idx rx'.last_used + rx'.count ≡ rx'.queue_size)
      × ((rx'.count ≡ 0) × (virtio_net_peek_rx_buffer_dev b (some i) ≡ none)
          ⊎ (virtio_net_peek_rx_buffer_dev b (some i)
              ≡ some (payload_length (head_entry rx').total_len, (head_entry rx').desc_id))
            × ((head_entry rx').desc_id < rx'.queue_size))
unfolding virtio_net_peek_rx_buffer_dev peek_queue
virtio_net_prepare_rx_conserved rx rx' b i pos small c r run row ok below =
    let start = prepare_rx-IsConserved rx (prepare_rx-IsQueue rx pos small c r) small in
    let v = Reaches-IsConserved run start in
    let served = served_lem i b ok below in
    elim (Bool-cases (rx'.count == 0)) [
      | inl empty ↦ (v.every, inl (ground arith, rw (served, row, empty) refl))
      | inr left ↦
          let (known, rest) = dequeue-IsConserved rx' (ground arith) v in
          let good : leb rx'.queue_size (head_entry rx').desc_id ≡ false = ground arith in
          (v.every, inr (rw (served, row, left, good) refl, known))
    ]
