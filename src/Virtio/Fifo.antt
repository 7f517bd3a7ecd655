-- ===== src/Virtio/Fifo.antt =====
-- The completion queue of bsp/virtio_net.c as a list, oldest first: the handler appends what the
-- device has used, and the receiving task takes frames from the front.
use native.Mathlib.Nat.{mod-add-mod, mod-eq_of_lt, mod-eq-sub-mod, add-zero}
use native.Mathlib.Decide.{dec_lt}
use ucosii_arm64_qemu.Prelude.{
  ℕ, zero, suc, ◌+◌, ◌-◌, ◌%◌, ◌≤◌, ◌<◌, ◌≡◌, ◌≢◌, ◌∙◌, refl, sym, ap, true, false, some, List, [],
  ◌∷◌, ◌++◌, ltb, leb, ◌==◌, of_some, if◌then◌else◌, arith, u16, sub16, get_or, set, take, length,
  get_or-set_self, get_or-set_ne, Bool-cases, inl, inr,
}
use mathlib.Core.List.{append-nil, append_assoc}
use ucosii_arm64_qemu.Virtio.Rx.{
  Completion, Used, UsedElem, RxQueue, Scan, give_back, enqueue, used_elem, no_elem, scan_round,
  scan_used, virtio_net_handle_rx_used, release_queue, peek_queue, poll_queue, dequeue, head_entry,
  no_completion, payload_length,
}
use ucosii_arm64_qemu.Virtio.Receive.{IsQueue, scan_round-IsQueue, scan_round-last_used}

-- `n` entries of the ring from index `h` on.
abbrev pub entries : List Completion → ℕ → ℕ → ℕ → List Completion
entries ring size h zero = []
entries ring size h (suc n) = get_or ring h no_completion ∷ entries ring size ((h + 1) % size) n

abbrev pub queued : RxQueue → List Completion
queued rx = entries rx.completions rx.queue_size rx.head rx.count

-- The position `n` places on is not the start before a whole turn.
turn-ne : (size h n : ℕ) → h < size → 0 < n → n < size → (h + n) % size ≢ h
turn-ne size h n p q r = elim (dec_lt (h + n) size) [
  | yes before ↦ omega (arith, mod-eq_of_lt before)
  | no past ↦ omega (
    arith,
    mod-eq-sub-mod {n = h + n} {m = size} (omega arith),
    mod-eq_of_lt {n = h + n - size} {m = size} (omega arith),
  )
]

entries-set :
    (ring : List Completion) (size h n k : ℕ) (c : Completion)
    → size ≤ length ring
    → h < size
    → n < size
    → k ≡ (h + n) % size
    → entries (set ring k c) size h (suc n) ≡ entries ring size h n ++ c ∷ []
entries-set ring size h zero k c p q r e =
    let here : k ≡ h = e ∙ ap (λ j. j % size) (add-zero h) ∙ mod-eq_of_lt q in
    rw (here, get_or-set_self ring h c no_completion (omega arith))
entries-set ring size h (suc n) k c p q r e =
    rw (get_or-set_ne ring k h c no_completion (rw e (turn-ne size h (suc n) q (omega arith) r))) (
      ap (λ l. get_or ring h no_completion ∷ l)
        (entries-set ring size ((h + 1) % size) n k c p (omega arith) (omega arith) (e ∙ shifted)))
  where
    shifted : (h + suc n) % size ≡ ((h + 1) % size + n) % size
    shifted = rw mod-add-mod (ap (λ k. k % size) (omega arith))

-- Enqueueing appends to the list, and dequeueing drops its first entry.
pub queued-enqueue :
    (c : Completion) (rx : RxQueue)
    → IsQueue rx
    → rx.count < rx.queue_size
    → queued (enqueue c rx) ≡ queued rx ++ c ∷ []
unfolding enqueue
queued-enqueue c rx v h =
    let one : u16 (rx.count + 1) ≡ suc rx.count = omega (arith, v.size_max) in
    rw one (
      entries-set rx.completions rx.queue_size rx.head rx.count rx.tail c v.storage v.head_in h
        v.tail_at)

pub queued-dequeue :
    (rx : RxQueue) → IsQueue rx → 0 < rx.count → queued rx ≡ head_entry rx ∷ queued (dequeue rx)
unfolding dequeue
queued-dequeue rx v h =
    let pred : rx.count ≡ suc (rx.count - 1) = omega arith in
    let fits : u16 ((rx.head + 1) % rx.queue_size) ≡ (rx.head + 1) % rx.queue_size =
      omega (arith, v.size_pos, v.size_max) in
    ap (entries rx.completions rx.queue_size rx.head) pred
    ∙ ap (λ k. head_entry rx ∷ entries rx.completions rx.queue_size k (rx.count - 1)) (sym fits)

-- What the device has used: `n` elements of its ring from index `last` on, those of them with a
-- descriptor of the queue.
abbrev pub completion : UsedElem → Completion
completion e = record { desc_id = u16 e.id; total_len = e.len }

unfoldable pub used_completions : Used → ℕ → ℕ → ℕ → List Completion
used_completions u size last zero = []
used_completions u size last (suc n) =
    let e = get_or u.ring (last % size) no_elem in
    let rest = used_completions u size (u16 (last + 1)) n in
    if leb size (u16 e.id) then rest else completion e ∷ rest

take-nil : (n : ℕ) → take {A = Completion} n [] ≡ []
take-nil zero = refl
take-nil (suc n) = refl

take-room :
    (size count : ℕ) (c : Completion) (rest : List Completion)
    → count < size
    → size ≤ 256
    → take (size - count) (c ∷ rest) ≡ c ∷ take (size - u16 (count + 1)) rest
take-room size count c rest h k =
    let step : size - count ≡ suc (size - u16 (count + 1)) = omega arith in rw step refl

-- One round takes one element of the used ring, if there is room for it.
scan_round-queued :
    (n : ℕ) (u : Used) (s : Scan)
    → IsQueue s.rx
    → let r = scan_round u s in
      queued r.rx
        ++ take (r.rx.queue_size - r.rx.count) (used_completions u r.rx.queue_size r.rx.last_used n)
      ≡ queued s.rx
        ++ take
            (s.rx.queue_size - s.rx.count)
            (used_completions u s.rx.queue_size s.rx.last_used (suc n))
unfolding scan_round used_completions
scan_round-queued n u s v = elim (Bool-cases (leb s.rx.queue_size (u16 (used_elem u s.rx).id))) [
  | inl bad ↦ rw (scan_round, bad) refl
  | inr good ↦ elim (Bool-cases (leb s.rx.queue_size s.rx.count)) [
    | inl full ↦
        let none_left : s.rx.queue_size - s.rx.count ≡ 0 = ground arith in
        rw (scan_round, good, full) (rw none_left refl)
    | inr room ↦ rw (scan_round, good, room) (taken room)
  ]
]
  where
    rest : List Completion
    rest = used_completions u s.rx.queue_size (u16 (s.rx.last_used + 1)) n

    new : Completion
    new = completion (used_elem u s.rx)

    taken :
        leb s.rx.queue_size s.rx.count ≡ false
        → queued (enqueue new s.rx) ++ take (s.rx.queue_size - u16 (s.rx.count + 1)) rest
          ≡ queued s.rx ++ take (s.rx.queue_size - s.rx.count) (new ∷ rest)
    taken room =
        ap (λ q. q ++ take (s.rx.queue_size - u16 (s.rx.count + 1)) rest)
          (queued-enqueue new s.rx v (ground arith))
        ∙ append_assoc (queued s.rx) (new ∷ []) _
        ∙ ap (λ q. queued s.rx ++ q)
            (sym (take-room s.rx.queue_size s.rx.count new rest (ground arith) v.size_max))

-- The scan appends what there is room for.
scan_used-queued :
    (n fuel : ℕ) (u : Used) (s t : Scan)
    → u.idx < 65536
    → sub16 u.idx s.rx.last_used ≡ n
    → IsQueue s.rx
    → scan_used fuel u s ≡ some t
    → queued t.rx
      ≡ queued s.rx
        ++ take (s.rx.queue_size - s.rx.count) (used_completions u s.rx.queue_size s.rx.last_used n)
unfolding scan_used used_completions
scan_used-queued n zero u s t h e v done = absurd (cc)
scan_used-queued zero (suc fuel) u s t h e v done =
    let same : (s.rx.last_used == u.idx) ≡ true = ground (arith, v.last_used_in) in
    let here : t ≡ s = of_some t s (sym done ∙ rw same refl) in
    rw (here, take-nil (s.rx.queue_size - s.rx.count), append-nil) refl
scan_used-queued (suc n) (suc fuel) u s t h e v done =
    let more : (s.rx.last_used == u.idx) ≡ false = ground arith in
    (scan_used-queued n fuel u (scan_round u s) t h
      (omega (arith, scan_round-last_used u s, v.last_used_in)) (scan_round-IsQueue u s v)
      (rw more at done))
    ∙ scan_round-queued n u s v

-- What the interrupt handler finds in the used ring is appended to a well-formed completion queue in
-- the ring's order, as far as the queue has room; elements with a descriptor out of range are skipped.
pub virtio_net_handle_rx_used_appends :
    (u : Used) (rx : RxQueue) (t : Scan)
    → u.idx < 65536
    → IsQueue rx
    → virtio_net_handle_rx_used u rx ≡ some t
    → queued t.rx
      ≡ queued rx
        ++ take
            (rx.queue_size - rx.count)
            (used_completions u rx.queue_size rx.last_used (sub16 u.idx rx.last_used))
unfolding virtio_net_handle_rx_used
virtio_net_handle_rx_used_appends u rx t h v done =
    scan_used-queued (sub16 u.idx rx.last_used) 65536 u
      (record { rx = rx; notify_device = false; enqueued = false }) t h refl v done

-- A peek that answers means a head entry within the queue; its release is the full step.
pub peek_inv :
    (rx : RxQueue) (len d : ℕ)
    → peek_queue rx ≡ some (len, d)
    → (0 < rx.count)
      × (d < rx.queue_size)
      × ((head_entry rx).desc_id ≡ d)
      × (len ≡ payload_length (head_entry rx).total_len)
unfolding peek_queue
peek_inv rx len d peeked = ground arith

release_step :
    (rx : RxQueue) (d : ℕ)
    → 0 < rx.count
    → (head_entry rx).desc_id ≡ d
    → release_queue d rx ≡ record (dequeue rx) { avail = give_back rx.queue_size d rx.avail }
unfolding release_queue
release_step rx d h e = ground arith

-- In a well-formed queue, a frame that is peeked at is the oldest one; releasing its descriptor takes
-- exactly it off the queue and puts the descriptor in the next slot of the available ring.
virtio_net_peek-release :
    (rx : RxQueue) (len d : ℕ)
    → IsQueue rx
    → peek_queue rx ≡ some (len, d)
    → let rx' = release_queue d rx in
      (queued rx ≡ head_entry rx ∷ queued rx')
      × ((head_entry rx).desc_id ≡ d)
      × (len ≡ payload_length (head_entry rx).total_len)
      × (rx'.avail.idx ≡ u16 (rx.avail.idx + 1))
      × (get_or rx'.avail.ring (rx.avail.idx % rx.queue_size) 0 ≡ d)
unfolding give_back
virtio_net_peek-release rx len d v peeked =
    let (left, d_in, same, len_is) = peek_inv rx len d peeked in
    rw (release_step rx d left same) (
      queued-dequeue rx v left,
      same,
      len_is,
      refl,
      get_or-set_self rx.avail.ring (rx.avail.idx % rx.queue_size) d 0
          (omega (arith, v.avail_ring, v.size_max, v.size_pos)),
    )

-- Polling a frame leaves the queue as peeking at it and releasing it would, and reports its length.
pub virtio_net_poll-peek_release :
    (rx : RxQueue) (len d : ℕ)
    → peek_queue rx ≡ some (len, d)
    → poll_queue rx ≡ (release_queue d rx, some (if ltb 0 len then 1 else 0, len))
unfolding poll_queue
virtio_net_poll-peek_release rx len d peeked =
    let (left, d_in, same, len_is) = peek_inv rx len d peeked in
    rw (release_step rx d left same) (ground arith)

-- A release that names another descriptor than the oldest frame's changes nothing.
pub virtio_net_release_other :
    (rx : RxQueue) (d : ℕ) → (head_entry rx).desc_id ≢ d → release_queue d rx ≡ rx
unfolding release_queue
virtio_net_release_other rx d h = ground arith
