-- ===== src/Net/Stuck.antt =====
-- Where the receive task of src/net_demo.c stops: a frame without a payload.
use ucosii_arm64_qemu.Prelude.{
  ℕ, suc, ◌-◌, ◌≤◌, ◌<◌, ◌≡◌, ◌∙◌, refl, sym, ap, subst, true, false, some, List, ◌∷◌, ◌++◌, ltb,
  leb, ◌==◌, arith, sub16, take, Bool-cases, inl, inr,
}
use ucosii_arm64_qemu.Virtio.Rx.{
  Completion, Used, RxQueue, Scan, head_entry, payload_length, queue_pending, peek_queue,
  virtio_net_handle_rx_used,
}
use ucosii_arm64_qemu.Virtio.Receive.{IsQueue, virtio_net_handle_rx_used_done}
use ucosii_arm64_qemu.Virtio.Fifo.{
  entries, queued, queued-dequeue, used_completions, virtio_net_handle_rx_used_appends,
}
use ucosii_arm64_qemu.Net.Frame.{Side}
use ucosii_arm64_qemu.Net.Task.{Env, Burst, peeked, rx_burst}

head_of :
    (rx : RxQueue) (c : Completion) (cs : List Completion)
    → IsQueue rx
    → queued rx ≡ c ∷ cs
    → (0 < rx.count) × (head_entry rx ≡ c)
head_of rx c cs v e = elim (Bool-cases (rx.count == 0)) [
  | inl idle ↦
      let zero_left : rx.count ≡ 0 = ground arith in
      let empty = ap (entries rx.completions rx.queue_size rx.head) zero_left in absurd (cc)
  | inr busy ↦
      let left : 0 < rx.count = ground arith in let split = queued-dequeue rx v left in (left, cc)
]

stays :
    (rx : RxQueue) (u : Used) (t : Scan)
    → u.idx < 65536
    → IsQueue rx
    → 0 < rx.count
    → virtio_net_handle_rx_used u rx ≡ some t
    → IsQueue t.rx
    → (0 < t.rx.count) × (head_entry t.rx ≡ head_entry rx)
stays rx u t small v left done v' = head_of t.rx (head_entry rx) _ v' (
    virtio_net_handle_rx_used_appends u rx t small v done
    ∙ ap
        (λ l.
          l
          ++ take (rx.queue_size - rx.count)
              (used_completions u rx.queue_size rx.last_used (sub16 u.idx rx.last_used)))
        (queued-dequeue rx v left))

at_once :
    (fuel : ℕ) (env : Env) (side : Side) (b : Burst)
    → 0 < b.rx.count
    → (head_entry b.rx).total_len ≤ 12
    → rx_burst (suc fuel) env side b ≡ some b
unfolding rx_burst peeked peek_queue queue_pending payload_length
at_once fuel env side b left short =
    let busy : (b.rx.count == 0) ≡ false = ground arith in
    let pending : ltb 0 b.rx.count ≡ true = ground arith in
    let bare : ltb 12 (head_entry b.rx).total_len ≡ false = ground arith in
    elim (Bool-cases (leb b.rx.queue_size (head_entry b.rx).desc_id)) [
      | inl bad ↦ rw (busy, pending, bad) refl
      | inr good ↦ rw (busy, pending, good, bare) refl
    ]

-- On a well-formed queue whose oldest frame has no payload the burst ends at once and leaves all as
-- it was. An interrupt in between adds to the queue and keeps that frame the oldest.
pub rx_burst_stuck :
    (fuel : ℕ) (env : Env) (side : Side) (b : Burst) (u : Used)
    → IsQueue b.rx
    → 0 < b.rx.count
    → (head_entry b.rx).total_len ≤ 12
    → u.idx < 65536
    → (rx_burst (suc fuel) env side b ≡ some b)
      × ((t : Scan) × (virtio_net_handle_rx_used u b.rx ≡ some t)
          × IsQueue t.rx
          × (0 < t.rx.count)
          × ((head_entry t.rx).total_len ≤ 12))
rx_burst_stuck fuel env side b u v left short small =
    let (t, done, v', at) = virtio_net_handle_rx_used_done u b.rx small v in
    let (left', same) = stays b.rx u t small v left done v' in
    (
      at_once fuel env side b left short,
      (t, done, v', left', subst (λ c. c.total_len ≤ 12) (sym same) short),
    )
