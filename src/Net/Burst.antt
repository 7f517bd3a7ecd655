-- ===== src/Net/Burst.antt =====
-- What a burst of net_rx_task in src/net_demo.c does with the frames that wait.
use mathlib.Core.List.{append-nil, append_assoc}
use ucosii_arm64_qemu.Prelude.{
  ℕ, zero, suc, ◌-◌, ◌<◌, ◌≡◌, ◌∙◌, refl, sym, ap, subst, true, false, some, List, [], ◌∷◌, ◌++◌,
  ltb, leb, ◌==◌, arith, Bool-cases, inl, inr,
}
use ucosii_arm64_qemu.Virtio.Rx.{
  Completion, RxQueue, give_back, dequeue, head_entry, payload_length, queue_pending, peek_queue,
  release_queue,
}
use ucosii_arm64_qemu.Virtio.Fifo.{entries, queued, queued-dequeue}
use ucosii_arm64_qemu.Virtio.Conserve.{IsConserved, dequeue-IsConserved}
use ucosii_arm64_qemu.Net.Frame.{Side}
use ucosii_arm64_qemu.Net.Task.{Env, Burst, take_frame, peeked, rx_burst, process_all}

-- Every frame that waits has more than the virtio header.
pub data HasFrames : List Completion → Type 0 where
  none_left : HasFrames []
  frame :
      {c : Completion} {cs : List Completion} → 12 < c.total_len → HasFrames cs → HasFrames (c ∷ cs)

HasFrames-head :
    (c : Completion) (cs : List Completion) → HasFrames (c ∷ cs) → (12 < c.total_len) × HasFrames cs
HasFrames-head c cs (frame p rest) = (p, rest)

-- One round takes the head entry.
round_lem :
    (fuel : ℕ) (env : Env) (side : Side) (b : Burst)
    → IsConserved b.rx
    → 0 < b.rx.count
    → 12 < (head_entry b.rx).total_len
    → rx_burst (suc fuel) env side b
      ≡ rx_burst fuel env side (
          take_frame env side
            (payload_length (head_entry b.rx).total_len)
            (head_entry b.rx).desc_id
            b)
unfolding rx_burst peeked peek_queue queue_pending payload_length
round_lem fuel env side b v some_left long =
    let (known, rest) = dequeue-IsConserved b.rx some_left v in
    let left : (b.rx.count == 0) ≡ false = ground arith in
    let good : leb b.rx.queue_size (head_entry b.rx).desc_id ≡ false = ground arith in
    let pending : ltb 0 b.rx.count ≡ true = ground arith in
    let full : ltb 0 (payload_length (head_entry b.rx).total_len) ≡ true = ground arith in
    rw (left, good, full, pending) refl

idle_lem :
    (fuel : ℕ) (env : Env) (side : Side) (b : Burst)
    → b.rx.count ≡ 0
    → (rx_burst (suc fuel) env side b ≡ some b) × (queued b.rx ≡ [])
unfolding rx_burst queue_pending
idle_lem fuel env side b none_waits =
    let idle : ltb 0 b.rx.count ≡ false = ground arith in
    (rw idle refl, ap (entries b.rx.completions b.rx.queue_size b.rx.head) none_waits)

release_head :
    (rx : RxQueue)
    → IsConserved rx
    → 0 < rx.count
    → release_queue (head_entry rx).desc_id rx
      ≡ record (dequeue rx) { avail = give_back rx.queue_size (head_entry rx).desc_id rx.avail }
unfolding release_queue
release_head rx v some_left =
    let left : (rx.count == 0) ≡ false = ground arith in
    let same : ((head_entry rx).desc_id == (head_entry rx).desc_id) ≡ true = ground arith in
    rw (left, same) refl

-- What a burst owes for the frames `cs` that wait.
unfoldable pub Processes : Env → Side → List Completion → Burst → Burst → Type 0
Processes env side cs b b' =
    let (g, sent) = process_all env side cs b.taken b.gateway in
    (b'.gateway ≡ g) × (b'.sent ≡ b.sent ++ sent) × (b'.rx.count ≡ 0) × IsConserved b'.rx

abbrev took : Env → Side → Burst → Burst
took env side b =
    take_frame env side (payload_length (head_entry b.rx).total_len) (head_entry b.rx).desc_id b

after_head :
    (env : Env) (side : Side) (b : Burst)
    → IsConserved b.rx
    → 0 < b.rx.count
    → let rx' = (took env side b).rx in
      IsConserved rx' × (queued b.rx ≡ head_entry b.rx ∷ queued rx') × (rx'.count ≡ b.rx.count - 1)
unfolding take_frame dequeue
after_head env side b v some_left =
    subst
      (λ rx'.
        IsConserved rx'
        × (queued b.rx ≡ head_entry b.rx ∷ queued rx')
        × (rx'.count ≡ b.rx.count - 1))
      (sym (release_head b.rx v some_left))
      ((dequeue-IsConserved b.rx some_left v).1, queued-dequeue b.rx v.well some_left, refl)

empty_lem :
    (env : Env) (side : Side) (b : Burst)
    → IsConserved b.rx
    → b.rx.count ≡ 0
    → Processes env side [] b b
unfolding Processes process_all
empty_lem env side b v none_waits = (refl, sym (append-nil b.sent), none_waits, v)

process_next :
    (env : Env) (side : Side) (c : Completion) (cs : List Completion) (b b' : Burst)
    → Processes env side cs (take_frame env side (payload_length c.total_len) c.desc_id b) b'
    → Processes env side (c ∷ cs) b b'
unfolding Processes process_all take_frame
process_next env side c cs b b' (g, s, count, v) = (g, s ∙ append_assoc b.sent _ _, count, v)

-- A burst over a queue whose frames all have a payload takes every one of them, oldest first: the
-- gateway and the frames sent are what processing them one after another gives, the queue is empty
-- after it, and no buffer is lost. More fuel than the frames that wait is enough. No buffer of the
-- queue was lost before.
pub rx_burst-Processes :
    (fuel : ℕ) (env : Env) (side : Side) (b : Burst)
    → IsConserved b.rx
    → HasFrames (queued b.rx)
    → b.rx.count < fuel
    → (b' : Burst) × (rx_burst fuel env side b ≡ some b') × Processes env side (queued b.rx) b b'
rx_burst-Processes zero env side b v frames enough = absurd (omega arith)
rx_burst-Processes (suc fuel) env side b v frames enough = elim (Bool-cases (b.rx.count == 0)) [
  | inl idle ↦
      let none_waits : b.rx.count ≡ 0 = ground arith in
      let (same, empty) = idle_lem fuel env side b none_waits in
      (b, same, rw empty (empty_lem env side b v none_waits))
  | inr busy ↦
      let some_left : 0 < b.rx.count = ground arith in
      let (v', order, fewer) = after_head env side b v some_left in
      let (long, frames') = HasFrames-head (head_entry b.rx) _ (subst HasFrames order frames) in
      let b1 = took env side b in
      let (b', result, owed) = rx_burst-Processes fuel env side b1 v' frames' (omega arith) in
      (
        b',
        round_lem fuel env side b v some_left long ∙ result,
        subst (λ cs. Processes env side cs b b') (sym order)
            (process_next env side (head_entry b.rx) (queued b1.rx) b b' owed),
      )
]
