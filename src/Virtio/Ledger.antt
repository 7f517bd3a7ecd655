-- ===== src/Virtio/Ledger.antt =====
-- Who holds each receive buffer of bsp/virtio_net.c, and in which order the frames are taken. Beside
-- the queue stand what the device holds (how many times each descriptor), and the completions that
-- arrived and that were taken so far.
use mathlib.Core.List.{append_assoc}
use ucosii_arm64_qemu.Prelude.{
  ℕ, zero, suc, ◌+◌, ◌-◌, ◌%◌, ◌≤◌, ◌<◌, ◌≡◌, ◌∙◌, refl, sym, ap, subst, true, false, some, List,
  [], ◌∷◌, ◌++◌, ltb, leb, ◌==◌, if◌then◌else◌, arith, u16, sub16, get_or, of_some, take, length,
  Bool-cases, inl, inr, ◌⊎◌, get_or-set_self,
}
use ucosii_arm64_qemu.Virtio.Rx.{
  Completion, Used, RxQueue, Scan, give_back, dequeue, head_entry, enqueue, scan_round, scan_used,
  virtio_net_handle_rx_used, release_queue, poll_queue,
}
use ucosii_arm64_qemu.Virtio.Fifo.{
  queued, queued-dequeue, used_completions, virtio_net_handle_rx_used_appends,
}
use ucosii_arm64_qemu.Virtio.Conserve.{
  IsConserved, Obeys, QueueStep, QueueStep-IsConserved, dequeue-IsConserved,
}

-- How many of the entries name a descriptor.
unfoldable pub uses : ℕ → List Completion → ℕ
uses d [] = 0
uses d (c ∷ cs) = if c.desc_id == d then suc (uses d cs) else uses d cs

uses-cons :
    (d : ℕ) (c : Completion) (cs : List Completion)
    → uses d (c ∷ cs) ≡ (if c.desc_id == d then 1 else 0) + uses d cs
unfolding uses
uses-cons d c cs = ground arith

uses-append : (d : ℕ) (s t : List Completion) → uses d (s ++ t) ≡ uses d s + uses d t
unfolding uses
uses-append d [] t = omega arith
uses-append d (c ∷ s) t = ground (arith, uses-append d s t)

-- What the device reports between the two indices.
abbrev pub device_reports : Used → RxQueue → List Completion
device_reports u rx = used_completions u rx.queue_size rx.last_used (sub16 u.idx rx.last_used)

-- The slot of the available ring that the driver filled, if its index moved.
abbrev pub offered : RxQueue → RxQueue → ℕ → ℕ
offered rx rx' d =
    if rx'.avail.idx == rx.avail.idx
    then 0
    else if get_or rx'.avail.ring (rx.avail.idx % rx.queue_size) 0 == d
    then 1
    else 0

pub record Ledger : Type 0 where
  pub rx : RxQueue
  pub with_device : ℕ → ℕ
  pub arrived : List Completion
  pub taken : List Completion

-- The interrupt takes from the device what it reports, which it holds; a release or a poll gives it
-- what stands in the available ring, and takes the head of the completion queue where that moved.
pub data LedgerStep : Ledger → Ledger → Type 0 where
  interrupt :
      {l : Ledger} (u : Used) (t : Scan)
      → Obeys u l.rx
      → virtio_net_handle_rx_used u l.rx ≡ some t
      → ((d : ℕ) → uses d (device_reports u l.rx) ≤ l.with_device d)
      → LedgerStep l (record l {
        rx = t.rx;
        with_device = λ d. l.with_device d - uses d (device_reports u l.rx);
        arrived = l.arrived ++ device_reports u l.rx;
      })
  driver :
      {l : Ledger} (rx' : RxQueue)
      → ((d : ℕ) × (rx' ≡ release_queue d l.rx)) ⊎ (rx' ≡ (poll_queue l.rx).0)
      → LedgerStep l (record l {
        rx = rx';
        with_device = λ d. l.with_device d + offered l.rx rx' d;
        taken = if rx'.count == l.rx.count then l.taken else l.taken ++ head_entry l.rx ∷ [];
      })

pub data Run : Ledger → Ledger → Type 0 where
  here : {l : Ledger} → Run l l
  after : {l l' l'' : Ledger} → LedgerStep l l' → Run l' l'' → Run l l''

-- Each descriptor of the queue is in one place, and what arrived was taken or waits, in order.
pub record IsBalanced (n : ℕ) (l : Ledger) : Type 0 where
  pub conserved : IsConserved l.rx
  pub size : l.rx.queue_size ≡ n
  pub one_place : (d : ℕ) → l.with_device d + uses d (queued l.rx) ≡ (if ltb d n then 1 else 0)
  pub in_order : l.taken ++ queued l.rx ≡ l.arrived

-- What a release or a poll does: nothing, or the full step with the head.
driver_cases {ℓ} :
    (P : RxQueue → Type ℓ) (rx rx' : RxQueue)
    → IsConserved rx
    → ((d : ℕ) × (rx' ≡ release_queue d rx)) ⊎ (rx' ≡ (poll_queue rx).0)
    → P rx
    → (0 < rx.count
        → P (record (dequeue rx) {
          avail = give_back rx.queue_size (head_entry rx).desc_id rx.avail;
        }))
    → P rx'
unfolding release_queue poll_queue
driver_cases P rx rx' v (inl (d, e)) same moved =
    subst P (sym e) (elim (Bool-cases (rx.count == 0)) [
      | inl empty ↦ rw (release_queue, empty) same
      | inr left ↦ elim (Bool-cases ((head_entry rx).desc_id == d)) [
        | inr other ↦ rw (release_queue, left, other) same
        | inl hit ↦
            let is_head : d ≡ (head_entry rx).desc_id = ground arith in
            rw (release_queue, left, hit, is_head) (moved (ground arith))
      ]
    ])
driver_cases P rx rx' v (inr e) same moved = subst P (sym e) (elim (Bool-cases (rx.count == 0)) [
  | inl empty ↦ rw (poll_queue, empty) same
  | inr left ↦
      let (known, rest) = dequeue-IsConserved rx (ground arith) v in
      let good : leb rx.queue_size (head_entry rx).desc_id ≡ false = ground arith in
      rw (poll_queue, left, good) (moved (ground arith))
])

used_completions-length : (u : Used) (size last n : ℕ) → length (used_completions u size last n) ≤ n
unfolding used_completions
used_completions-length u size last zero = omega arith
used_completions-length u size last (suc n) =
    ground (arith, used_completions-length u size (u16 (last + 1)) n)

take_all : (n : ℕ) (cs : List Completion) → length cs ≤ n → take n cs ≡ cs
take_all zero [] h = refl
take_all zero (c ∷ cs) h = absurd (omega arith)
take_all (suc n) [] h = refl
take_all (suc n) (c ∷ cs) h = ap (λ l. c ∷ l) (take_all n cs (omega arith))

scan_round-size : (u : Used) (s : Scan) → (scan_round u s).rx.queue_size ≡ s.rx.queue_size
unfolding scan_round enqueue
scan_round-size u s = ground arith

scan_used-size :
    (fuel : ℕ) (u : Used) (s t : Scan)
    → scan_used fuel u s ≡ some t
    → t.rx.queue_size ≡ s.rx.queue_size
unfolding scan_used
scan_used-size zero u s t e = absurd (cc)
scan_used-size (suc fuel) u s t e = elim (Bool-cases (s.rx.last_used == u.idx)) [
  | inl done ↦ ap (λ x. x.rx.queue_size) (of_some t s (sym (rw done at e)))
  | inr more ↦ scan_used-size fuel u (scan_round u s) t (rw more at e) ∙ scan_round-size u s
]

handle-size :
    (u : Used) (rx : RxQueue) (t : Scan)
    → virtio_net_handle_rx_used u rx ≡ some t
    → t.rx.queue_size ≡ rx.queue_size
unfolding virtio_net_handle_rx_used
handle-size u rx t e =
    scan_used-size 65536 u (record { rx = rx; notify_device = false; enqueued = false }) t e

-- With an honest device all that it reports is queued.
handle-queued :
    (u : Used) (rx : RxQueue) (t : Scan)
    → IsConserved rx
    → Obeys u rx
    → virtio_net_handle_rx_used u rx ≡ some t
    → queued t.rx ≡ queued rx ++ device_reports u rx
handle-queued u rx t v honest done =
    virtio_net_handle_rx_used_appends u rx t honest.idx_in v.well done
    ∙ ap (λ l. queued rx ++ l)
        (take_all (rx.queue_size - rx.count) (device_reports u rx) (
          omega (
            arith,
            used_completions-length u rx.queue_size rx.last_used (sub16 u.idx rx.last_used),
            v.every,
            honest.offered,
          )))

abbrev moved_to : Ledger → RxQueue → Ledger
moved_to l rx' = record l {
  rx = rx';
  with_device = λ d. l.with_device d + offered l.rx rx' d;
  taken = if rx'.count == l.rx.count then l.taken else l.taken ++ head_entry l.rx ∷ [];
}

driver_same : (n : ℕ) (l : Ledger) → IsBalanced n l → IsBalanced n (moved_to l l.rx)
driver_same n l b =
    let count : (l.rx.count == l.rx.count) ≡ true = ground arith in
    let idx : (l.rx.avail.idx == l.rx.avail.idx) ≡ true = ground arith in
    rw (count, idx)
      (record {
        conserved = b.conserved;
        size = b.size;
        one_place = λ d. omega (arith, b.one_place d);
        in_order = b.in_order;
      })

driver_moved :
    (n : ℕ) (l : Ledger)
    → IsBalanced n l
    → 0 < l.rx.count
    → IsBalanced n (
        moved_to l (record (dequeue l.rx) {
          avail = give_back l.rx.queue_size (head_entry l.rx).desc_id l.rx.avail;
        }))
unfolding dequeue give_back uses
driver_moved n l b some_left =
    let v = b.conserved.well in
    let id = (head_entry l.rx).desc_id in
    let split = queued-dequeue l.rx v some_left in
    let count : (l.rx.count - 1 == l.rx.count) ≡ false = ground arith in
    let idx : (u16 (l.rx.avail.idx + 1) == l.rx.avail.idx) ≡ false = ground (arith, v.avail_in) in
    let slot =
      get_or-set_self l.rx.avail.ring (l.rx.avail.idx % l.rx.queue_size) id 0
        (omega (arith, v.avail_ring, v.size_max, v.size_pos)) in
    rw (count, idx, slot)
      (record {
        conserved = (dequeue-IsConserved l.rx some_left b.conserved).1;
        size = b.size;
        one_place = λ d. omega (
          arith,
          rw split at (b.one_place d),
          uses-cons d (head_entry l.rx) (queued (dequeue l.rx)),
        );
        in_order =
            append_assoc l.taken (head_entry l.rx ∷ []) _
            ∙ ap (λ x. l.taken ++ x) (sym split)
            ∙ b.in_order;
      })

LedgerStep-IsBalanced : {n : ℕ} {l l' : Ledger} → LedgerStep l l' → IsBalanced n l → IsBalanced n l'
LedgerStep-IsBalanced {n} (interrupt {l} u t honest done holds) b =
    let q = handle-queued u l.rx t b.conserved honest done in
    record {
      conserved = QueueStep-IsConserved (QueueStep.interrupt u t honest done) b.conserved;
      size = handle-size u l.rx t done ∙ b.size;
      one_place = λ d. rw q (
          omega
            (arith, uses-append d (queued l.rx) (device_reports u l.rx), b.one_place d, holds d));
      in_order = rw q (
          sym (append_assoc l.taken (queued l.rx) (device_reports u l.rx))
          ∙ ap (λ x. x ++ device_reports u l.rx) b.in_order);
    }
LedgerStep-IsBalanced {n} (driver {l} rx' what) b =
    driver_cases (λ r. IsBalanced n (moved_to l r)) l.rx rx' b.conserved what (driver_same n l b)
      (driver_moved n l b)

pub Run-IsBalanced : {n : ℕ} {l l' : Ledger} → Run l l' → IsBalanced n l → IsBalanced n l'
Run-IsBalanced here b = b
Run-IsBalanced (after step rest) b = Run-IsBalanced rest (LedgerStep-IsBalanced step b)
