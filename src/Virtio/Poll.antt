-- ===== src/Virtio/Poll.antt =====
-- The waits of bsp/virtio_net.c for a frame of one device end, and what their result says.
use ucosii_arm64_qemu.Prelude.{
  if◌then◌else◌, ◌≢◌, bit_or, Option-cases, ℕ, zero, suc, ◌+◌, ◌-◌, ◌^◌, ◌≤◌, ◌<◌, ◌≡◌, ◌∙◌, ◌⊎◌,
  refl, ap, subst, sym, Bool, true, false, Option, none, some, ltb, ◌==◌, arith, u32, sub32,
  Bool-cases, inl, inr,
}
use ucosii_arm64_qemu.Sem.{Os, Kernel, event_at, set_cnt, woken, os_sem_pend}
use ucosii_arm64_qemu.Virtio.Board.{Board, World, device}
use ucosii_arm64_qemu.Virtio.Wait.{
  Clock, virtio_ms_to_ticks, virtio_net_has_pending_rx_dev, poll_until, poll_rx, wait_rx, pend_rx,
  virtio_net_wait_rx_dev,
}

-- The clock is a uint32_t of ticks, and a delay of one tick ends after at least one tick and before
-- the clock has gone round.
pub record Ticks (clock : Clock) : Type 0 where
  pub word : (b : Board) → clock.time_get b < 2 ^ 32
  pub passes :
      (b : Board)
      → (k : ℕ) × (0 < k)
        × (k ≤ 4294901760)
        × (clock.time_get (clock.time_dly 1 b) ≡ u32 (clock.time_get b + k))

-- The board after so many delays of one tick.
unfoldable pub delayed : Clock → ℕ → Board → Board
delayed clock zero b = b
delayed clock (suc n) b = delayed clock n (clock.time_dly 1 b)

-- How a wait with a timeout ends: after `k` delays, before which nothing was pending, with a frame or
-- with the time over.
pub Ends : Clock → (Board → Bool) → ℕ → ℕ → ℕ → Board → Option (Board × ℕ) → Type 0
Ends clock pending start ticks most b result =
    (k : ℕ) × (k ≤ most)
    × ((j : ℕ) → j < k → pending (delayed clock j b) ≡ false)
    × (((result ≡ some (delayed clock k b, 0)) × (pending (delayed clock k b) ≡ true))
        ⊎ ((result ≡ some (delayed clock k b, 10))
            × (ticks ≤ sub32 (clock.time_get (delayed clock k b)) start)))

elapsed :
    (now start k : ℕ)
    → now < 2 ^ 32
    → start < 2 ^ 32
    → sub32 now start < 65536
    → k ≤ 4294901760
    → sub32 (u32 (now + k)) start ≡ sub32 now start + k
elapsed now start k n s small most = omega arith

after_delay :
    (clock : Clock) (pending : Board → Bool) (start ticks left : ℕ) (b : Board)
    (result : Option (Board × ℕ))
    → pending b ≡ false
    → 0 < left
    → Ends clock pending start ticks (left - 1) (clock.time_dly 1 b) result
    → Ends clock pending start ticks left b result
unfolding Ends delayed
after_delay clock pending start ticks left b result miss pos (k, most, before, end) =
    (suc k, omega arith, earlier, end)
  where
    earlier : (j : ℕ) → j < suc k → pending (delayed clock j b) ≡ false
    earlier zero below = miss
    earlier (suc j) below = before j (omega arith)

poll_until-Ends :
    (fuel : ℕ) (clock : Clock) (pending : Board → Bool) (start ticks left : ℕ) (b : Board)
    → Ticks clock
    → start < 2 ^ 32
    → ticks < 65536
    → ticks ≤ sub32 (clock.time_get b) start + left
    → left < fuel
    → Ends clock pending start ticks left b (poll_until fuel clock pending start ticks b)
unfolding poll_until Ends delayed
poll_until-Ends zero clock pending start ticks left b t s small enough fuel_left =
    absurd (omega arith)
poll_until-Ends (suc fuel) clock pending start ticks left b t s small enough fuel_left =
    elim (Bool-cases (ltb (sub32 (clock.time_get b) start) ticks)) [
      | inr over ↦
          rw over (0, omega arith, λ j below. absurd (omega arith), inr (refl, ground arith))
      | inl running ↦ elim (Bool-cases (pending b)) [
        | inl hit ↦
            rw (running, hit) (0, omega arith, λ j below. absurd (omega arith), inl (refl, hit))
        | inr miss ↦
            rw (running, miss)
              (let (k, pos, most, e) = t.passes b in
                let on = elapsed (clock.time_get b) start k (t.word b) s (ground arith) most in
                after_delay clock pending start ticks left b _ miss (ground arith) (
                  poll_until-Ends fuel clock pending start ticks (left - 1) (clock.time_dly 1 b) t s
                    small (rw e (ground arith)) (ground arith)))
      ]
    ]

virtio_ms_to_ticks_lem : (ms : ℕ) → ms < 65536 → virtio_ms_to_ticks ms ≡ ms
unfolding virtio_ms_to_ticks
virtio_ms_to_ticks_lem ms h = ground arith

wait_rx-none :
    (fuel : ℕ) (w : World) (clock : Clock) (pending : Board → Bool) (ms : ℕ) (b : Board)
    → 0 < ms
    → ms < 65536
    → wait_rx fuel w clock none pending ms b ≡ poll_until fuel clock pending (clock.time_get b) ms b
unfolding wait_rx poll_rx
wait_rx-none fuel w clock pending ms b pos small =
    let timed : (ms == 0) ≡ false = ground arith in
    rw (timed, virtio_ms_to_ticks_lem ms small, timed) refl

-- The state in which a task without a unit goes to sleep for `ms` ticks.
abbrev pub asleep : ℕ → Os → Os
asleep ms s = record s { tcb_stat = bit_or s.tcb_stat 1; tcb_stat_pend = 0; tcb_dly = ms }

-- How a wait on the semaphore ends. A unit that is there is taken, with no error; without one the task
-- is put to sleep on the semaphore for `ms` ticks, and the error says whether it was woken by a post
-- (0), by the end of the time (10) or because the wait was aborted (14).
pub Pends : World → Clock → ℕ → ℕ → Board → Option (Board × ℕ) → Type 0
Pends w clock sem ms b result =
    let cnt = (event_at b.os sem).event_cnt in
    ((0 < cnt)
      × (result ≡ some (clock.meanwhile (record b { os = set_cnt sem (cnt - 1) b.os }), 0)))
    ⊎ ((cnt ≡ 0)
        × (let back = w.kernel.sched (w.kernel.event_task_wait sem (asleep ms b.os)) in
            (os' : Os) × (err : ℕ) × (result ≡ some (clock.meanwhile (record b { os = os' }), err))
            × (((back.tcb_stat_pend ≡ 0) × (err ≡ 0))
                ⊎ ((back.tcb_stat_pend ≢ 0) × ((err ≡ 10) ⊎ (err ≡ 14))))))

woken_cases {ℓ} :
    (P : Os × Option ℕ → Type ℓ) (k : Kernel) (e : ℕ) (s : Os)
    → ((os' : Os) → s.tcb_stat_pend ≡ 0 → P (os', some 0))
    → ((os' : Os) (err : ℕ) → s.tcb_stat_pend ≢ 0 → (err ≡ 10) ⊎ (err ≡ 14) → P (os', some err))
    → P (woken k e s)
unfolding woken
woken_cases P k e s posted other = elim (Bool-cases (s.tcb_stat_pend == 0)) [
  | inl ok ↦ rw ok (posted _ (ground arith))
  | inr ended ↦
      let apart : s.tcb_stat_pend ≢ 0 = λ z. ground arith in
      elim (Bool-cases ((k.event_task_remove e s).tcb_stat_pend == 1)) [
        | inl late ↦ rw (ended, late) (other _ 10 apart (inl refl))
        | inr aborted ↦ rw (ended, aborted) (other _ 14 apart (inr refl))
      ]
]

-- What pend_rx makes of the answer of OSSemPend.
abbrev answered : Clock → Board → Os × Option ℕ → Option (Board × ℕ)
answered clock b (os', err) = elim err [
  | none ↦ none
  | some e ↦ some (clock.meanwhile (record b { os = os' }), e)
]

os_sem_pend_lem :
    (k : Kernel) (e ms : ℕ) (s : Os)
    → (event_at s e).event_type ≡ 3
    → s.int_nesting ≡ 0
    → os_sem_pend k true (some e) ms s ≡ (
        if ltb 0 (event_at s e).event_cnt
        then (set_cnt e ((event_at s e).event_cnt - 1) s, some 0)
        else woken k e (k.sched (k.event_task_wait e (asleep ms s))))
unfolding os_sem_pend
os_sem_pend_lem k e ms s kind outside =
    let is_sem : ((event_at s e).event_type == 3) ≡ true = ground arith in
    let awake : ltb 0 s.int_nesting ≡ false = ground arith in rw (is_sem, awake) refl

pend_rx-Pends :
    (w : World) (clock : Clock) (sem ms : ℕ) (b : Board)
    → (event_at b.os sem).event_type ≡ 3
    → b.os.int_nesting ≡ 0
    → ms < 65536
    → Pends w clock sem ms b (pend_rx w clock sem ms b)
unfolding pend_rx Pends
pend_rx-Pends w clock sem ms b kind outside small =
    let cnt = (event_at b.os sem).event_cnt in
    let back = w.kernel.sched (w.kernel.event_task_wait sem (asleep ms b.os)) in
    let owed = λ (r : Os × Option ℕ). Pends w clock sem ms b (answered clock b r) in
    let pended =
      ap (λ t. os_sem_pend w.kernel true (some sem) t b.os) (virtio_ms_to_ticks_lem ms small)
      ∙ os_sem_pend_lem w.kernel sem ms b.os kind outside in
    subst owed (sym pended) (elim (Bool-cases (ltb 0 cnt)) [
      | inl unit ↦ rw unit (inl (ground arith, refl))
      | inr empty ↦ rw empty (
          woken_cases owed w.kernel sem back
            (λ os' z. inr (ground arith, (os', 0, refl, inl (z, refl))))
            (λ os' err z why. inr (ground arith, (os', err, refl, inr (z, why)))))
    ])

-- The wait with a timeout always ends. Without a semaphore it ends after at most as many delays as the
-- timeout has milliseconds: with no error at the first board on which the device has a frame, or with a
-- timeout when that many ticks have passed and none of the boards before had a frame. With one it
-- takes a unit at once, or has the task sleep on the semaphore for as many ticks as the timeout has
-- milliseconds and gives no error if a post woke it up, and else 10 or 14. The timeout is a uint16_t, a delay of one tick takes at
-- least one and less than 2^32 - 2^16 + 1 ticks, the fuel is more than the timeout, the device's
-- semaphore, if it has one, is a semaphore, and the caller is no interrupt handler.
pub virtio_net_wait_rx_dev-Ends :
    (fuel : ℕ) (w : World) (clock : Clock) (dev_idx ms : ℕ) (b : Board)
    → Ticks clock
    → ((sem : ℕ) → (device b dev_idx).rx_sem ≡ some sem → (event_at b.os sem).event_type ≡ 3)
    → b.os.int_nesting ≡ 0
    → 0 < ms
    → ms < 65536
    → ms < fuel
    → let result = virtio_net_wait_rx_dev fuel w clock (some dev_idx) ms b in
      (((device b dev_idx).rx_sem ≡ none)
        × Ends clock (virtio_net_has_pending_rx_dev dev_idx) (clock.time_get b) ms ms b result)
      ⊎ ((sem : ℕ) × ((device b dev_idx).rx_sem ≡ some sem) × Pends w clock sem ms b result)
unfolding virtio_net_wait_rx_dev
virtio_net_wait_rx_dev-Ends fuel w clock dev_idx ms b t kind outside pos small enough =
    let pending = virtio_net_has_pending_rx_dev dev_idx in
    let either = λ (sem : Option ℕ) (same : (device b dev_idx).rx_sem ≡ sem).
      ap (λ s. wait_rx fuel w clock s pending ms b) same in
    elim (Option-cases (device b dev_idx).rx_sem) [
      | inl no_sem ↦ inl (
        no_sem,
        subst (Ends clock pending (clock.time_get b) ms ms b)
            (sym (either none no_sem ∙ wait_rx-none fuel w clock pending ms b pos small))
            (poll_until-Ends fuel clock pending (clock.time_get b) ms ms b t (t.word b) small
              (omega arith) enough),
      )
      | inr (sem, has) ↦ inr (
        sem,
        has,
        subst (Pends w clock sem ms b) (sym (either (some sem) has))
            (unfold wait_rx in pend_rx-Pends w clock sem ms b (kind sem has) outside small),
      )
    ]
