-- ===== src/Virtio/Wait.antt =====
-- The waits for a frame in bsp/virtio_net.c: virtio_net_wait_rx_dev and virtio_net_wait_rx_any, on the
-- semaphore or, where there is none, by polling.
use ucosii_arm64_qemu.Prelude.{
  ℕ, zero, suc, ◌+◌, ◌*◌, ◌/◌, Bool, true, false, Option, none, some, ltb, leb, ◌==◌, if◌then◌else◌,
  u32, sub32,
}
use ucosii_arm64_qemu.Sem.{os_sem_pend}
use ucosii_arm64_qemu.Virtio.Rx.{queue_pending}
use ucosii_arm64_qemu.Virtio.Board.{Board, World, device}
use ucosii_arm64_qemu.Virtio.Interrupt.{virtio_net_has_pending_rx}

-- OSTimeGet and OSTimeDly, and what interrupts and other tasks do to the driver while OSSemPend has
-- the task wait.
pub record Clock : Type 0 where
  pub time_get : Board → ℕ
  pub time_dly : ℕ → Board → Board
  pub meanwhile : Board → Board

unfoldable pub virtio_ms_to_ticks : ℕ → ℕ
virtio_ms_to_ticks timeout_ms =
    let ticks = u32 (timeout_ms * 1000 + 999) / 1000 in
    if timeout_ms == 0 then 0 else if ticks == 0 then 1 else ticks

-- A device whose index is not below the count is not found.
unfoldable pub virtio_net_has_pending_rx_dev : ℕ → Board → Bool
virtio_net_has_pending_rx_dev dev_idx b =
    if leb b.device_count dev_idx then false else queue_pending (device b dev_idx).rx

-- The loop without a timeout, and the one with it. `none` if the fuel runs out.
unfoldable pub poll_forever : ℕ → Clock → (Board → Bool) → Board → Option (Board × ℕ)
poll_forever zero clock pending b = none
poll_forever (suc fuel) clock pending b =
    let rest = poll_forever fuel clock pending (clock.time_dly 1 b) in
    if pending b then some (b, 0) else rest

unfoldable pub poll_until : ℕ → Clock → (Board → Bool) → ℕ → ℕ → Board → Option (Board × ℕ)
poll_until zero clock pending start timeout_ticks b = none
poll_until (suc fuel) clock pending start timeout_ticks b =
    let rest = poll_until fuel clock pending start timeout_ticks (clock.time_dly 1 b) in
    if ltb (sub32 (clock.time_get b) start) timeout_ticks
    then if pending b then some (b, 0) else rest
    else some (b, 10)

-- Where there is no semaphore: forever, or until the timeout.
unfoldable pub poll_rx : ℕ → Clock → (Board → Bool) → ℕ → Board → Option (Board × ℕ)
unfolding poll_forever poll_until
poll_rx fuel clock pending timeout_ms b =
    let ticks = virtio_ms_to_ticks timeout_ms in
    if timeout_ms == 0
    then poll_forever fuel clock pending b
    else poll_until fuel clock pending (clock.time_get b) (if ticks == 0 then 1 else ticks) b

unfoldable pub pend_rx : World → Clock → ℕ → ℕ → Board → Option (Board × ℕ)
pend_rx w clock sem timeout_ms b =
    let (os', err) = os_sem_pend w.kernel true (some sem) (virtio_ms_to_ticks timeout_ms) b.os in
    elim err [ none ↦ none | some e ↦ some (clock.meanwhile (record b { os = os' }), e) ]

unfoldable pub wait_rx :
    ℕ → World → Clock → Option ℕ → (Board → Bool) → ℕ → Board → Option (Board × ℕ)
unfolding poll_rx pend_rx
wait_rx fuel w clock none pending timeout_ms b = poll_rx fuel clock pending timeout_ms b
wait_rx fuel w clock (some sem) pending timeout_ms b = pend_rx w clock sem timeout_ms b

-- The board and the error code after the wait: OS_ERR_NONE is 0, OS_ERR_PEVENT_NULL 4, OS_ERR_TIMEOUT 10.
unfoldable pub virtio_net_wait_rx_dev :
    ℕ → World → Clock → Option ℕ → ℕ → Board → Option (Board × ℕ)
unfolding wait_rx
virtio_net_wait_rx_dev fuel w clock none timeout_ms b = some (b, 4)
virtio_net_wait_rx_dev fuel w clock (some dev_idx) timeout_ms b =
    wait_rx fuel w clock (device b dev_idx).rx_sem (virtio_net_has_pending_rx_dev dev_idx)
      timeout_ms b

unfoldable pub virtio_net_wait_rx_any : ℕ → World → Clock → ℕ → Board → Option (Board × ℕ)
unfolding wait_rx
virtio_net_wait_rx_any fuel w clock timeout_ms b =
    wait_rx fuel w clock b.rx_global_sem virtio_net_has_pending_rx timeout_ms b
