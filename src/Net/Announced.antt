-- ===== src/Net/Announced.antt =====
-- What a round of net_rx_task in src/net_demo.c has done when the task waits again.
use ucosii_arm64_qemu.Prelude.{
  ℕ, ◌<◌, ◌≡◌, ◌∙◌, refl, sym, ap, subst, true, [], arith, set, length, get_or-set_self, length-set,
}
use ucosii_arm64_qemu.Virtio.Rx.{RxQueue}
use ucosii_arm64_qemu.Virtio.Tx.{TxQueue}
use ucosii_arm64_qemu.Virtio.Fifo.{queued}
use ucosii_arm64_qemu.Virtio.Conserve.{IsConserved}
use ucosii_arm64_qemu.Virtio.Board.{Board, World, device, no_device}
use ucosii_arm64_qemu.Virtio.Calls.{served_lem}
use ucosii_arm64_qemu.Virtio.Wait.{Clock}
use ucosii_arm64_qemu.Net.Frame.{Side}
use ucosii_arm64_qemu.Net.Forward.{Gateway}
use ucosii_arm64_qemu.Net.Process.{iface_of}
use ucosii_arm64_qemu.Net.Task.{Env, Burst, process_all}
use ucosii_arm64_qemu.Net.Burst.{HasFrames, Processes, rx_burst-Processes}
use ucosii_arm64_qemu.Net.Round.{
  dev_of, burst_on, send_packets, flush_all, after_burst, wait_next, rx_round,
}
use ucosii_arm64_qemu.Net.Handed.{
  set_field, send_packets-Keeps, flush_all-Keeps, flush_all-tx, send_packets-tx, queue_all,
}

-- The board behind the burst, before the frames are queued.
abbrev pub released : Side → Board → RxQueue → Board
released side b rx = record b {
  devices = set b.devices (dev_of side) (record (device b (dev_of side)) { rx = rx });
}

released_tx :
    (side : Side) (b : Board) (rx : RxQueue) (j : ℕ)
    → (device (released side b rx) j).tx ≡ (device b j).tx
released_tx side b rx j = set_field (λ d. d.tx) b.devices (dev_of side) _ j refl

-- What a round of net_rx_task owes to the frames that wait on its device.
unfoldable pub Serves : (ℕ → ℕ → ℕ) → Env → Side → Board → Gateway → Board × Gateway → Type 0
Serves used env side b g (b', g') =
    let (processed, sent) = process_all env side (queued (device b (dev_of side)).rx) 0 g in
    (g' ≡ processed)
    × ((device b' (dev_of side)).rx.count ≡ 0)
    × IsConserved (device b' (dev_of side)).rx
    × ((device b' 0).tx ≡ record (queue_all used 0 0 sent (device b 0).tx) { batch_count = 0 })
    × ((device b' 1).tx ≡ record (queue_all used 0 1 sent (device b 1).tx) { batch_count = 0 })

dev_of_two : (side : Side) → dev_of side < 2
dev_of_two Side.lan = omega arith
dev_of_two Side.wan = omega arith

after_burst-Serves :
    (used : ℕ → ℕ → ℕ) (env : Env) (side : Side) (b : Board) (g : Gateway) (t : Burst)
    → b.device_count ≡ 2
    → length b.devices ≡ 2
    → Processes env side
        (queued (device b (dev_of side)).rx)
        (record { rx = (device b (dev_of side)).rx; gateway = g; sent = []; taken = 0 })
        t
    → Serves used env side b g (after_burst used side b t)
unfolding Serves Processes after_burst
after_burst-Serves used env side b g t two rows (gone, sent, empty, kept) =
    let b0 = released side b t.rx in
    let b1 = send_packets used 0 t.sent b0 in
    let queued_up = send_packets-Keeps used 0 t.sent b0 in
    let told = flush_all-Keeps b1 in
    let size : length b0.devices ≡ 2 = length-set b.devices (dev_of side) _ ∙ rows in
    let rx_is : (device (flush_all b1) (dev_of side)).rx ≡ t.rx =
      told.rx (dev_of side)
      ∙ queued_up.rx (dev_of side)
      ∙ ap (λ d. d.rx)
          (get_or-set_self b.devices (dev_of side) _ no_device (omega (arith, dev_of_two side))) in
    let (flushed0, flushed1) = flush_all-tx b1 (queued_up.count ∙ two) (queued_up.size ∙ size) in
    let frames = (process_all env side (queued (device b (dev_of side)).rx) 0 g).1 in
    let behind : (j : ℕ) → j < 2 → (device b1 j).tx ≡ queue_all used 0 j frames (device b j).tx =
      λ j room.
        send_packets-tx used 0 t.sent b0 j (omega (arith, size, room))
        ∙ ap (queue_all used 0 j t.sent) (released_tx side b t.rx j)
        ∙ ap (λ ps. queue_all used 0 j ps (device b j).tx) sent in
    (
      gone,
      ap (λ r. r.count) rx_is ∙ empty,
      subst IsConserved (sym rx_is) kept,
      flushed0 ∙ ap (λ (q : TxQueue). record q { batch_count = 0 }) (behind 0 (omega arith)),
      flushed1 ∙ ap (λ (q : TxQueue). record q { batch_count = 0 }) (behind 1 (omega arith)),
    )

-- When a round of net_rx_task comes to its wait, every frame that waited on its device at the start was
-- processed, oldest first; the completion queue is empty and no buffer is lost; and each device's
-- transmit queue is the one to which the frames that the gateway sent to its side, byte for byte and
-- in their order, were offered by virtio_net_send_frame_dev, with no batch open. The interface has a
-- device, which is usable, both devices are counted, no buffer was lost before, the waiting frames
-- have a payload, and the fuel is more than their number.
pub rx_round-Serves :
    (fuel : ℕ) (w : World) (clock : Clock) (env : Env) (used : ℕ → ℕ → ℕ) (side : Side) (b : Board)
    (g : Gateway)
    → (iface_of side g).has_dev ≡ true
    → (device b (dev_of side)).tx.driver_ok ≡ true
    → b.device_count ≡ 2
    → length b.devices ≡ 2
    → IsConserved (device b (dev_of side)).rx
    → HasFrames (queued (device b (dev_of side)).rx)
    → (device b (dev_of side)).rx.count < fuel
    → (r : Board × Gateway) × (rx_round fuel w clock env used side (b, g)
        ≡ wait_next fuel w clock side r)
      × Serves used env side b g r
unfolding rx_round burst_on
rx_round-Serves fuel w clock env used side b g dev ok two rows v frames enough =
    let start : Burst = record {
      rx = (device b (dev_of side)).rx;
      gateway = g;
      sent = [];
      taken = 0;
    } in
    let served = served_lem (dev_of side) b ok (omega (arith, dev_of_two side)) in
    let (t, ran, done) = rx_burst-Processes fuel env side start v frames enough in
    (
      after_burst used side b t,
      rw (dev, served, ran) refl,
      after_burst-Serves used env side b g t two rows done,
    )
