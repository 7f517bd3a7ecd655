-- ===== src/Net/Round.antt =====
-- One round of net_rx_task in src/net_demo.c: the burst, the frames that it sends, the flushes and the
-- wait for the next frame. The frames of a burst are queued behind it, in their order: the transmit
-- queues and the receive queue have nothing in common.
use ucosii_arm64_qemu.Prelude.{
  ℕ, zero, suc, Option, none, some, List, [], ◌∷◌, ◌==◌, if◌then◌else◌, set,
}
use ucosii_arm64_qemu.Bytes.{Memory}
use ucosii_arm64_qemu.Virtio.Board.{Board, World, device}
use ucosii_arm64_qemu.Virtio.Calls.{is_served}
use ucosii_arm64_qemu.Virtio.Interrupt.{tx_flush_dev, virtio_net_rx_flush_dev}
use ucosii_arm64_qemu.Virtio.Single.{send_on}
use ucosii_arm64_qemu.Virtio.Wait.{Clock, virtio_net_wait_rx_dev}
use ucosii_arm64_qemu.Net.Frame.{Side, Packet}
use ucosii_arm64_qemu.Net.Forward.{Gateway}
use ucosii_arm64_qemu.Net.Process.{iface_of}
use ucosii_arm64_qemu.Net.Task.{Env, Burst, rx_burst}

-- Device 0 is the LAN's and device 1 the WAN's.
abbrev pub dev_of : Side → ℕ
dev_of Side.lan = 0
dev_of Side.wan = 1

-- The first `n` bytes of a frame from offset `i` on.
unfoldable pub frame_bytes : Memory → ℕ → ℕ → List ℕ
frame_bytes m i zero = []
frame_bytes m i (suc n) = m i ∷ frame_bytes m (suc i) n

-- The calls of virtio_net_send_frame_dev; `used k` is what the device's index reads are in the `k`-th.
unfoldable pub send_packets : (ℕ → ℕ → ℕ) → ℕ → List Packet → Board → Board
unfolding frame_bytes
send_packets used k [] b = b
send_packets used k (p ∷ ps) b =
    send_packets used (suc k) ps
      (send_on (used k) (frame_bytes p.frame 0 p.length) p.length b (some (dev_of p.side))).1

-- The burst on a device's queue. From a device that is not usable or not counted the loop takes no
-- frame: virtio_net_has_pending_rx_dev or virtio_net_peek_rx_buffer_dev refuses it.
unfoldable pub burst_on : ℕ → Env → Side → Board → Gateway → Option Burst
burst_on fuel env side b g =
    let start : Burst = record {
      rx = (device b (dev_of side)).rx;
      gateway = g;
      sent = [];
      taken = 0;
    } in
    if is_served (dev_of side) b then rx_burst fuel env side start else some start

-- Behind the burst both devices are told of the buffers and of the frames.
unfoldable pub flush_all : Board → Board
flush_all b =
    tx_flush_dev 1 (tx_flush_dev 0 (virtio_net_rx_flush_dev 1 (virtio_net_rx_flush_dev 0 b)))

-- The board and the gateway behind a burst.
unfoldable pub after_burst : (ℕ → ℕ → ℕ) → Side → Board → Burst → Board × Gateway
unfolding send_packets flush_all
after_burst used side b t =
    let i = dev_of side in
    let released = record b { devices = set b.devices i (record (device b i) { rx = t.rx }) } in
    (flush_all (send_packets used 0 t.sent released), t.gateway)

-- The wait without a timeout; an error makes the task sleep for a tick.
unfoldable pub wait_next : ℕ → World → Clock → Side → Board × Gateway → Option (Board × Gateway)
wait_next fuel w clock side (b, g) =
    elim (virtio_net_wait_rx_dev fuel w clock (some (dev_of side)) 0 b) [
      | none ↦ none
      | some (b', err) ↦ some (if err == 0 then b' else clock.time_dly 1 b', g)
    ]

-- One round; an interface without a device makes the task sleep for a second.
unfoldable pub rx_round :
    ℕ → World → Clock → Env → (ℕ → ℕ → ℕ) → Side → Board × Gateway → Option (Board × Gateway)
unfolding burst_on after_burst wait_next
rx_round fuel w clock env used side (b, g) =
    if (iface_of side g).has_dev
    then elim (burst_on fuel env side b g) [
      | none ↦ none
      | some t ↦ wait_next fuel w clock side (after_burst used side b t)
    ]
    else some (clock.time_dly 1000 b, g)
