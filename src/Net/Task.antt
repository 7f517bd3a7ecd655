-- ===== src/Net/Task.antt =====
-- The receive task of src/net_demo.c: net_rx_task's loop over the frames that wait. `Env` is what
-- the burst meets: for its n-th frame the time and what the stack holds, and what a receive buffer
-- holds behind its virtio header. The device is usable and counted here; Net/Round has the other case.
-- Interrupts come between bursts, and the console is left out.
use ucosii_arm64_qemu.Prelude.{
  ℕ, zero, suc, true, false, Option, none, some, List, [], ◌∷◌, ◌++◌, ltb, if◌then◌else◌, ◌&&◌,
}
use ucosii_arm64_qemu.Bytes.{Memory}
use ucosii_arm64_qemu.Virtio.Rx.{
  RxQueue, Completion, payload_length, queue_pending, peek_queue, release_queue,
}
use ucosii_arm64_qemu.Net.Frame.{Side, Packet}
use ucosii_arm64_qemu.Net.Forward.{Gateway}
use ucosii_arm64_qemu.Net.Process.{net_demo_process_frame}

pub record Env : Type 0 where
  pub now : ℕ → ℕ
  pub stale : ℕ → Memory
  pub buffer : ℕ → Memory

-- The interface's receive queue, the gateway, the frames sent so far, and how many were taken.
pub record Burst : Type 0 where
  pub rx : RxQueue
  pub gateway : Gateway
  pub sent : List Packet
  pub taken : ℕ

-- The body of the loop for a frame: process it and release its buffer.
unfoldable pub take_frame : Env → Side → ℕ → ℕ → Burst → Burst
take_frame env side len desc_id b =
    let p =
      net_demo_process_frame (env.now b.taken) (env.stale b.taken) side (env.buffer desc_id) len
        b.gateway in
    record {
      rx = release_queue desc_id b.rx;
      gateway = p.gateway;
      sent = b.sent ++ p.sent;
      taken = suc b.taken;
    }

-- One round: `none` for the break.
unfoldable pub peeked : Env → Side → Burst → Option (ℕ × ℕ) → Option Burst
unfolding take_frame
peeked env side b none = none
peeked env side b (some (len, desc_id)) =
    if ltb 0 len then some (take_frame env side len desc_id b) else none

-- The loop. `none` if the fuel runs out.
unfoldable pub rx_burst : ℕ → Env → Side → Burst → Option Burst
unfolding peeked
rx_burst zero env side b = none
rx_burst (suc fuel) env side b =
    let next = peeked env side b (peek_queue b.rx) in
    let rest = rx_burst fuel env side (elim next [ none ↦ b | some b' ↦ b' ]) in
    if queue_pending b.rx && (elim next [ none ↦ false | some b' ↦ true ]) then rest else some b

-- The independent description: the frames one after another.
unfoldable pub process_all : Env → Side → List Completion → ℕ → Gateway → Gateway × List Packet
process_all env side [] n g = (g, [])
process_all env side (c ∷ cs) n g =
    let p =
      net_demo_process_frame (env.now n) (env.stale n) side (env.buffer c.desc_id)
        (payload_length c.total_len) g in
    let (g', sent) = process_all env side cs (suc n) p.gateway in (g', p.sent ++ sent)
