-- ===== src/Net/TaskTests.antt =====
-- The tasks of src/net_demo.c at work, and each theorem at an input that meets its hypotheses.
use ucosii_arm64_qemu.Prelude.{
  ℕ, ◌+◌, ◌*◌, ◌≤◌, ◌<◌, ◌≡◌, refl, some, [], arith, set, replicate, length-set, length-replicate,
}
use ucosii_arm64_qemu.Virtio.Rx.{
  RxQueue, Scan, no_completion, head_entry, virtio_net_handle_rx_used,
}
use ucosii_arm64_qemu.Virtio.Receive.{IsQueue}
use ucosii_arm64_qemu.Virtio.Fifo.{queued}
use ucosii_arm64_qemu.Virtio.Conserve.{AllIn, IsConserved}
use ucosii_arm64_qemu.Virtio.Tests.{one_frame, one_frame-IsQueue, filled}
use ucosii_arm64_qemu.Net.Frame.{Side}
use ucosii_arm64_qemu.Net.Task.{Env, Burst, rx_burst}
use ucosii_arm64_qemu.Virtio.Board.{Board}
use ucosii_arm64_qemu.Virtio.BoardTests.{board, busy, world}
use ucosii_arm64_qemu.Virtio.PollTests.{clock}
use ucosii_arm64_qemu.Net.Forward.{Gateway}
use ucosii_arm64_qemu.Net.Burst.{HasFrames}
use ucosii_arm64_qemu.Net.Round.{wait_next, rx_round}
use ucosii_arm64_qemu.Net.Announced.{Serves, rx_round-Serves}
use ucosii_arm64_qemu.Net.Stuck.{rx_burst_stuck}
use ucosii_arm64_qemu.Net.Loop.{Loop, loop_init, net_demo_round}
use ucosii_arm64_qemu.Net.Paced.{Runs, last_ping, net_demo_round_paced}
use ucosii_arm64_qemu.Net.Pings.{pings}
use ucosii_arm64_qemu.Net.Tests.{gateway, zeros}

abbrev env : Env
env = record { now = λ n. 5; stale = λ n. zeros; buffer = λ desc_id. zeros }

abbrev start : RxQueue → Burst
start rx = record { rx = rx; gateway = gateway; sent = []; taken = 0 }

one_frame-IsConserved : IsConserved one_frame
one_frame-IsConserved = record {
  well = one_frame-IsQueue;
  every = refl;
  known = AllIn.entry (omega arith) AllIn.nothing;
}

one_frame-HasFrames : HasFrames (queued one_frame)
one_frame-HasFrames = HasFrames.frame (omega arith) HasFrames.none_left

rx_round-Serves_example :
    (r : Board × Gateway) × (rx_round 2 world clock env (λ k n. 15) Side.lan (board busy, gateway)
      ≡ wait_next 2 world clock Side.lan r)
    × Serves (λ k n. 15) env Side.lan (board busy) gateway r
rx_round-Serves_example =
    rx_round-Serves 2 world clock env (λ k n. 15) Side.lan (board busy) gateway refl refl refl refl
      one_frame-IsConserved one_frame-HasFrames (omega arith)

-- The same queue, with a frame that ends behind its VirtIO header.
abbrev bare : RxQueue
bare = record one_frame {
  completions = set (replicate 256 no_completion) 0 (record { desc_id = 3; total_len = 12 });
}

bare-IsQueue : IsQueue bare
bare-IsQueue = record {
  size_pos = omega arith;
  size_max = omega arith;
  storage = omega (
    arith,
    length-set (replicate 256 no_completion) 0 (record { desc_id = 3; total_len = 12 }),
    length-replicate 256 no_completion,
  );
  head_in = omega arith;
  tail_at = refl;
  count_in = omega arith;
  last_used_in = omega arith;
  avail_in = omega arith;
  avail_ring = length-replicate {A = ℕ} 256 0;
}

rx_burst_stuck_example :
    (rx_burst 9 env Side.lan (start bare) ≡ some (start bare))
    × ((t : Scan) × (virtio_net_handle_rx_used filled bare ≡ some t)
        × IsQueue t.rx
        × (0 < t.rx.count)
        × ((head_entry t.rx).total_len ≤ 12))
rx_burst_stuck_example =
    rx_burst_stuck 8 env Side.lan (start bare) filled bare-IsQueue (omega arith) (omega arith)
      (omega arith)

-- One round, 700 ticks after the start.
abbrev loop : Loop
loop = loop_init 0 gateway []

loop-Runs : Runs 0 loop 700 (net_demo_round 700 zeros loop)
unfolding loop_init
loop-Runs = Runs.again 700 zeros gateway (omega arith) (omega arith) Runs.stop

loop_starts : last_ping Side.lan loop ≤ 0
unfolding loop_init
loop_starts = omega arith

net_demo_round_paced_example :
    let s = net_demo_round 700 zeros loop in
    (pings Side.lan s.sent * 500 + last_ping Side.lan loop
      ≤ last_ping Side.lan s + pings Side.lan loop.sent * 500)
    × (last_ping Side.lan s ≤ 700)
net_demo_round_paced_example = net_demo_round_paced Side.lan loop-Runs loop_starts
