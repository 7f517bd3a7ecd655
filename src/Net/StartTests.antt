-- ===== src/Net/StartTests.antt =====
-- The set-up of src/net_demo.c on a board with two devices.
use ucosii_arm64_qemu.Prelude.{ℕ, ◌==◌, if◌then◌else◌, ◌≡◌, ◌⊎◌, refl, false, some, none, arith}
use ucosii_arm64_qemu.Virtio.Board.{virtio_net_init_all}
use ucosii_arm64_qemu.Virtio.BoardTests.{world, board, fresh, fresh-HasTables}
use ucosii_arm64_qemu.Net.Forward.{Gateway}
use ucosii_arm64_qemu.Net.Start.{Started, IsStarted, net_demo_start, net_demo_start-IsStarted}
use ucosii_arm64_qemu.Net.Tests.{gateway, zeros}

-- Before the set-up no interface has a device.
abbrev idle : Gateway
idle = record gateway {
  lan_if = record (gateway.lan_if) { has_dev = false };
  wan_if = record (gateway.wan_if) { has_dev = false };
}

-- The task of the WAN is refused.
abbrev create : ℕ → ℕ
create prio = if prio == 6 then 40 else 0

net_demo_start-IsStarted_example :
    ((net_demo_start world create zeros (board fresh) idle ≡ none)
      × ((virtio_net_init_all world (board fresh)).1.device_count ≡ 0))
    ⊎ ((s : Started) × (net_demo_start world create zeros (board fresh) idle ≡ some s)
        × IsStarted create s)
net_demo_start-IsStarted_example =
    net_demo_start-IsStarted world create zeros (board fresh) idle fresh-HasTables (omega arith)
      (omega arith) refl refl
