-- ===== src/Net/Start.antt =====
-- The set-up part of net_demo_run in src/net_demo.c: the driver, the tables, the interfaces' devices and
-- the receive tasks. What the new tasks do when OSTaskCreate lets them run is left out, and so is the
-- console.
use ucosii_arm64_qemu.Prelude.{
  ℕ, ◌==◌, ◌≤◌, ◌<◌, ◌≡◌, ◌⊎◌, refl, true, false, Option, none, some, List, [], ◌∷◌, ◌++◌, leb,
  if◌then◌else◌, arith, Bool-cases, inl, inr,
}
use ucosii_arm64_qemu.Bytes.{Memory}
use ucosii_arm64_qemu.Nat.Types.{nat_init}
use ucosii_arm64_qemu.Nat.WellFormed.{WellFormed, nat_init-WellFormed}
use ucosii_arm64_qemu.Nat.Session.{OneSession}
use ucosii_arm64_qemu.Nat.Run.{nat_init-OneSession}
use ucosii_arm64_qemu.Virtio.Board.{
  Board, World, device, virtio_net_init_all, virtio_net_get_device, virtio_net_get_device_count,
}
use ucosii_arm64_qemu.Virtio.Up.{IsUp}
use ucosii_arm64_qemu.Virtio.Start.{HasTables, virtio_net_init_all-IsUp}
use ucosii_arm64_qemu.Net.Frame.{Side, Packet, Interface, net_demo_send_arp_request}
use ucosii_arm64_qemu.Net.Forward.{Gateway}
use ucosii_arm64_qemu.Net.Process.{iface_of}
use ucosii_arm64_qemu.Net.Inbound.{SameWan}

-- The frames sent, and the receive tasks that were created, with their priorities.
pub record Started : Type 0 where
  pub board : Board
  pub gateway : Gateway
  pub sent : List Packet
  pub tasks : List (Side × ℕ)

-- `dev` of an interface, and the MAC that is read through it.
unfoldable pub with_device : Board → Option ℕ → Interface → Interface
with_device b none iface = record iface { has_dev = false }
with_device b (some i) iface = record iface { has_dev = true; mac = (device b i).mac }

unfoldable pub assign_devices : Board → Gateway → Gateway
unfolding with_device virtio_net_get_device virtio_net_get_device_count
assign_devices b g =
    let count = virtio_net_get_device_count b in
    let lan =
      if leb 1 count then with_device b (virtio_net_get_device 0 b) g.lan_if else g.lan_if in
    let wan =
      if leb 2 count then with_device b (virtio_net_get_device 1 b) g.wan_if else g.wan_if in
    record g { lan_if = lan; wan_if = wan }

-- The ARP request and the receive task of an interface that has a device. `create prio` is the error
-- that OSTaskCreate gives for a task of that priority; a task that fails is only reported.
unfoldable pub start_side : (ℕ → ℕ) → Memory → Side → ℕ → Started → Started
start_side create stale side prio s =
    let created = if create prio == 0 then (side, prio) ∷ [] else [] in
    if (iface_of side s.gateway).has_dev
    then record s {
      sent = s.sent ++ net_demo_send_arp_request stale side (iface_of side s.gateway) ∷ [];
      tasks = s.tasks ++ created;
    }
    else s

-- `none` where it returns before its loop.
unfoldable pub net_demo_start : World → (ℕ → ℕ) → Memory → Board → Gateway → Option Started
unfolding assign_devices start_side
net_demo_start w create stale b g =
    let (ok, b') = virtio_net_init_all w b in
    let g' = assign_devices b' (record g { nat = nat_init g.nat }) in
    if ok
    then some (
        start_side create stale Side.wan 6 (
          start_side create stale Side.lan 5
            (record { board = b'; gateway = g'; sent = []; tasks = [] })))
    else none

-- Whether the task of a side was created.
pub data TaskOf (create : ℕ → ℕ) (side : Side) (prio : ℕ) : List (Side × ℕ) → Type 0 where
  made : create prio ≡ 0 → TaskOf create side prio ((side, prio) ∷ [])
  failed : 0 < create prio → TaskOf create side prio []

created-TaskOf :
    (create : ℕ → ℕ) (side : Side) (prio : ℕ)
    → TaskOf create side prio (if create prio == 0 then (side, prio) ∷ [] else [])
created-TaskOf create side prio = elim (Bool-cases (create prio == 0)) [
  | inl fine ↦ rw fine (TaskOf.made (ground arith))
  | inr error ↦ rw error (TaskOf.failed (ground arith))
]

-- What holds when the loop begins: the tables are well formed, and each interface with a device has a
-- usable one, and a receive task if OSTaskCreate gave no error for it. The LAN has a device; the WAN has
-- the second, if there are two.
pub record IsStarted (create : ℕ → ℕ) (s : Started) : Type 0 where
  pub tables : WellFormed s.gateway.nat
  pub one_session : OneSession s.gateway.nat
  pub same_wan : SameWan s.gateway
  pub lan_device : s.gateway.lan_if.has_dev ≡ true
  pub lan_up : IsUp s.board.vectors (device s.board 0)
  pub wan :
      ((s.board.device_count ≡ 1)
        × (s.gateway.wan_if.has_dev ≡ false)
        × TaskOf create Side.lan 5 s.tasks)
      ⊎ ((s.board.device_count ≡ 2)
          × (s.gateway.wan_if.has_dev ≡ true)
          × IsUp s.board.vectors (device s.board 1)
          × ((lan_tasks : List (Side × ℕ)) × (wan_tasks : List (Side × ℕ)) × (s.tasks
                ≡ lan_tasks ++ wan_tasks)
              × TaskOf create Side.lan 5 lan_tasks
              × TaskOf create Side.wan 6 wan_tasks))

-- The part behind the driver's set-up.
unfoldable start_sides : (ℕ → ℕ) → Memory → Board → Gateway → Started
unfolding assign_devices start_side
start_sides create stale b g = start_side create stale Side.wan 6 (
    start_side create stale Side.lan 5
      (record { board = b; gateway = assign_devices b g; sent = []; tasks = [] }))

sides-IsStarted :
    (create : ℕ → ℕ) (stale : Memory) (b : Board) (g : Gateway)
    → WellFormed g.nat
    → OneSession g.nat
    → SameWan g
    → g.wan_if.has_dev ≡ false
    → 0 < b.device_count
    → b.device_count ≤ 2
    → ((j : ℕ) → j < b.device_count → IsUp b.vectors (device b j))
    → IsStarted create (start_sides create stale b g)
unfolding start_sides assign_devices start_side with_device virtio_net_get_device
    virtio_net_get_device_count
sides-IsStarted create stale b g v one same no_wan some_dev few up =
    let first : leb 1 b.device_count ≡ true = ground arith in
    let zeroth : leb b.device_count 0 ≡ false = ground arith in
    elim (Bool-cases (leb 2 b.device_count)) [
      | inr single ↦
          rw (first, zeroth, single, no_wan)
            (record {
              tables = v;
              one_session = one;
              same_wan = same;
              lan_device = refl;
              lan_up = up 0 some_dev;
              wan = inl (ground arith, refl, created-TaskOf create Side.lan 5);
            })
      | inl both ↦
          let second : leb b.device_count 1 ≡ false = ground arith in
          rw (first, zeroth, both, second)
            (record {
              tables = v;
              one_session = one;
              same_wan = same;
              lan_device = refl;
              lan_up = up 0 some_dev;
              wan = inr (
                ground arith,
                refl,
                up 1 (ground arith),
                (_, _, refl, created-TaskOf create Side.lan 5, created-TaskOf create Side.wan 6),
              );
            })
    ]

-- net_demo_run returns at once if no device is counted. Otherwise its loop begins with well-formed
-- tables and one session for each flow at most; the LAN interface has device 0, which may be used; the
-- WAN interface has device 1, which may be used, if there are two devices, and otherwise none; and the
-- receive tasks are those of the interfaces with a device for which OSTaskCreate gave no error. At the
-- start the driver's arrays have their sizes, the port range is valid, and the WAN interface has no
-- device and the address that the translation is configured with.
pub net_demo_start-IsStarted :
    (w : World) (create : ℕ → ℕ) (stale : Memory) (b : Board) (g : Gateway)
    → HasTables b 0
    → g.nat.nat_cfg.port_range_start ≤ g.nat.nat_cfg.port_range_end
    → g.nat.nat_cfg.port_range_end < 65535
    → SameWan g
    → g.wan_if.has_dev ≡ false
    → ((net_demo_start w create stale b g ≡ none) × ((virtio_net_init_all w b).1.device_count ≡ 0))
      ⊎ ((s : Started) × (net_demo_start w create stale b g ≡ some s) × IsStarted create s)
unfolding net_demo_start start_sides nat_init
net_demo_start-IsStarted w create stale b g rows from to same no_wan =
    let (few, up, how) = virtio_net_init_all-IsUp w b rows in
    let b' = (virtio_net_init_all w b).1 in
    let g' = record g { nat = nat_init g.nat } in
    elim how [
      | inl (nothing, none_up) ↦ inl (rw nothing refl, none_up)
      | inr (ok, some_up, dev) ↦ inr (
        start_sides create stale b' g',
        rw ok refl,
        sides-IsStarted create stale b' g' (nat_init-WellFormed g.nat from to)
            (nat_init-OneSession g.nat) same no_wan some_up few up,
      )
    ]
