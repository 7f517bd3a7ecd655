-- ===== src/Virtio/Board.antt =====
-- The whole driver of bsp/virtio_net.c: the devices, the semaphores and the interrupt table, and the
-- functions that the tasks and the interrupt controller call. What a device wrote into its used rings
-- is an argument. Cache maintenance, barriers and the console are left out.
use ucosii_arm64_qemu.Prelude.{
  ℕ, zero, suc, ◌+◌, Bool, true, false, Option, none, some, List, [], ltb, leb, if◌then◌else◌,
  get_or, set,
}
use ucosii_arm64_qemu.Addr.{zero_mac}
use ucosii_arm64_qemu.Mmio.{Log, Host}
use ucosii_arm64_qemu.Irq.{bsp_int_vect_set, bsp_int_src_en}
use ucosii_arm64_qemu.Sem.{Os, Kernel, os_sem_create}
use ucosii_arm64_qemu.Virtio.Device.{Device, Layout, reset_device, bring_up}
use ucosii_arm64_qemu.Virtio.Scan.{virtio_net_scan}

-- The one handler that the driver registers.
pub data Handler : Type 0 where
  net_handler : Handler

-- The static variables, with the kernel's state and the accesses to the devices. A device is named by
-- its index in `g_devices`; `dev` is `g_dev`.
pub record Board : Type 0 where
  pub log : Log
  pub os : Os
  pub rx_global_sem : Option ℕ
  pub devices : List Device
  pub device_count : ℕ
  pub dev : Option ℕ
  pub vectors : List (Option Handler)

-- What the code runs on: the kernel, the devices' registers, and where the queues of each device are.
pub record World : Type 0 where
  pub kernel : Kernel
  pub host : Host
  pub at : ℕ → ℕ → Layout

-- A device structure after `util_memset`, with empty rows.
abbrev pub no_device : Device
no_device = record {
  base = 0;
  irq = 0;
  mac = zero_mac;
  rx_sem = none;
  rx_desc = [];
  rx = record {
    queue_size = 0;
    last_used = 0;
    avail = record { idx = 0; ring = [] };
    completions = [];
    head = 0;
    tail = 0;
    count = 0;
  };
  tx = record {
    driver_ok = false;
    queue_size = 0;
    last_used = 0;
    desc = [];
    avail = record { idx = 0; ring = [] };
    buffers = [];
    batch_count = 0;
  };
}

abbrev pub device : Board → ℕ → Device
device b i = get_or b.devices i no_device

abbrev pub set_device : ℕ → Device → Board → Board
set_device i d b = record b { devices = set b.devices i d }

-- BSP_IntVectSet and BSP_IntSrcEn after a device came up.
unfoldable pub register_irq : World → ℕ → Bool × Board → Bool × Board
register_irq w irq (false, b) = (false, b)
register_irq w irq (true, b) = (
  true,
  record b {
    vectors = bsp_int_vect_set irq net_handler b.vectors;
    log = bsp_int_src_en w.host irq b.log;
  },
)

unfoldable pub virtio_net_init_device : World → ℕ → ℕ → ℕ → Board → Bool × Board
unfolding register_irq
virtio_net_init_device w dev_idx base irq b =
    let (os', rx_sem) = os_sem_create w.kernel 0 b.os in
    let (dev', ok, log') =
      bring_up w.host (w.at dev_idx) (reset_device base irq rx_sem (device b dev_idx)) b.log in
    register_irq w irq (ok, record b { os = os'; devices = set b.devices dev_idx dev'; log = log' })

-- The semaphore for all devices, if there is none yet.
unfoldable pub create_global_sem : World → Board → Board
create_global_sem w b =
    let (os', sem) = os_sem_create w.kernel 0 b.os in
    if (elim b.rx_global_sem [ none ↦ true | some e ↦ false ])
    then record b { os = os'; rx_global_sem = sem }
    else b

-- One round of the loop: `none` for a break.
unfoldable pub init_found : World → ℕ → Option (ℕ × ℕ) × Log → Board → Bool × Board
init_found w i (none, log) b = (false, record b { log = log })
init_found w i (some (base, irq), log) b =
    let (ok, b') = virtio_net_init_device w i base irq (record b { log = log }) in
    (ok, if ok then record b' { device_count = b'.device_count + 1 } else b')

unfoldable pub init_from : World → ℕ → ℕ → Board → Board
unfolding init_found
init_from w zero i b = b
init_from w (suc n) i b =
    let (going, b') = init_found w i (virtio_net_scan w.host i b.log) b in
    let rest = init_from w n (suc i) b' in if going then rest else b'

-- Whether it returned 0.
unfoldable pub virtio_net_init_all : World → Board → Bool × Board
unfolding create_global_sem
virtio_net_init_all w b =
    let b' = init_from w 2 0 (record (create_global_sem w b) { device_count = 0 }) in
    if ltb 0 b'.device_count then (true, record b' { dev = some 0 }) else (false, b')

unfoldable pub virtio_net_get_device : ℕ → Board → Option ℕ
virtio_net_get_device index b = if leb b.device_count index then none else some index

unfoldable pub virtio_net_get_device_count : Board → ℕ
virtio_net_get_device_count b = b.device_count
