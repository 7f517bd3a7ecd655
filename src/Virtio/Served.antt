-- ===== src/Virtio/Served.antt =====
-- The interrupt handler of bsp/virtio_net.c keeps the board in order.
use ucosii_arm64_qemu.Prelude.{
  ℕ, ◌≤◌, ◌<◌, ◌≡◌, ◌≢◌, ◌∙◌, refl, sym, ap, subst, true, false, none, some, ◌==◌, if◌then◌else◌,
  bit_and, sub16, get_or, set, length, length-set, get_or-set_self, get_or-set_ne, find_index,
  find_index_hit, arith, Bool-cases, Option-cases, inl, inr, ◌⊎◌,
}
use ucosii_arm64_qemu.Mmio.{Bank, Log, mmio_read32, mmio_write32}
use ucosii_arm64_qemu.Sem.{Os}
use ucosii_arm64_qemu.Virtio.Rx.{Used}
use ucosii_arm64_qemu.Virtio.Tx.{TxQueue}
use ucosii_arm64_qemu.Virtio.Receive.{IsQueue, virtio_net_handle_rx_used_done}
use ucosii_arm64_qemu.Virtio.Send.{IsTxQueue}
use ucosii_arm64_qemu.Virtio.Device.{Device}
use ucosii_arm64_qemu.Virtio.Board.{Board, World, device, no_device}
use ucosii_arm64_qemu.Virtio.Interrupt.{handled, handle_device, virtio_net_interrupt_handler}

abbrev pub IsWorking : Device → Type 0
IsWorking d = (d.tx.driver_ok ≡ false) ⊎ IsQueue d.rx × IsTxQueue d.tx

-- An invariant of the running board: a device with DRIVER_OK is well formed.
pub record IsRunning (b : Board) : Type 0 where
  pub two : length b.devices ≡ 2
  pub ready : (j : ℕ) → j < 2 → IsWorking (device b j)

-- Devices that follow the protocol.
pub record Wrote (used : ℕ → Used) (tx_used : ℕ → ℕ) (b : Board) : Type 0 where
  pub used_in : (j : ℕ) → (used j).idx < 65536
  pub tx_used_in : (j : ℕ) → tx_used j < 65536
  pub in_flight : (j : ℕ) → sub16 (device b j).tx.avail.idx (tx_used j) ≤ (device b j).tx.queue_size

last_used-IsTxQueue :
    (tx : TxQueue) (n : ℕ)
    → n < 65536
    → sub16 tx.avail.idx n ≤ tx.queue_size
    → IsTxQueue tx
    → IsTxQueue (record tx { last_used = n })
last_used-IsTxQueue tx n small room v = record {
  size_pos = v.size_pos;
  size_max = v.size_max;
  descs = v.descs;
  ring = v.ring;
  storage = v.storage;
  idx_in = v.idx_in;
  last_in = small;
  in_flight = room;
  batch = v.batch;
}

-- A step that replaces device `i` and no other.
abbrev pub Replaces : ℕ → Board → Board → Type 0
Replaces i b b' = IsRunning b' × ((j : ℕ) → i ≢ j → device b' j ≡ device b j)

set-IsRunning :
    (b : Board) (i : ℕ) (d : Device) (os' : Os) (log' : Log)
    → i < 2
    → IsWorking d
    → IsRunning b
    → Replaces i b (record b { os = os'; devices = set b.devices i d; log = log' })
set-IsRunning b i d os' log' small works run = (
  record {
    two = length-set b.devices i d ∙ run.two;
    ready = λ j below. elim (Bool-cases (i == j)) [
      | inl same ↦
          let e : i ≡ j = ground arith in
          let room : i < length b.devices = omega (arith, run.two) in
          subst (λ k. IsWorking (get_or (set b.devices i d) k no_device)) e
            (subst IsWorking (sym (get_or-set_self b.devices i d no_device room)) works)
      | inr other ↦
          let apart : i ≢ j = λ e. ground arith in
          subst IsWorking (sym (get_or-set_ne b.devices i j d no_device apart)) (run.ready j below)
    ];
  },
  (λ j apart. get_or-set_ne b.devices i j d no_device apart),
)

-- What the interrupt of device `i` does, with the status that it read acknowledged at the end.
abbrev pub Served : World → (ℕ → Used) → (ℕ → ℕ) → ℕ → Board → Board → Type 0
Served w used tx_used i b b' =
    let (status, read) = mmio_read32 w.host (Bank.virtio (device b i).base) 96 b.log in
    Replaces i b b'
    × ((log' : Log) × (b'.log ≡ mmio_write32 (Bank.virtio (device b i).base) 100 status log'))
    × (if bit_and status 1 == 0
        then device b' i ≡ device b i
        else ((device b' i).rx.last_used ≡ (used i).idx) × ((device b' i).tx.last_used ≡ tx_used i))

working : (d : Device) → d.tx.driver_ok ≡ true → IsWorking d → IsQueue d.rx × IsTxQueue d.tx
working d ok (inl off) = absurd (cc)
working d ok (inr v) = v

handle_device_done :
    (w : World) (used : ℕ → Used) (tx_used : ℕ → ℕ) (b : Board) (i : ℕ)
    → i < 2
    → IsRunning b
    → Wrote used tx_used b
    → (device b i).tx.driver_ok ≡ true
    → (b' : Board) × (handle_device w used tx_used b (some i) ≡ some b')
      × Served w used tx_used i b b'
unfolding handle_device handled
handle_device_done w used tx_used b i small run wrote ok =
    let d = device b i in
    let (status, log1) = mmio_read32 w.host (Bank.virtio d.base) 96 b.log in
    elim (Bool-cases (bit_and status 1 == 0)) [
      | inl nothing ↦
          rw (ok, nothing)
            (
              _,
              refl,
              ((record { two = run.two; ready = run.ready }, λ j apart. refl), (_, refl), refl),
            )
      | inr used_up ↦
          let (rx_ok, tx_ok) = working d ok (run.ready i small) in
          let (t, done, rx_kept, at) =
            virtio_net_handle_rx_used_done (used i) d.rx (wrote.used_in i) rx_ok in
          let d' = record d { rx = t.rx; tx = record (d.tx) { last_used = tx_used i } } in
          let room : i < length b.devices = omega (arith, run.two) in
          let here = get_or-set_self b.devices i d' no_device room in
          let works : IsWorking d' = inr (
            rx_kept,
            last_used-IsTxQueue d.tx (tx_used i) (wrote.tx_used_in i) (wrote.in_flight i) tx_ok,
          ) in
          rw (ok, used_up, done)
            (
              _,
              refl,
              (
                set-IsRunning b i d' _ _ small works run,
                (_, refl),
                (ap (λ x. x.rx.last_used) here ∙ at, ap (λ x. x.tx.last_used) here),
              ),
            )
    ]

handle_none :
    (w : World) (used : ℕ → Used) (tx_used : ℕ → ℕ) (b : Board)
    → handle_device w used tx_used b none ≡ some b
unfolding handle_device
handle_none w used tx_used b = refl

handle_off :
    (w : World) (used : ℕ → Used) (tx_used : ℕ → ℕ) (b : Board) (i : ℕ)
    → (device b i).tx.driver_ok ≡ false
    → handle_device w used tx_used b (some i) ≡ some b
unfolding handle_device
handle_off w used tx_used b i off = rw off refl

-- The interrupt of a device that may be used is always served: the board stays well formed, no other
-- device changes, and the last access acknowledges exactly the status that was read. If the status
-- has its first bit, both of the device's queues have caught up with what the device reported, else
-- the device is unchanged. An interrupt that no device has, or whose first device may not be used,
-- changes nothing. The board is well formed, and the devices follow the protocol.
pub virtio_net_interrupt_handler_done :
    (w : World) (used : ℕ → Used) (tx_used : ℕ → ℕ) (int_id : ℕ) (b : Board)
    → IsRunning b
    → Wrote used tx_used b
    → ((virtio_net_interrupt_handler w used tx_used int_id b ≡ some b)
        × ((find_index (λ d. d.irq == int_id) b.devices ≡ none)
            ⊎ ((j : ℕ) × (find_index (λ d. d.irq == int_id) b.devices ≡ some j)
                × ((device b j).tx.driver_ok ≡ false))))
      ⊎ ((i : ℕ) × (b' : Board) × ((device b i).irq ≡ int_id)
          × (virtio_net_interrupt_handler w used tx_used int_id b ≡ some b')
          × Served w used tx_used i b b')
unfolding virtio_net_interrupt_handler
virtio_net_interrupt_handler_done w used tx_used int_id b run wrote =
    elim (Option-cases (find_index (λ d. d.irq == int_id) b.devices)) [
      | inl absent ↦ inl (rw absent (handle_none w used tx_used b), inl absent)
      | inr (i, found) ↦
          let (room, same) = find_index_hit (λ d. d.irq == int_id) b.devices i no_device found in
          elim (Bool-cases (device b i).tx.driver_ok) [
            | inr off ↦ inl (rw found (handle_off w used tx_used b i off), inr (i, found, off))
            | inl ok ↦
                let (b', result, served) =
                  handle_device_done w used tx_used b i (omega (arith, run.two)) run wrote ok in
                inr (i, b', ground arith, rw found result, served)
          ]
    ]
