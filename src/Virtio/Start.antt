-- ===== src/Virtio/Start.antt =====
-- What virtio_net_init_all in bsp/virtio_net.c leaves: the devices that it counts are ready.
use ucosii_arm64_qemu.Prelude.{
  ℕ, zero, suc, ◌+◌, ◌≤◌, ◌<◌, ◌≡◌, ◌∙◌, refl, sym, subst, Bool, true, false, Option, some, length,
  length-set, set, get_or-set_self, get_or-set_ne, ltb, ◌==◌, if◌then◌else◌, arith, Bool-cases,
  Option-cases, inl, inr, ◌⊎◌,
}
use ucosii_arm64_qemu.Mmio.{Log, Host}
use ucosii_arm64_qemu.Irq.{bsp_int_vect_set}
use ucosii_arm64_qemu.Sem.{Os, os_sem_create}
use ucosii_arm64_qemu.Virtio.Receive.{IsQueue}
use ucosii_arm64_qemu.Virtio.Send.{IsTxQueue}
use ucosii_arm64_qemu.Virtio.Device.{Device, Layout, reset_device, bring_up}
use ucosii_arm64_qemu.Virtio.Ready.{HasRows}
use ucosii_arm64_qemu.Virtio.Marks.{bring_up_cases}
use ucosii_arm64_qemu.Virtio.BringUp.{bring_up-IsQueue}
use ucosii_arm64_qemu.Virtio.Scan.{virtio_net_scan_cases, candidate, candidate_irq}
use ucosii_arm64_qemu.Virtio.Board.{
  net_handler, Board, World, device, no_device, register_irq, virtio_net_init_device,
  create_global_sem, init_found, init_from, virtio_net_init_all,
}
use ucosii_arm64_qemu.Virtio.Up.{IsUp, keep_IsUp, bsp_int_vect_set_hit, bsp_int_vect_set-length}

bring_up-irq :
    (host : Host) (at : ℕ → Layout) (dev : Device) (log : Log)
    → (bring_up host at dev log).0.irq ≡ dev.irq
bring_up-irq host at dev log =
    bring_up_cases (λ r. r.0.irq ≡ dev.irq) host at dev log (λ l m. refl) (λ mac l m. refl)
      (λ mac n l small m. refl) (λ mac n k l small small' m. refl)

-- What a successful set-up makes of a device.
record IsSetUp (d : Device) : Type 0 where
  usable : d.tx.driver_ok ≡ true
  rx_works : (d.rx.queue_size ≡ 0) ⊎ IsQueue d.rx
  tx_works : (d.tx.queue_size ≡ 0) ⊎ IsTxQueue d.tx

-- Two devices and 256 handlers. The rows of the devices from the `i`-th on are as at the start.
pub record HasTables (b : Board) (i : ℕ) : Type 0 where
  pub two : length b.devices ≡ 2
  pub table : length b.vectors ≡ 256
  pub rows : (j : ℕ) → i ≤ j → j < 2 → HasRows (device b j)

-- One device's set-up keeps the devices before it, and readies its own where it succeeds.
abbrev pub DeviceStep : Board → ℕ → Bool × Board → Type 0
DeviceStep b i r =
    (r.1.device_count ≡ b.device_count)
    × ((j : ℕ) → j < i → IsUp r.1.vectors (device r.1 j))
    × (r.0 ≡ true → IsUp r.1.vectors (device r.1 i) × HasTables r.1 (suc i))

register_irq_lem :
    (w : World) (b : Board) (i irq : ℕ) (os' : Os) (d : Device) (log' : Log) (ok : Bool)
    → HasTables b i
    → ((j : ℕ) → j < i → IsUp b.vectors (device b j))
    → i < 2
    → irq < 256
    → d.irq ≡ irq
    → (ok ≡ true → IsSetUp d)
    → DeviceStep b i
        (register_irq w irq (ok, record b { os = os'; devices = set b.devices i d; log = log' }))
unfolding register_irq
register_irq_lem w b i irq os' d log' false tables up small irq_in same works = (
  refl,
  (λ j before.
      subst (IsUp b.vectors) (sym (get_or-set_ne b.devices i j d no_device (λ e. omega arith)))
        (up j before)),
  (λ ok. absurd (cc)),
)
register_irq_lem w b i irq os' d log' true tables up small irq_in same works = (
  refl,
  (λ j before.
      keep_IsUp b.vectors irq (device b j) _ tables.table
        (get_or-set_ne b.devices i j d no_device (λ e. omega arith)) (up j before)),
  (λ ok. (
    subst (IsUp (bsp_int_vect_set irq net_handler b.vectors))
        (sym (get_or-set_self b.devices i d no_device (let t = tables.two in omega arith)))
        (record {
          driver_ok = (works refl).usable;
          rx_ready = (works refl).rx_works;
          tx_ready = (works refl).tx_works;
          irq_in = subst (λ x. x < 256) (sym same) irq_in;
          registered = rw same (bsp_int_vect_set_hit b.vectors irq tables.table irq_in);
        }),
    record {
      two = length-set b.devices i d ∙ tables.two;
      table = bsp_int_vect_set-length b.vectors irq ∙ tables.table;
      rows = λ j from below.
          subst HasRows (sym (get_or-set_ne b.devices i j d no_device (λ e. omega arith)))
            (tables.rows j (omega arith) below);
    },
  )),
)

reset_device-HasRows :
    (base irq : ℕ) (rx_sem : Option ℕ) (d : Device)
    → HasRows d
    → HasRows (reset_device base irq rx_sem d)
unfolding reset_device
reset_device-HasRows base irq rx_sem d rows = record {
  completions = rows.completions;
  descs = rows.descs;
  storage = rows.storage;
  no_batch = refl;
}

reset_device-irq :
    (base irq : ℕ) (rx_sem : Option ℕ) (d : Device) → (reset_device base irq rx_sem d).irq ≡ irq
unfolding reset_device
reset_device-irq base irq rx_sem d = refl

first {ℓ} : {A B C : Type ℓ} → A ⊎ B × C → A ⊎ B
first (inl a) = inl a
first (inr (b, c)) = inr b

pub init_device_lem :
    (w : World) (b : Board) (i base irq : ℕ)
    → HasTables b i
    → ((j : ℕ) → j < i → IsUp b.vectors (device b j))
    → i < 2
    → irq < 256
    → DeviceStep b i (virtio_net_init_device w i base irq b)
unfolding virtio_net_init_device
init_device_lem w b i base irq tables up small irq_in =
    let (os', rx_sem) = os_sem_create w.kernel 0 b.os in
    let d = reset_device base irq rx_sem (device b i) in
    let (d', ok, log') = bring_up w.host (w.at i) d b.log in
    let works : ok ≡ true → IsSetUp d' = λ e.
      let (usable, rx_works, tx_works) =
        bring_up-IsQueue w.host (w.at i) d b.log
          (reset_device-HasRows base irq rx_sem (device b i) (tables.rows i (omega arith) small))
          e in
      record { usable = usable; rx_works = first rx_works; tx_works = first tx_works } in
    register_irq_lem w b i irq os' d' log' ok tables up small irq_in
      (bring_up-irq w.host (w.at i) d b.log ∙ reset_device-irq base irq rx_sem (device b i)) works

-- After the loop: every device that is counted is up, and at most two are.
abbrev Counted : Board → Type 0
Counted b = (b.device_count ≤ 2) × ((j : ℕ) → j < b.device_count → IsUp b.vectors (device b j))

global_sem-HasTables :
    (w : World) (b : Board)
    → HasTables b 0
    → HasTables (record (create_global_sem w b) { device_count = 0 }) 0
unfolding create_global_sem
global_sem-HasTables w b tables = elim (Option-cases b.rx_global_sem) [
  | inl absent ↦ rw absent (record { two = tables.two; table = tables.table; rows = tables.rows })
  | inr (e, present) ↦
      rw present (record { two = tables.two; table = tables.table; rows = tables.rows })
]

found_lem :
    (next : Board → Board) (i : ℕ) (b : Board) (r : Bool × Board)
    → i < 2
    → b.device_count ≡ i
    → DeviceStep b i r
    → ((b' : Board)
        → b'.device_count ≡ suc i
        → HasTables b' (suc i)
        → ((j : ℕ) → j < suc i → IsUp b'.vectors (device b' j))
        → Counted (next b'))
    → let b' = if r.0 then record (r.1) { device_count = r.1.device_count + 1 } else r.1 in
      Counted (if r.0 then next b' else b')
found_lem next i b (false, b1) small here (counted, kept, readied) rest =
    (omega arith, λ j before. kept j (omega arith))
found_lem next i b (true, b1) small here (counted, kept, readied) rest =
    let (up, tables) = readied refl in
    rest (record b1 { device_count = b1.device_count + 1 }) (omega arith)
      (record { two = tables.two; table = tables.table; rows = tables.rows })
      (λ j before. elim (Bool-cases (j == i)) [
        | inl same ↦ let e : i ≡ j = ground arith in subst (λ x. IsUp b1.vectors (device b1 x)) e up
        | inr other ↦ kept j (ground arith)
      ])

init_from_lem :
    (w : World) (n i : ℕ) (b : Board)
    → i + n ≡ 2
    → b.device_count ≡ i
    → HasTables b i
    → ((j : ℕ) → j < i → IsUp b.vectors (device b j))
    → Counted (init_from w n i b)
unfolding init_from init_found
init_from_lem w zero i b sum here tables up = (omega arith, λ j before. up j (omega arith))
init_from_lem w (suc n) i b sum here tables up =
    virtio_net_scan_cases
      (λ r.
        let (going, b') = init_found w i r b in
        Counted (if going then init_from w n (suc i) b' else b'))
      w.host i b.log (λ log'. (omega arith, λ j before. up j (omega arith)))
      (λ c log' small.
        let b0 = record b { log = log' } in
        found_lem (init_from w n (suc i)) i b0
          (virtio_net_init_device w i (candidate c) (candidate_irq c) b0) (omega arith) here
          (init_device_lem w b0 i (candidate c) (candidate_irq c)
            (record { two = tables.two; table = tables.table; rows = tables.rows }) up (omega arith)
            (omega arith))
          (λ b' count tables' up'. init_from_lem w n (suc i) b' (omega arith) count tables' up'))

-- After the initialisation at most two devices are counted, and each of them may be used: DRIVER_OK is
-- set, each of its queues got the size 0 or is well formed, and its interrupt has the driver's handler.
-- It returns 0, with device 0 as the default one, exactly if a device is counted. At the start the two
-- devices' arrays have their 256 entries, and so has the interrupt table.
pub virtio_net_init_all-IsUp :
    (w : World) (b : Board)
    → HasTables b 0
    → let (ok, b') = virtio_net_init_all w b in
      (b'.device_count ≤ 2)
      × ((j : ℕ) → j < b'.device_count → IsUp b'.vectors (device b' j))
      × (((ok ≡ false) × (b'.device_count ≡ 0))
          ⊎ ((ok ≡ true) × (0 < b'.device_count) × (b'.dev ≡ some 0)))
unfolding virtio_net_init_all
virtio_net_init_all-IsUp w b tables =
    let b0 = record (create_global_sem w b) { device_count = 0 } in
    let (few, up) =
      init_from_lem w 2 0 b0 refl refl (global_sem-HasTables w b tables)
        (λ j before. absurd (omega arith)) in
    elim (Bool-cases (ltb 0 (init_from w 2 0 b0).device_count)) [
      | inl some_up ↦ rw some_up (few, up, inr (refl, ground arith, refl))
      | inr none_up ↦ rw none_up (few, up, inl (refl, ground arith))
    ]
