-- ===== src/Virtio/Up.antt =====
-- A device of bsp/virtio_net.c that may be used, and its entry in the interrupt table.
use ucosii_arm64_qemu.Prelude.{
  ℕ, ◌<◌, ◌≡◌, ◌≢◌, refl, true, Option, none, some, List, length, length-set, get_or,
  get_or-set_self, get_or-set_ne, ltb, ◌==◌, arith, Bool-cases, inl, inr, ◌⊎◌,
}
use ucosii_arm64_qemu.Irq.{bsp_int_vect_set}
use ucosii_arm64_qemu.Virtio.Receive.{IsQueue}
use ucosii_arm64_qemu.Virtio.Send.{IsTxQueue}
use ucosii_arm64_qemu.Virtio.Device.{Device}
use ucosii_arm64_qemu.Virtio.Board.{Handler, net_handler}

-- A device that may be used: its queues are well formed, and its interrupt has the handler.
pub record IsUp (vectors : List (Option Handler)) (d : Device) : Type 0 where
  pub driver_ok : d.tx.driver_ok ≡ true
  pub rx_ready : (d.rx.queue_size ≡ 0) ⊎ IsQueue d.rx
  pub tx_ready : (d.tx.queue_size ≡ 0) ⊎ IsTxQueue d.tx
  pub irq_in : d.irq < 256
  pub registered : get_or vectors d.irq none ≡ some net_handler

bsp_int_vect_set_keep :
    (table : List (Option Handler)) (irq i : ℕ)
    → i < length table
    → get_or table i none ≡ some net_handler
    → get_or (bsp_int_vect_set irq net_handler table) i none ≡ some net_handler
unfolding bsp_int_vect_set
bsp_int_vect_set_keep table irq i room there = elim (Bool-cases (ltb irq 256)) [
  | inr past ↦ rw past there
  | inl within ↦ elim (Bool-cases (irq == i)) [
    | inl same ↦
        let e : irq ≡ i = ground arith in
        rw (within, e) (get_or-set_self table i (some net_handler) none room)
    | inr other ↦
        let apart : irq ≢ i = λ e. ground arith in
        rw (within, get_or-set_ne table irq i (some net_handler) none apart) there
  ]
]

pub keep_IsUp :
    (vectors : List (Option Handler)) (irq : ℕ) (d d' : Device)
    → length vectors ≡ 256
    → d' ≡ d
    → IsUp vectors d
    → IsUp (bsp_int_vect_set irq net_handler vectors) d'
keep_IsUp vectors irq d d' full same up = rw same (record {
  driver_ok = up.driver_ok;
  rx_ready = up.rx_ready;
  tx_ready = up.tx_ready;
  irq_in = up.irq_in;
  registered =
      bsp_int_vect_set_keep vectors irq d.irq (let i = up.irq_in in omega arith) up.registered;
})

pub bsp_int_vect_set_hit :
    (table : List (Option Handler)) (irq : ℕ)
    → length table ≡ 256
    → irq < 256
    → get_or (bsp_int_vect_set irq net_handler table) irq none ≡ some net_handler
unfolding bsp_int_vect_set
bsp_int_vect_set_hit table irq full small =
    let within : ltb irq 256 ≡ true = ground arith in
    rw within (get_or-set_self table irq (some net_handler) none (omega arith))

pub bsp_int_vect_set-length :
    (table : List (Option Handler)) (irq : ℕ)
    → length (bsp_int_vect_set irq net_handler table) ≡ length table
unfolding bsp_int_vect_set
bsp_int_vect_set-length table irq = elim (Bool-cases (ltb irq 256)) [
  | inl within ↦ rw within (length-set table irq (some net_handler))
  | inr past ↦ rw past refl
]
