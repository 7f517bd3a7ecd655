-- ===== src/Net/Handed.antt =====
-- How the sends and the flushes of net_rx_task in src/net_demo.c leave each device.
use ucosii_arm64_qemu.Prelude.{
  ℕ, zero, suc, ◌+◌, ◌++◌, if◌then◌else◌, ◌<◌, ◌≡◌, ◌≢◌, ◌∙◌, refl, ap, true, false, some, List, [],
  ◌∷◌, ltb, leb, ◌==◌, arith, set, length, get_or, get_or-set, get_or-set_self, get_or-set_ne,
  length-set, Bool-cases, inl, inr,
}
use ucosii_arm64_qemu.Virtio.Tx.{TxQueue, virtio_net_tx_flush_dev, virtio_net_send_frame_dev}
use ucosii_arm64_qemu.Virtio.Device.{Device}
use ucosii_arm64_qemu.Virtio.Board.{Board, device, no_device}
use ucosii_arm64_qemu.Virtio.Interrupt.{tx_flush_dev, virtio_net_rx_flush_dev}
use ucosii_arm64_qemu.Virtio.Single.{send_on}
use ucosii_arm64_qemu.Bytes.{Memory}
use ucosii_arm64_qemu.Net.Frame.{Packet}
use ucosii_arm64_qemu.Net.Round.{dev_of, frame_bytes, send_packets, flush_all}

-- The receive queues and the number of devices stay.
pub record Keeps (b b' : Board) : Type 0 where
  pub rx : (j : ℕ) → (device b' j).rx ≡ (device b j).rx
  pub count : b'.device_count ≡ b.device_count
  pub size : length b'.devices ≡ length b.devices

Keeps-refl : (b : Board) → Keeps b b
Keeps-refl b = record { rx = λ j. refl; count = refl; size = refl }

Keeps-trans : (a b c : Board) → Keeps a b → Keeps b c → Keeps a c
Keeps-trans a b c k l = record {
  rx = λ j. l.rx j ∙ k.rx j;
  count = l.count ∙ k.count;
  size = l.size ∙ k.size;
}

-- A field that a device keeps when it is written back.
pub set_field :
    {X : Type 0} (f : Device → X) (devices : List Device) (i : ℕ) (d : Device) (j : ℕ)
    → f d ≡ f (get_or devices i no_device)
    → f (get_or (set devices i d) j no_device) ≡ f (get_or devices j no_device)
set_field f devices i d j same =
    ap f (get_or-set devices i j d no_device) ∙ elim (Bool-cases (i == j)) [
      | inr other ↦ rw other refl
      | inl here ↦
          let at : i ≡ j = ground arith in
          elim (Bool-cases (ltb i (length devices))) [
            | inl within ↦ rw (here, within) (same ∙ ap (λ x. f (get_or devices x no_device)) at)
            | inr past ↦ rw (here, past) refl
          ]
    ]

send_on-Keeps :
    (used : ℕ → ℕ) (frame : List ℕ) (n : ℕ) (b : Board) (i : ℕ)
    → Keeps b (send_on used frame n b (some i)).1
unfolding send_on
send_on-Keeps used frame n b i = record {
  rx = λ j. set_field (λ d. d.rx) b.devices i _ j refl;
  count = refl;
  size = length-set b.devices i _;
}

pub send_packets-Keeps :
    (used : ℕ → ℕ → ℕ) (k : ℕ) (ps : List Packet) (b : Board) → Keeps b (send_packets used k ps b)
unfolding send_packets
send_packets-Keeps used k [] b = Keeps-refl b
send_packets-Keeps used k (p ∷ ps) b =
    Keeps-trans b _ _ (send_on-Keeps (used k) _ p.length b (dev_of p.side))
      (send_packets-Keeps used (suc k) ps _)

tx_flush-Keeps : (i : ℕ) (b : Board) → Keeps b (tx_flush_dev i b)
unfolding tx_flush_dev
tx_flush-Keeps i b = elim (Bool-cases (leb b.device_count i)) [
  | inl past ↦ rw past (Keeps-refl b)
  | inr within ↦ rw within (record {
    rx = λ j. set_field (λ d. d.rx) b.devices i _ j refl;
    count = refl;
    size = length-set b.devices i _;
  })
]

-- A flush ends the batch of its device, and leaves the other devices' transmit queues alone.
tx_flush_same :
    (i : ℕ) (b : Board)
    → i < b.device_count
    → i < length b.devices
    → (device (tx_flush_dev i b) i).tx ≡ record ((device b i).tx) { batch_count = 0 }
unfolding tx_flush_dev virtio_net_tx_flush_dev
tx_flush_same i b below room =
    let within : leb b.device_count i ≡ false = ground arith in
    let tx = (device b i).tx in
    let flushed : (virtio_net_tx_flush_dev tx).0 ≡ record tx { batch_count = 0 } =
      elim (Bool-cases (ltb 0 tx.batch_count)) [
        | inl more ↦ rw more refl
        | inr idle ↦
            let none_waits : tx.batch_count ≡ 0 = ground arith in
            rw idle (ap (λ (n : ℕ). record tx { batch_count = n }) none_waits)
      ] in
    rw within (
      ap (λ d. d.tx)
        (get_or-set_self b.devices i (record (device b i) { tx = (virtio_net_tx_flush_dev tx).0 })
          no_device room)
      ∙ flushed)

tx_flush_other : (i j : ℕ) (b : Board) → i ≢ j → (device (tx_flush_dev i b) j).tx ≡ (device b j).tx
unfolding tx_flush_dev
tx_flush_other i j b apart = elim (Bool-cases (leb b.device_count i)) [
  | inl past ↦ rw past refl
  | inr within ↦ rw within (ap (λ d. d.tx) (get_or-set_ne b.devices i j _ no_device apart))
]

rx_flush-tx : (i j : ℕ) (b : Board) → (device (virtio_net_rx_flush_dev i b) j).tx ≡ (device b j).tx
unfolding virtio_net_rx_flush_dev
rx_flush-tx i j b = elim (Bool-cases (leb 2 i)) [
  | inl past ↦ rw past refl
  | inr within ↦ rw within refl
]

rx_flush-Keeps : (i : ℕ) (b : Board) → Keeps b (virtio_net_rx_flush_dev i b)
unfolding virtio_net_rx_flush_dev
rx_flush-Keeps i b = elim (Bool-cases (leb 2 i)) [
  | inl past ↦ rw past (Keeps-refl b)
  | inr within ↦ rw within (record { rx = λ j. refl; count = refl; size = refl })
]

pub flush_all-Keeps : (b : Board) → Keeps b (flush_all b)
unfolding flush_all
flush_all-Keeps b = Keeps-trans b _ _ (rx_flush-Keeps 0 b) (
    Keeps-trans _ _ _ (rx_flush-Keeps 1 _)
      (Keeps-trans _ _ _ (tx_flush-Keeps 0 _) (tx_flush-Keeps 1 _)))

pub flush_all-tx :
    (b : Board)
    → b.device_count ≡ 2
    → length b.devices ≡ 2
    → ((device (flush_all b) 0).tx ≡ record ((device b 0).tx) { batch_count = 0 })
      × ((device (flush_all b) 1).tx ≡ record ((device b 1).tx) { batch_count = 0 })
unfolding flush_all
flush_all-tx b two rows =
    let first = virtio_net_rx_flush_dev 1 (virtio_net_rx_flush_dev 0 b) in
    let told = Keeps-trans b _ first (rx_flush-Keeps 0 b) (rx_flush-Keeps 1 _) in
    let zeroth = tx_flush-Keeps 0 first in
    let same = λ (j : ℕ). rx_flush-tx 1 j (virtio_net_rx_flush_dev 0 b) ∙ rx_flush-tx 0 j b in
    (
      tx_flush_other 1 0 (tx_flush_dev 0 first) (λ e. omega arith)
          ∙ tx_flush_same 0 first (omega (arith, told.count)) (omega (arith, told.size))
          ∙ ap (λ (t : TxQueue). record t { batch_count = 0 }) (same 0),
      tx_flush_same 1 (tx_flush_dev 0 first) (omega (arith, told.count, zeroth.count))
            (omega (arith, told.size, zeroth.size))
          ∙ ap (λ (t : TxQueue). record t { batch_count = 0 })
              (tx_flush_other 0 1 first (λ e. omega arith) ∙ same 1),
    )

-- The independent description of the sends: the bytes of a frame, and what device `j`'s transmit queue
-- is when the frames for it, and no others, were offered to it one after another.
unfoldable pub bytes_of : Memory → ℕ → List ℕ
bytes_of m zero = []
bytes_of m (suc n) = bytes_of m n ++ m n ∷ []

unfoldable pub queue_all : (ℕ → ℕ → ℕ) → ℕ → ℕ → List Packet → TxQueue → TxQueue
queue_all used k j [] tx = tx
queue_all used k j (p ∷ ps) tx =
    let offered = (virtio_net_send_frame_dev (used k) (bytes_of p.frame p.length) p.length tx).tx in
    queue_all used (suc k) j ps (if dev_of p.side == j then offered else tx)

frame_bytes-snoc :
    (m : Memory) (i n : ℕ) → frame_bytes m i (suc n) ≡ frame_bytes m i n ++ m (i + n) ∷ []
unfolding frame_bytes
frame_bytes-snoc m i zero = ap (λ a. m a ∷ []) (omega arith)
frame_bytes-snoc m i (suc n) =
    ap (λ l. m i ∷ l)
      (frame_bytes-snoc m (suc i) n
        ∙ ap (λ a. frame_bytes m (suc i) n ++ m a ∷ [])
            (let e : suc i + n ≡ i + suc n = omega arith in e))

frame_bytes-bytes_of : (m : Memory) (n : ℕ) → frame_bytes m 0 n ≡ bytes_of m n
unfolding bytes_of
frame_bytes-bytes_of m zero = unfold frame_bytes in refl
frame_bytes-bytes_of m (suc n) =
    frame_bytes-snoc m 0 n
    ∙ ap (λ a. frame_bytes m 0 n ++ m a ∷ []) (let e : 0 + n ≡ n = omega arith in e)
    ∙ ap (λ l. l ++ m n ∷ []) (frame_bytes-bytes_of m n)

send_on-tx :
    (used : ℕ → ℕ) (frame : List ℕ) (n : ℕ) (b : Board) (i j : ℕ)
    → j < length b.devices
    → (device (send_on used frame n b (some i)).1 j).tx ≡ (
        if i == j
        then (virtio_net_send_frame_dev used frame n (device b j).tx).tx
        else (device b j).tx)
unfolding send_on
send_on-tx used frame n b i j room =
    ap (λ d. d.tx) (get_or-set b.devices i j _ no_device) ∙ elim (Bool-cases (i == j)) [
      | inr other ↦ rw other refl
      | inl here ↦
          let at : i ≡ j = ground arith in
          let within : ltb i (length b.devices) ≡ true = ground arith in
          rw (here, within)
            (ap (λ x. (virtio_net_send_frame_dev used frame n (device b x).tx).tx) at)
    ]

pub send_packets-tx :
    (used : ℕ → ℕ → ℕ) (k : ℕ) (ps : List Packet) (b : Board) (j : ℕ)
    → j < length b.devices
    → (device (send_packets used k ps b) j).tx ≡ queue_all used k j ps (device b j).tx
unfolding send_packets queue_all
send_packets-tx used k [] b j room = refl
send_packets-tx used k (p ∷ ps) b j room =
    let bytes = frame_bytes-bytes_of p.frame p.length in
    let b1 =
      (send_on (used k) (frame_bytes p.frame 0 p.length) p.length b (some (dev_of p.side))).1 in
    let kept = send_on-Keeps (used k) (frame_bytes p.frame 0 p.length) p.length b (dev_of p.side) in
    send_packets-tx used (suc k) ps b1 j (omega (arith, kept.size))
    ∙ ap (queue_all used (suc k) j ps) (
        send_on-tx (used k) (frame_bytes p.frame 0 p.length) p.length b (dev_of p.side) j room
        ∙ rw bytes refl)
