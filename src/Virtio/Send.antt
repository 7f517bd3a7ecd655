-- ===== src/Virtio/Send.antt =====
-- What the transmit path of bsp/virtio_net.c guarantees.
use ucosii_arm64_qemu.Prelude.{
  ℕ, ◌+◌, ◌%◌, ◌≤◌, ◌<◌, ◌≡◌, ◌∙◌, refl, sym, ap, subst, Bool, true, false, List, [], ◌∷◌, ◌++◌,
  ltb, ◌==◌, if◌then◌else◌, ◌||◌, arith, u16, sub16, get_or, take, drop, replicate, length,
  length-set, get_or-set_self, Bool-cases, inl, inr,
}
use ucosii_arm64_qemu.Virtio.Tx.{
  TxQueue, Sent, no_desc, free_slots, find_slots, fill_buffer, queue_frame,
  virtio_net_send_frame_dev, virtio_net_tx_flush_dev,
}
use ucosii_arm64_qemu.Virtio.Slots.{find_slots_done}

pub record IsTxQueue (tx : TxQueue) : Type 0 where
  pub size_pos : 0 < tx.queue_size
  pub size_max : tx.queue_size ≤ 256
  pub descs : length tx.desc ≡ 256
  pub ring : length tx.avail.ring ≡ 256
  pub storage : length tx.buffers ≡ 256
  pub idx_in : tx.avail.idx < 65536
  pub last_in : tx.last_used < 65536
  pub in_flight : sub16 tx.avail.idx tx.last_used ≤ tx.queue_size
  pub batch : tx.batch_count < 16

-- What a device that follows the protocol reports: an index from which no more than the whole queue
-- is in flight.
abbrev pub Follows : (ℕ → ℕ) → TxQueue → Type 0
Follows device tx = (n : ℕ) → (device n < 65536) × (sub16 tx.avail.idx (device n) ≤ tx.queue_size)

if_true {ℓ} : {A : Type ℓ} (b : Bool) (x y : A) → b ≡ true → (if b then x else y) ≡ x
if_true true x y h = refl
if_true false x y h = absurd (cc)

if_false {ℓ} : {A : Type ℓ} (b : Bool) (x y : A) → b ≡ false → (if b then x else y) ≡ y
if_false true x y h = absurd (cc)
if_false false x y h = refl

-- The paths of a send: refused before looking, refused after, or queued.
send_cases {ℓ} :
    (P : Sent → Type ℓ) (device : ℕ → ℕ) (frame : List ℕ) (n : ℕ) (tx : TxQueue)
    → P (record { tx = tx; notified = false; accepted = false })
    → P (record {
      tx = record tx { last_used = (find_slots device tx).last_used };
      notified = false;
      accepted = false;
    })
    → (2 ≤ (find_slots device tx).slots
        → 0 < n
        → n ≤ 1518
        → tx.driver_ok ≡ true
        → P (queue_frame frame n (record tx { last_used = (find_slots device tx).last_used })))
    → P (virtio_net_send_frame_dev device frame n tx)
unfolding virtio_net_send_frame_dev
send_cases P device frame n tx early late queued = elim (Bool-cases tx.driver_ok) [
  | inr down ↦ subst P (sym (if_false tx.driver_ok _ _ down)) early
  | inl up ↦ subst P (sym (if_true tx.driver_ok _ _ up)) (elim (Bool-cases (n == 0 || ltb 1518 n)) [
    | inl bad ↦ rw bad early
    | inr good ↦ elim (Bool-cases (ltb (find_slots device tx).slots 2)) [
      | inl full ↦ rw (good, full) late
      | inr room ↦ rw (good, room) (queued (ground arith) (ground arith) (ground arith) up)
    ]
  ])
]

looked-IsTxQueue :
    (device : ℕ → ℕ) (tx : TxQueue)
    → Follows device tx
    → IsTxQueue tx
    → IsTxQueue (record tx { last_used = (find_slots device tx).last_used })
looked-IsTxQueue device tx follows v =
    let (slots, (k, counted, same), more, ended) = find_slots_done device tx in
    record {
      size_pos = v.size_pos;
      size_max = v.size_max;
      descs = v.descs;
      ring = v.ring;
      storage = v.storage;
      idx_in = v.idx_in;
      last_in = rw same (follows k).0;
      in_flight = rw same (follows k).1;
      batch = v.batch;
    }

queue_frame-IsTxQueue :
    (frame : List ℕ) (n : ℕ) (tx : TxQueue)
    → 2 ≤ free_slots tx.queue_size tx.avail.idx tx.last_used
    → IsTxQueue tx
    → IsTxQueue (queue_frame frame n tx).tx
unfolding queue_frame free_slots
queue_frame-IsTxQueue frame n tx room v = record {
  size_pos = v.size_pos;
  size_max = v.size_max;
  descs = length-set tx.desc _ _ ∙ v.descs;
  ring = length-set tx.avail.ring _ _ ∙ v.ring;
  storage = length-set tx.buffers _ _ ∙ v.storage;
  idx_in = omega arith;
  last_in = v.last_in;
  in_flight = omega (arith, v.in_flight, v.size_max, v.idx_in, v.last_in);
  batch = ground (arith, v.batch);
}

-- With a device that follows the protocol a send keeps the queue well formed: never more frames in
-- flight than the queue has slots, and fewer than sixteen frames that wait for a notification.
pub virtio_net_send_frame_dev-IsTxQueue :
    (device : ℕ → ℕ) (frame : List ℕ) (n : ℕ) (tx : TxQueue)
    → Follows device tx
    → IsTxQueue tx
    → IsTxQueue (virtio_net_send_frame_dev device frame n tx).tx
virtio_net_send_frame_dev-IsTxQueue device frame n tx follows v =
    send_cases (λ r. IsTxQueue r.tx) device frame n tx v (looked-IsTxQueue device tx follows v)
      (λ room _ _ _.
        queue_frame-IsTxQueue frame n _
          (let (slots, k, more, ended) = find_slots_done device tx in rw (← slots) room)
          (looked-IsTxQueue device tx follows v))

-- A refused send leaves descriptors, rings, buffers and the batch as they were, and is silent.
pub virtio_net_send_refused :
    (device : ℕ → ℕ) (frame : List ℕ) (n : ℕ) (tx : TxQueue)
    → (virtio_net_send_frame_dev device frame n tx).accepted ≡ false
    → let r = virtio_net_send_frame_dev device frame n tx in
      (r.notified ≡ false) × (record (r.tx) { last_used = 0 } ≡ record tx { last_used = 0 })
virtio_net_send_refused device frame n tx =
    send_cases
      (λ r.
        r.accepted ≡ false
        → (r.notified ≡ false) × (record (r.tx) { last_used = 0 } ≡ record tx { last_used = 0 }))
      device frame n tx (λ _. (refl, refl)) (λ _. (refl, refl))
      (λ _ _ _ _ h. absurd (unfold queue_frame in cc))

take_prefix : (xs ys : List ℕ) → take (length xs) (xs ++ ys) ≡ xs
take_prefix [] ys = refl
take_prefix (x ∷ xs) ys = ap (λ k. x ∷ k) (take_prefix xs ys)

-- What holds of a frame that was queued.
pub record Accepted (frame : List ℕ) (n : ℕ) (tx : TxQueue) (r : Sent) : Type 0 where
  pub length_pos : 0 < n
  pub length_max : n ≤ 1518
  pub described :
      get_or r.tx.desc (tx.avail.idx % tx.queue_size) no_desc
      ≡ record { buffer = tx.avail.idx % tx.queue_size; len = n + 12; flags = 0; next = 0 }
  pub offered :
      get_or r.tx.avail.ring (tx.avail.idx % tx.queue_size) 0 ≡ tx.avail.idx % tx.queue_size
  pub next_idx : r.tx.avail.idx ≡ u16 (tx.avail.idx + 1)
  pub zeroed : take 12 (get_or r.tx.buffers (tx.avail.idx % tx.queue_size) []) ≡ replicate 12 0
  pub copied :
      take (length (take n frame)) (drop 12 (get_or r.tx.buffers (tx.avail.idx % tx.queue_size) []))
      ≡ take n frame
  pub sixteenth : r.notified ≡ (tx.batch_count == 15)
  pub batched : r.tx.batch_count ≡ (if tx.batch_count == 15 then 0 else tx.batch_count + 1)

queue_frame-Accepted :
    (frame : List ℕ) (n : ℕ) (tx : TxQueue) (last_used : ℕ)
    → IsTxQueue tx
    → 0 < n
    → n ≤ 1518
    → Accepted frame n tx (queue_frame frame n (record tx { last_used = last_used }))
unfolding queue_frame
queue_frame-Accepted frame n tx last_used v pos max =
    let slot_in : tx.avail.idx % tx.queue_size < 256 = omega (arith, v.size_pos, v.size_max) in
    let written =
      get_or-set_self tx.buffers (tx.avail.idx % tx.queue_size)
        (fill_buffer frame n (get_or tx.buffers (tx.avail.idx % tx.queue_size) (replicate 2048 0)))
        [] (omega (arith, v.storage)) in
    record {
      length_pos = pos;
      length_max = max;
      described = get_or-set_self tx.desc _ _ _ (omega (arith, v.descs));
      offered = get_or-set_self tx.avail.ring _ _ _ (omega (arith, v.ring));
      next_idx = refl;
      zeroed = rw (written, fill_buffer) refl;
      copied = rw (written, fill_buffer) (take_prefix (take n frame) _);
      sixteenth = ground (arith, v.batch);
      batched = ground (arith, v.batch);
    }

-- What an accepted send on a well-formed queue guarantees: the frame has between 1 and 1518 bytes; it stands behind twelve
-- zero bytes at the start of the buffer of the next slot, whose descriptor names that buffer and the
-- length with the header and is next in the available ring. The device is notified exactly if it is
-- the sixteenth frame of a batch.
pub virtio_net_send_accepted :
    (device : ℕ → ℕ) (frame : List ℕ) (n : ℕ) (tx : TxQueue)
    → IsTxQueue tx
    → (virtio_net_send_frame_dev device frame n tx).accepted ≡ true
    → Accepted frame n tx (virtio_net_send_frame_dev device frame n tx)
virtio_net_send_accepted device frame n tx v =
    send_cases (λ r. r.accepted ≡ true → Accepted frame n tx r) device frame n tx (λ h. absurd (cc))
      (λ h. absurd (cc))
      (λ room pos max up ok.
        queue_frame-Accepted frame n tx (find_slots device tx).last_used v pos max)

-- A flush announces the frames that wait, if there are any, and then none wait.
pub virtio_net_tx_flush_dev_lem :
    (tx : TxQueue)
    → let (tx', notified) = virtio_net_tx_flush_dev tx in
      (tx' ≡ record tx { batch_count = 0 }) × (notified ≡ ltb 0 tx.batch_count)
unfolding virtio_net_tx_flush_dev
virtio_net_tx_flush_dev_lem tx = ground arith
