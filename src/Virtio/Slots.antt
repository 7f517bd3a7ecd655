-- ===== src/Virtio/Slots.antt =====
-- The search for free transmit slots in bsp/virtio_net.c, with its bounded wait.
use ucosii_arm64_qemu.Prelude.{
  ℕ, zero, suc, ◌+◌, ◌-◌, ◌%◌, ◌≤◌, ◌<◌, ◌≡◌, ◌⊎◌, refl, ltb, leb, ◌==◌, ◌&&◌, arith, u16,
  Bool-cases, inl, inr,
}
use ucosii_arm64_qemu.Virtio.Tx.{
  TxQueue, Wait, free_slots, read_used, retry, wait_slots, find_slots,
}

-- The last index read, the slots that it leaves, and a read for each retry and one more.
abbrev Fresh : (ℕ → ℕ) → TxQueue → Wait → Type 0
Fresh device tx w =
    (w.slots ≡ free_slots tx.queue_size tx.avail.idx w.last_used)
    × ((k : ℕ) × (w.reads ≡ suc k) × (w.last_used ≡ device k))
    × (w.retries < w.reads)

read_used-Fresh :
    (device : ℕ → ℕ) (tx : TxQueue) (w : Wait)
    → w.retries ≤ w.reads
    → Fresh device tx (read_used device tx.queue_size tx.avail.idx w)
unfolding read_used
read_used-Fresh device tx w h = (refl, (w.reads, omega arith, refl), omega arith)

retry-Fresh :
    (device : ℕ → ℕ) (tx : TxQueue) (w : Wait)
    → Fresh device tx w
    → w.retries + 1 < w.reads
    → Fresh device tx (retry device tx.queue_size tx.avail.idx w)
unfolding retry
retry-Fresh device tx w (slots, last, more) h = elim (Bool-cases (u16 (w.retries + 1) % 10 == 0)) [
  | inl tenth ↦
      rw tenth
        (read_used-Fresh device tx (record w { retries = u16 (w.retries + 1) }) (omega arith))
  | inr other ↦ rw other (slots, last, omega arith)
]

-- The loop taken one round: it stops before the round, in it, or goes on.
wait_cases {ℓ} :
    (P : Wait → Type ℓ) (fuel : ℕ) (device : ℕ → ℕ) (size avail_idx : ℕ) (w : Wait)
    → ((4 ≤ w.slots) ⊎ (100 ≤ w.retries) → P w)
    → (4 ≤ (read_used device size avail_idx w).slots → P (read_used device size avail_idx w))
    → (w.retries < 100
        → P (
            wait_slots fuel device size avail_idx
              (retry device size avail_idx (read_used device size avail_idx w))))
    → P (wait_slots (suc fuel) device size avail_idx w)
unfolding wait_slots
wait_cases P fuel device size avail_idx w stop freed again =
    elim (Bool-cases (ltb w.slots 4 && ltb w.retries 100)) [
      | inr ended ↦ rw ended (stop (ground arith))
      | inl more ↦ elim (Bool-cases (leb 4 (read_used device size avail_idx w).slots)) [
        | inl enough ↦ rw (more, enough) (freed (ground arith))
        | inr short ↦ rw (more, short) (again (ground arith))
      ]
    ]

wait_slots-Fresh :
    (fuel : ℕ) (device : ℕ → ℕ) (tx : TxQueue) (w : Wait)
    → Fresh device tx w
    → Fresh device tx (wait_slots fuel device tx.queue_size tx.avail.idx w)
wait_slots-Fresh zero device tx w f = unfold wait_slots in f
wait_slots-Fresh (suc fuel) device tx w f =
    let kept : w.retries ≤ w.reads = omega (arith, f.2) in
    let read = read_used-Fresh device tx w kept in
    let counted : (read_used device tx.queue_size tx.avail.idx w).retries + 1
        < (read_used device tx.queue_size tx.avail.idx w).reads =
      unfold read_used in omega (arith, f.2) in
    wait_cases (Fresh device tx) fuel device tx.queue_size tx.avail.idx w (λ _. f) (λ _. read)
      (λ _. wait_slots-Fresh fuel device tx _ (retry-Fresh device tx _ read counted))

retry-retries :
    (device : ℕ → ℕ) (size avail_idx : ℕ) (w : Wait)
    → w.retries < 100
    → (retry device size avail_idx (read_used device size avail_idx w)).retries ≡ w.retries + 1
unfolding retry read_used
retry-retries device size avail_idx w h = ground arith

-- The wait ends by its own test: no fuel above the retries left is missing.
wait_slots-done :
    (fuel : ℕ) (device : ℕ → ℕ) (size avail_idx : ℕ) (w : Wait)
    → w.retries ≤ 100
    → 100 - w.retries < fuel
    → (4 ≤ (wait_slots fuel device size avail_idx w).slots)
      ⊎ ((wait_slots fuel device size avail_idx w).retries ≡ 100)
wait_slots-done zero device size avail_idx w h k = absurd (omega arith)
wait_slots-done (suc fuel) device size avail_idx w h k =
    wait_cases (λ r. (4 ≤ r.slots) ⊎ (r.retries ≡ 100)) fuel device size avail_idx w
      (λ e. omega arith) (λ e. inl e)
      (λ e.
        wait_slots-done fuel device size avail_idx _
          (omega (arith, retry-retries device size avail_idx w e))
          (omega (arith, retry-retries device size avail_idx w e)))

-- The search for free slots ends with four of them or after a hundred retries. It has read the used
-- index at least once more than it has retried, the index that it records is the one of its last read,
-- and its number of slots is the one for that index.
pub find_slots_done :
    (device : ℕ → ℕ) (tx : TxQueue)
    → let w = find_slots device tx in
      (w.slots ≡ free_slots tx.queue_size tx.avail.idx w.last_used)
      × ((k : ℕ) × (w.reads ≡ suc k) × (w.last_used ≡ device k))
      × (w.retries < w.reads)
      × ((4 ≤ w.slots) ⊎ (w.retries ≡ 100))
unfolding find_slots
find_slots_done device tx = elim (Bool-cases (ltb first.slots 4)) [
  | inl few ↦
      let (a, b, c) =
        wait_slots-Fresh 101 device tx first (read_used-Fresh device tx start (omega arith)) in
      rw few (
        a,
        b,
        c,
        wait_slots-done 101 device tx.queue_size tx.avail.idx first zero_retries zero_left,
      )
  | inr enough ↦
      let (a, b, c) = read_used-Fresh device tx start (omega arith) in
      rw enough (a, b, c, inl (ground arith))
]
  where
    start : Wait
    start = record { reads = 0; retries = 0; last_used = tx.last_used; slots = 0 }

    first : Wait
    first = read_used device tx.queue_size tx.avail.idx start

    zero_retries : first.retries ≤ 100
    zero_retries = unfold read_used in omega arith

    zero_left : 100 - first.retries < 101
    zero_left = unfold read_used in omega arith
