-- ===== src/Virtio/BringUp.antt =====
-- The two promises of virtio_net_init_device in bsp/virtio_net.c: the order in which it talks to the
-- device, and the queues that it leaves.
use ucosii_arm64_qemu.Prelude.{
  ℕ, zero, suc, arith, ◌<◌, ◌≡◌, refl, ◌∙◌, true, false, ◌∷◌, length-replicate, inl, inr, ◌⊎◌,
}
use ucosii_arm64_qemu.Mmio.{Log, Host}
use ucosii_arm64_qemu.Virtio.Tx.{TxQueue}
use ucosii_arm64_qemu.Virtio.Receive.{IsQueue}
use ucosii_arm64_qemu.Virtio.Send.{IsTxQueue}
use ucosii_arm64_qemu.Virtio.Device.{
  Device, Layout, bring_up, virtio_net_prepare_rx, virtio_net_prepare_tx, clear_desc, zero_avail,
}
use ucosii_arm64_qemu.Virtio.Ready.{
  HasRows, prepare_rx-IsQueue, prepare_tx-IsTxQueue, clear_desc-length,
}
use ucosii_arm64_qemu.Virtio.Marks.{marks, negotiated, bring_up_cases}

-- The writes of a set-up that succeeds to the status, the queue selector and the ready flag are,
-- oldest first: the reset, ACKNOWLEDGE, DRIVER, FEATURES_OK, queue 0 selected and ready, queue 1
-- selected and ready, DRIVER_OK, and either queue selected once more. A set-up that fails stopped before the first, with queue 0 selected
-- after FEATURES_OK, or with queue 1 selected after queue 0 was ready, and never wrote DRIVER_OK.
pub bring_up-marks :
    (host : Host) (at : ℕ → Layout) (dev : Device) (log : Log)
    → let (dev1, ok, log1) = bring_up host at dev log in
      ((ok ≡ true)
        × (marks log1
            ≡ (48, 1)
              ∷ (48, 0)
              ∷ (112, 15)
              ∷ (68, 1)
              ∷ (48, 1)
              ∷ (68, 1)
              ∷ (48, 0)
              ∷ negotiated log))
      ⊎ ((ok ≡ false)
          × ((marks log1 ≡ marks log)
              ⊎ ((marks log1 ≡ (48, 0) ∷ negotiated log)
                  ⊎ (marks log1 ≡ (48, 1) ∷ (68, 1) ∷ (48, 0) ∷ negotiated log))))
bring_up-marks host at dev log =
    bring_up_cases
      (λ r.
        ((r.1 ≡ true)
          × (marks r.2
              ≡ (48, 1)
                ∷ (48, 0)
                ∷ (112, 15)
                ∷ (68, 1)
                ∷ (48, 1)
                ∷ (68, 1)
                ∷ (48, 0)
                ∷ negotiated log))
        ⊎ ((r.1 ≡ false)
            × ((marks r.2 ≡ marks log)
                ⊎ ((marks r.2 ≡ (48, 0) ∷ negotiated log)
                    ⊎ (marks r.2 ≡ (48, 1) ∷ (68, 1) ∷ (48, 0) ∷ negotiated log)))))
      host at dev log (λ l m. inr (refl, inl m)) (λ mac l m. inr (refl, inr (inl m)))
      (λ mac n l small m. inr (refl, inr (inr m))) (λ mac n k l small small' m. inl (refl, m))

sized {ℓ} : {A : Type ℓ} (n : ℕ) → (0 < n → A) → (n ≡ 0) ⊎ A
sized zero f = inl refl
sized (suc n) f = inr (f (omega arith))

usable_IsTxQueue : (tx : TxQueue) → IsTxQueue tx → IsTxQueue (record tx { driver_ok = true })
usable_IsTxQueue tx v = record {
  size_pos = v.size_pos;
  size_max = v.size_max;
  descs = v.descs;
  ring = v.ring;
  storage = v.storage;
  idx_in = v.idx_in;
  last_in = v.last_in;
  in_flight = v.in_flight;
  batch = v.batch;
}

-- Where the set-up succeeds, the device may be used, and each of its two queues got the size 0 or is
-- well formed: the receive queue with every buffer offered to the device, the transmit
-- queue empty. The device's arrays have their 256 entries.
pub bring_up-IsQueue :
    (host : Host) (at : ℕ → Layout) (dev : Device) (log : Log)
    → HasRows dev
    → let (dev1, ok, log1) = bring_up host at dev log in
      ok ≡ true
      → (dev1.tx.driver_ok ≡ true)
        × ((dev1.rx.queue_size ≡ 0) ⊎ (IsQueue dev1.rx × (dev1.rx.avail.idx ≡ dev1.rx.queue_size)))
        × ((dev1.tx.queue_size ≡ 0) ⊎ (IsTxQueue dev1.tx × (dev1.tx.avail.idx ≡ 0)))
unfolding virtio_net_prepare_rx virtio_net_prepare_tx
bring_up-IsQueue host at dev log rows =
    bring_up_cases
      (λ r.
        r.1 ≡ true
        → (r.0.tx.driver_ok ≡ true)
          × ((r.0.rx.queue_size ≡ 0) ⊎ (IsQueue r.0.rx × (r.0.rx.avail.idx ≡ r.0.rx.queue_size)))
          × ((r.0.tx.queue_size ≡ 0) ⊎ (IsTxQueue r.0.tx × (r.0.tx.avail.idx ≡ 0))))
      host at dev log (λ l m ok. absurd (cc)) (λ mac l m ok. absurd (cc))
      (λ mac n l small m ok. absurd (cc))
      (λ mac n k l small small' m ok. (
        refl,
        sized n (λ pos. (
          prepare_rx-IsQueue (record (dev.rx) { queue_size = n; avail = zero_avail }) pos small
              rows.completions (length-replicate {A = ℕ} 256 0),
          refl,
        )),
        sized k (λ pos. (
          usable_IsTxQueue _ (
              prepare_tx-IsTxQueue
                (record (dev.tx) {
                  queue_size = k;
                  avail = zero_avail;
                  desc = clear_desc k dev.tx.desc;
                })
                pos small' (clear_desc-length k dev.tx.desc ∙ rows.descs) rows.storage
                (length-replicate {A = ℕ} 256 0) rows.no_batch),
          refl,
        )),
      ))
