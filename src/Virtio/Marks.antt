-- ===== src/Virtio/Marks.antt =====
-- The ways through virtio_net_init_device in bsp/virtio_net.c, with the accesses that each makes.
use ucosii_arm64_qemu.Prelude.{
  ℕ, ◌≤◌, ◌≡◌, ◌∙◌, refl, ap, Bool, true, false, Option, none, some, List, [], ◌∷◌, leb, ◌==◌,
  if◌then◌else◌, ◌||◌, u32, Bool-cases, inl, inr,
}
use ucosii_arm64_qemu.Addr.{Mac}
use ucosii_arm64_qemu.Mmio.{Bank, Access, Log, Host, mmio_write32}
use ucosii_arm64_qemu.Virtio.Device.{
  Device, Layout, zero_avail, clamp_queue, virtio_net_configure_queue, clear_desc, fill_desc,
  virtio_net_prepare_rx, virtio_net_prepare_tx, identify, negotiate, read_mac, start_rx, start_tx,
  after_rx, after_tx, finish, bring_up,
}
use ucosii_arm64_qemu.Virtio.Ready.{clamp_queue_lem}

-- The writes that the protocol orders, newest first: the device status, the queue that is
-- selected, and the ready flag of that queue.
pub marks : Log → List (ℕ × ℕ)
marks [] = []
marks (Access.read32 bank offset ∷ log) = marks log
marks (Access.write8 bank offset value ∷ log) = marks log
marks (Access.write32 bank offset value ∷ log) =
    if offset == 112 || offset == 68 || offset == 48 then (offset, value) ∷ marks log else marks log

configure_cases {ℓ} :
    (P : Option ℕ × Log → Type ℓ) (host : Host) (base queue : ℕ) (at : Layout) (log : Log)
    → ((log' : Log) → marks log' ≡ (48, queue) ∷ marks log → P (none, log'))
    → ((n : ℕ) (log' : Log)
        → n ≤ 256
        → marks log' ≡ (68, 1) ∷ (48, queue) ∷ marks log
        → P (some n, log'))
    → P (virtio_net_configure_queue host base queue at log)
unfolding virtio_net_configure_queue marks
configure_cases P host base queue at log fails works =
    let reported =
      u32 (host (mmio_write32 (Bank.virtio base) 48 queue log) (Bank.virtio base) 52) in
    elim (Bool-cases (reported == 0)) [
      | inl nothing ↦ rw nothing (fails _ refl)
      | inr more ↦ rw more (works (clamp_queue reported) _ (clamp_queue_lem reported).0 refl)
    ]

-- The rules for the two queues: configured and prepared, or not.
abbrev pub started_rx : ℕ → Device → Device
started_rx n dev = record dev {
  rx_desc = fill_desc n (clear_desc n dev.rx_desc);
  rx = virtio_net_prepare_rx (record (dev.rx) { queue_size = n; avail = zero_avail });
}

abbrev pub started_tx : ℕ → Device → Device
started_tx n dev = record dev {
  tx =
      virtio_net_prepare_tx
        (record (dev.tx) { queue_size = n; avail = zero_avail; desc = clear_desc n dev.tx.desc });
}

start_rx_cases {ℓ} :
    (P : Option Device × Log → Type ℓ) (host : Host) (at : Layout) (dev : Device) (log : Log)
    → ((log' : Log) → marks log' ≡ (48, 0) ∷ marks log → P (none, log'))
    → ((n : ℕ) (log' : Log)
        → n ≤ 256
        → marks log' ≡ (68, 1) ∷ (48, 0) ∷ marks log
        → P (some (started_rx n dev), log'))
    → P (start_rx host at dev log)
unfolding start_rx marks
start_rx_cases P host at dev log fails works =
    configure_cases
      (λ c. P (elim (c.0) as (λ _. Option Device × Log) [
        | none ↦ (none, c.1)
        | some n ↦ (some (started_rx n dev), mmio_write32 (Bank.virtio dev.base) 80 0 c.1)
      ]))
      host dev.base 0 at log fails (λ n log' small m. works n _ small m)

start_tx_cases {ℓ} :
    (P : Option Device × Log → Type ℓ) (host : Host) (at : Layout) (dev : Device) (log : Log)
    → ((log' : Log) → marks log' ≡ (48, 1) ∷ marks log → P (none, log'))
    → ((n : ℕ) (log' : Log)
        → n ≤ 256
        → marks log' ≡ (68, 1) ∷ (48, 1) ∷ marks log
        → P (some (started_tx n dev), log'))
    → P (start_tx host at dev log)
unfolding start_tx
start_tx_cases P host at dev log fails works =
    configure_cases
      (λ c. P (elim (c.0) as (λ _. Option Device × Log) [
        | none ↦ (none, c.1)
        | some n ↦ (some (started_tx n dev), c.1)
      ]))
      host dev.base 1 at log fails (λ n log' small m. works n _ small m)

marks-identify : (host : Host) (base : ℕ) (log : Log) → marks (identify host base log).1 ≡ marks log
unfolding identify marks
marks-identify host base log =
    elim (Bool-cases (u32 (host log (Bank.virtio base) 0) == 1953655158)) [
      | inr other ↦ rw other refl
      | inl magic ↦
          elim (Bool-cases
            (leb (u32 (host (Access.read32 (Bank.virtio base) 0 ∷ log) (Bank.virtio base) 4)) 1)) [
              | inl legacy ↦ rw (magic, legacy) refl
              | inr modern ↦ rw (magic, modern) refl
            ]
    ]

marks-negotiate :
    (host : Host) (base : ℕ) (log : Log)
    → marks (negotiate host base log) ≡ (112, 11) ∷ (112, 3) ∷ (112, 1) ∷ (112, 0) ∷ marks log
unfolding negotiate marks
marks-negotiate host base log = refl

marks-finish :
    (host : Host) (base : ℕ) (log : Log)
    → marks (finish host base log) ≡ (48, 1) ∷ (48, 0) ∷ (112, 15) ∷ marks log
unfolding finish marks
marks-finish host base log = refl

abbrev pub negotiated : Log → List (ℕ × ℕ)
negotiated log = (112, 11) ∷ (112, 3) ∷ (112, 1) ∷ (112, 0) ∷ marks log

-- The ways through the set-up, each with the ordered writes that it made.
pub bring_up_cases {ℓ} :
    (P : Device × Bool × Log → Type ℓ) (host : Host) (at : ℕ → Layout) (dev : Device) (log : Log)
    → ((log' : Log) → marks log' ≡ marks log → P (dev, false, log'))
    → ((mac : Mac) (log' : Log)
        → marks log' ≡ (48, 0) ∷ negotiated log
        → P (record dev { mac = mac }, false, log'))
    → ((mac : Mac) (n : ℕ) (log' : Log)
        → n ≤ 256
        → marks log' ≡ (48, 1) ∷ (68, 1) ∷ (48, 0) ∷ negotiated log
        → P (started_rx n (record dev { mac = mac }), false, log'))
    → ((mac : Mac) (n k : ℕ) (log' : Log)
        → n ≤ 256
        → k ≤ 256
        → marks log'
          ≡ (48, 1) ∷ (48, 0) ∷ (112, 15) ∷ (68, 1) ∷ (48, 1) ∷ (68, 1) ∷ (48, 0) ∷ negotiated log
        → let dev' = started_tx k (started_rx n (record dev { mac = mac })) in
          P (record dev' { tx = record (dev'.tx) { driver_ok = true } }, true, log'))
    → P (bring_up host at dev log)
unfolding bring_up after_rx after_tx
bring_up_cases P host at dev log foreign no_rx no_tx works =
    elim (Bool-cases (identify host dev.base log).0) [
      | inr unknown ↦ rw unknown (foreign _ (marks-identify host dev.base log))
      | inl known ↦ rw known (
          start_rx_cases (λ r. P (after_rx host (at 1) (dev1 known_log) r)) host (at 0)
            (dev1 known_log) _ (λ log' m. no_rx _ log' (m ∙ ap (λ l. (48, 0) ∷ l) shaken))
            (λ n log' small m.
              start_tx_cases (λ r. P (after_tx host (started_rx n (dev1 known_log)) r)) host (at 1)
                (started_rx n (dev1 known_log)) log'
                (λ log'' m'.
                  no_tx _ n log'' small
                    (m' ∙ ap (λ l. (48, 1) ∷ l) (m ∙ ap (λ l. (68, 1) ∷ (48, 0) ∷ l) shaken)))
                (λ k log'' small' m'. works _ n k _ small small' (
                  marks-finish host dev.base log''
                  ∙ ap (λ l. (48, 1) ∷ (48, 0) ∷ (112, 15) ∷ l)
                      (m'
                        ∙ ap (λ l. (68, 1) ∷ (48, 1) ∷ l)
                            (m ∙ ap (λ l. (68, 1) ∷ (48, 0) ∷ l) shaken))))))
    ]
  where
    known_log : Log
    known_log = negotiate host dev.base (identify host dev.base log).1

    dev1 : Log → Device
    dev1 l = record dev { mac = read_mac host dev.base l }

    shaken : marks known_log ≡ negotiated log
    shaken =
        marks-negotiate host dev.base (identify host dev.base log).1
        ∙ ap (λ l. (112, 11) ∷ (112, 3) ∷ (112, 1) ∷ (112, 0) ∷ l)
            (marks-identify host dev.base log)
