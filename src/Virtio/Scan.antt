-- ===== src/Virtio/Scan.antt =====
-- virtio_net_scan in bsp/virtio_net.c: the search for the n-th network device among the sixteen
-- transports of the board.
use ucosii_arm64_qemu.Prelude.{
  ℕ, zero, suc, ◌+◌, ◌*◌, ◌≡◌, ◌≤◌, ◌<◌, refl, subst, Bool, true, false, Option, none, some, List,
  [], ◌∷◌, ◌==◌, if◌then◌else◌, ◌&&◌, ◌||◌, u32, arith, Bool-cases, inl, inr,
}
use ucosii_arm64_qemu.Mmio.{Bank, Log, Host, mmio_read32}

-- `candidates[i]` and `irqs[i]`
abbrev pub candidate : ℕ → ℕ
candidate i = 167772160 + i * 512

abbrev pub candidate_irq : ℕ → ℕ
candidate_irq i = 48 + i

-- The loop with `n` candidates left, from `i` on.
unfoldable pub scan_from : Host → ℕ → ℕ → ℕ → ℕ → Log → Option (ℕ × ℕ) × Log
scan_from host zero i found_count start_index log = (none, log)
scan_from host (suc n) i found_count start_index log =
    let (magic, log1) = mmio_read32 host (Bank.virtio (candidate i)) 0 log in
    let (device_id, log2) = mmio_read32 host (Bank.virtio (candidate i)) 8 log1 in
    let virtio = magic == 1953655158 in
    let net = virtio && (device_id == 1 || device_id == 0) in
    let log' = if virtio then log2 else log1 in
    let rest =
      scan_from host n (suc i) (if net then suc found_count else found_count) start_index log' in
    if net && found_count == start_index then (some (candidate i, candidate_irq i), log') else rest

-- The base and the interrupt, or `none` for -1.
unfoldable pub virtio_net_scan : Host → ℕ → Log → Option (ℕ × ℕ) × Log
virtio_net_scan host start_index log = scan_from host 16 0 0 start_index log

-- Whatever the search finds is one of the sixteen.
scan_from_cases {ℓ} :
    (P : Option (ℕ × ℕ) × Log → Type ℓ) (host : Host) (n i found_count start_index : ℕ) (log : Log)
    → i + n ≤ 16
    → ((log' : Log) → P (none, log'))
    → ((j : ℕ) (log' : Log) → j < 16 → P (some (candidate j, candidate_irq j), log'))
    → P (scan_from host n i found_count start_index log)
unfolding scan_from
scan_from_cases P host zero i found_count start_index log bound missing found = missing log
scan_from_cases P host (suc n) i found_count start_index log bound missing found =
    let (magic, log1) = mmio_read32 host (Bank.virtio (candidate i)) 0 log in
    let (device_id, log2) = mmio_read32 host (Bank.virtio (candidate i)) 8 log1 in
    let net = magic == 1953655158 && (device_id == 1 || device_id == 0) in
    elim (Bool-cases (net && found_count == start_index)) [
      | inl hit ↦ rw hit (found i _ (omega arith))
      | inr miss ↦
          rw miss (scan_from_cases P host n (suc i) _ start_index _ (omega arith) missing found)
    ]

pub virtio_net_scan_cases {ℓ} :
    (P : Option (ℕ × ℕ) × Log → Type ℓ) (host : Host) (start_index : ℕ) (log : Log)
    → ((log' : Log) → P (none, log'))
    → ((j : ℕ) (log' : Log) → j < 16 → P (some (candidate j, candidate_irq j), log'))
    → P (virtio_net_scan host start_index log)
unfolding virtio_net_scan
virtio_net_scan_cases P host start_index log =
    scan_from_cases P host 16 0 0 start_index log (omega arith)

-- Identification registers that no access changes: transport `i` is at 0x0a000000 + 0x200 `i`.
abbrev pub Steady : Host → (ℕ → ℕ) → (ℕ → ℕ) → Type 0
Steady host magic device_id =
    (log : Log) (i : ℕ)
    → (host log (Bank.virtio (167772160 + i * 512)) 0 ≡ magic i)
      × (host log (Bank.virtio (167772160 + i * 512)) 8 ≡ device_id i)

-- The independent description: number the candidates that answer as network devices, take the n-th.
abbrev pub answers : (ℕ → ℕ) → (ℕ → ℕ) → ℕ → Bool
answers magic device_id i =
    u32 (magic i) == 1953655158 && (u32 (device_id i) == 1 || u32 (device_id i) == 0)

unfoldable pub network_devices : (ℕ → Bool) → ℕ → ℕ → List ℕ
network_devices p zero i = []
network_devices p (suc n) i =
    let rest = network_devices p n (suc i) in if p i then i ∷ rest else rest

unfoldable pub nth : List ℕ → ℕ → Option (ℕ × ℕ)
nth [] k = none
nth (i ∷ is) zero = some (167772160 + i * 512, 48 + i)
nth (i ∷ is) (suc k) = nth is k

scan_from-nth :
    (host : Host) (magic device_id : ℕ → ℕ)
    → Steady host magic device_id
    → (n i found k : ℕ) (log : Log)
    → (scan_from host n i found (k + found) log).0
      ≡ nth (network_devices (answers magic device_id) n i) k
unfolding scan_from network_devices nth
scan_from-nth host magic device_id steady zero i found k log = refl
scan_from-nth host magic device_id steady (suc n) i found zero log =
    let same_magic = (steady log i).0 in
    let same_id = (steady (mmio_read32 host (Bank.virtio (candidate i)) 0 log).1 i).1 in
    elim (Bool-cases (answers magic device_id i)) [
      | inr other ↦
          rw (same_magic, same_id, other)
            (scan_from-nth host magic device_id steady n (suc i) found zero _)
      | inl net ↦
          let here : (found == 0 + found) ≡ true = ground arith in
          rw (same_magic, same_id, net, here) refl
    ]
scan_from-nth host magic device_id steady (suc n) i found (suc k) log =
    let same_magic = (steady log i).0 in
    let same_id = (steady (mmio_read32 host (Bank.virtio (candidate i)) 0 log).1 i).1 in
    elim (Bool-cases (answers magic device_id i)) [
      | inr other ↦
          rw (same_magic, same_id, other)
            (scan_from-nth host magic device_id steady n (suc i) found (suc k) _)
      | inl net ↦
          let later : (found == suc k + found) ≡ false = ground arith in
          let one_less : suc k + found ≡ k + suc found = omega arith in
          rw (same_magic, same_id, net, later, one_less)
            (scan_from-nth host magic device_id steady n (suc i) (suc found) k _)
    ]

-- As long as the identification registers keep their values, the search for the n-th device gives
-- the base 0x0a000000 + 0x200 i and the interrupt 48 + i of the n-th transport i of the sixteen that
-- identify as a network device or as no device at all, and fails if there are at most n.
pub virtio_net_scan-nth :
    (host : Host) (magic device_id : ℕ → ℕ) (start_index : ℕ) (log : Log)
    → Steady host magic device_id
    → (virtio_net_scan host start_index log).0
      ≡ nth (network_devices (answers magic device_id) 16 0) start_index
unfolding virtio_net_scan
virtio_net_scan-nth host magic device_id start_index log steady =
    let same : start_index + 0 ≡ start_index = omega arith in
    subst
      (λ s.
        (scan_from host 16 0 0 s log).0
        ≡ nth (network_devices (answers magic device_id) 16 0) start_index)
      same (scan_from-nth host magic device_id steady 16 0 0 start_index log)
