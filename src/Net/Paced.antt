-- ===== src/Net/Paced.antt =====
-- How often the main task of src/net_demo.c sends echo requests.
use ucosii_arm64_qemu.Prelude.{
  ℕ, ◌+◌, ◌*◌, ◌^◌, ◌≤◌, ◌<◌, ◌≡◌, ◌∙◌, refl, ap, Bool, true, false, ◌++◌, ◌&&◌, arith, Bool-cases,
  inl, inr,
}
use ucosii_arm64_qemu.Bytes.{Memory}
use ucosii_arm64_qemu.Net.Frame.{Side, net_demo_send_icmp_request}
use ucosii_arm64_qemu.Net.Forward.{Gateway}
use ucosii_arm64_qemu.Net.Loop.{
  Loop, due, clean_round, arp_of, arp_round, if_sent, ping_round, net_demo_round,
}
use ucosii_arm64_qemu.Net.Pings.{pings, pings-append, pings-if_sent, pings-arp_of}

abbrev pub last_ping : Side → Loop → ℕ
last_ping Side.lan s = s.lan_last_ping_tick
last_ping Side.wan s = s.wan_last_ping_tick

-- What one part of a round may do: at most one more ping, half a second after the last.
Paced : Side → ℕ → Loop → Loop → Type 0
Paced side now s s' =
    (pings side s'.sent * 500 + last_ping side s ≤ last_ping side s' + pings side s.sent * 500)
    × (last_ping side s ≤ last_ping side s')
    × (last_ping side s' ≤ now)

quiet-Paced :
    (side : Side) (now : ℕ) (s s' : Loop)
    → last_ping side s ≤ now
    → last_ping side s' ≡ last_ping side s
    → pings side s'.sent ≡ pings side s.sent
    → Paced side now s s'
unfolding Paced
quiet-Paced side now s s' before same quiet = (omega arith, omega arith, omega arith)

clean_round-last :
    (side : Side) (now : ℕ) (s : Loop) → last_ping side (clean_round now s) ≡ last_ping side s
unfolding clean_round
clean_round-last Side.lan now s = elim (Bool-cases (due now s.last_nat_cleanup_tick 1000)) [
  | inl e ↦ rw e refl
  | inr e ↦ rw e refl
]
clean_round-last Side.wan now s = elim (Bool-cases (due now s.last_nat_cleanup_tick 1000)) [
  | inl e ↦ rw e refl
  | inr e ↦ rw e refl
]

clean_round-sent : (now : ℕ) (s : Loop) → (clean_round now s).sent ≡ s.sent
unfolding clean_round
clean_round-sent now s = elim (Bool-cases (due now s.last_nat_cleanup_tick 1000)) [
  | inl e ↦ rw e refl
  | inr e ↦ rw e refl
]

arp_round-last :
    (side : Side) (now : ℕ) (stale : Memory) (s : Loop)
    → last_ping side (arp_round now stale s) ≡ last_ping side s
unfolding arp_round
arp_round-last Side.lan now stale s = elim (Bool-cases (due now s.last_arp_tick 1000)) [
  | inl e ↦ rw e refl
  | inr e ↦ rw e refl
]
arp_round-last Side.wan now stale s = elim (Bool-cases (due now s.last_arp_tick 1000)) [
  | inl e ↦ rw e refl
  | inr e ↦ rw e refl
]

arp_round-pings :
    (side : Side) (now : ℕ) (stale : Memory) (s : Loop)
    → pings side (arp_round now stale s).sent ≡ pings side s.sent
unfolding arp_round
arp_round-pings side now stale s = elim (Bool-cases (due now s.last_arp_tick 1000)) [
  | inr e ↦ rw e refl
  | inl e ↦ rw e (
      omega (
        arith,
        pings-append side s.sent (arp_of stale Side.lan s.gateway.lan_if),
        pings-append side (s.sent ++ arp_of stale Side.lan s.gateway.lan_if)
            (arp_of stale Side.wan s.gateway.wan_if),
        pings-arp_of stale side Side.lan s.gateway.lan_if,
        pings-arp_of stale side Side.wan s.gateway.wan_if,
      ))
]

third : (a b c : Bool) → (a && b && c) ≡ true → c ≡ true
third true true c e = e
third true false c e = absurd (cc)
third false b c e = absurd (cc)

-- The ping of one side, for the requests of either.
ping_round-Paced :
    (side at : Side) (now : ℕ) (stale : Memory) (s : Loop)
    → now < 2 ^ 32
    → last_ping side s ≤ now
    → Paced side now s (ping_round at now stale s)
unfolding Paced ping_round
ping_round-Paced Side.lan Side.lan now stale s small before =
    elim (Bool-cases (
      s.gateway.lan_if.has_dev
      && s.gateway.lan_if.peer_mac_valid
      && due now s.lan_last_ping_tick 500)) [
        | inr idle ↦ rw idle (omega arith, omega arith, before)
        | inl goes ↦
            let late : due now s.lan_last_ping_tick 500 ≡ true =
              third s.gateway.lan_if.has_dev s.gateway.lan_if.peer_mac_valid _ goes in
            let added = pings-append Side.lan s.sent (
              if_sent
                (net_demo_send_icmp_request stale Side.lan s.gateway.lan_if s.lan_icmp_sequence)) in
            let one =
              (pings-if_sent stale Side.lan Side.lan s.gateway.lan_if s.lan_icmp_sequence).0 in
            let apart : s.lan_last_ping_tick + 500 ≤ now = ground arith in
            rw goes (omega arith, before, omega arith)
      ]
ping_round-Paced Side.lan Side.wan now stale s small before =
    elim (Bool-cases (
      s.gateway.wan_if.has_dev
      && s.gateway.wan_if.peer_mac_valid
      && due now s.wan_last_ping_tick 500)) [
        | inr idle ↦ rw idle (omega arith, omega arith, before)
        | inl goes ↦
            let added = pings-append Side.lan s.sent (
              if_sent
                (net_demo_send_icmp_request stale Side.wan s.gateway.wan_if s.wan_icmp_sequence)) in
            let quiet =
              (pings-if_sent stale Side.lan Side.wan s.gateway.wan_if s.wan_icmp_sequence).1 refl in
            rw goes (omega arith, omega arith, before)
      ]
ping_round-Paced Side.wan Side.lan now stale s small before =
    elim (Bool-cases (
      s.gateway.lan_if.has_dev
      && s.gateway.lan_if.peer_mac_valid
      && due now s.lan_last_ping_tick 500)) [
        | inr idle ↦ rw idle (omega arith, omega arith, before)
        | inl goes ↦
            let added = pings-append Side.wan s.sent (
              if_sent
                (net_demo_send_icmp_request stale Side.lan s.gateway.lan_if s.lan_icmp_sequence)) in
            let quiet =
              (pings-if_sent stale Side.wan Side.lan s.gateway.lan_if s.lan_icmp_sequence).1 refl in
            rw goes (omega arith, omega arith, before)
      ]
ping_round-Paced Side.wan Side.wan now stale s small before =
    elim (Bool-cases (
      s.gateway.wan_if.has_dev
      && s.gateway.wan_if.peer_mac_valid
      && due now s.wan_last_ping_tick 500)) [
        | inr idle ↦ rw idle (omega arith, omega arith, before)
        | inl goes ↦
            let late : due now s.wan_last_ping_tick 500 ≡ true =
              third s.gateway.wan_if.has_dev s.gateway.wan_if.peer_mac_valid _ goes in
            let added = pings-append Side.wan s.sent (
              if_sent
                (net_demo_send_icmp_request stale Side.wan s.gateway.wan_if s.wan_icmp_sequence)) in
            let one =
              (pings-if_sent stale Side.wan Side.wan s.gateway.wan_if s.wan_icmp_sequence).0 in
            let apart : s.wan_last_ping_tick + 500 ≤ now = ground arith in
            rw goes (omega arith, before, omega arith)
      ]

Paced-trans :
    (side : Side) (now : ℕ) (s s1 s2 : Loop)
    → Paced side now s s1
    → Paced side now s1 s2
    → Paced side now s s2
unfolding Paced
Paced-trans side now s s1 s2 (a, b, c) (a', b', c') = (omega arith, omega arith, c')

Paced-last : (side : Side) (now : ℕ) (s s' : Loop) → Paced side now s s' → last_ping side s' ≤ now
unfolding Paced
Paced-last side now s s' (a, b, c) = c

round-Paced :
    (side : Side) (now : ℕ) (stale : Memory) (s : Loop)
    → now < 2 ^ 32
    → last_ping side s ≤ now
    → Paced side now s (net_demo_round now stale s)
unfolding net_demo_round
round-Paced side now stale s small before =
    let s1 = clean_round now s in
    let s2 = arp_round now stale s1 in
    let s3 = ping_round Side.lan now stale s2 in
    let same1 = clean_round-last side now s in
    let same2 = arp_round-last side now stale s1 in
    let p2 : Paced side now s s2 =
      quiet-Paced side now s s2 before (same2 ∙ same1)
        (arp_round-pings side now stale s1 ∙ ap (pings side) (clean_round-sent now s)) in
    let p3 = ping_round-Paced side Side.lan now stale s2 small (omega arith) in
    let p4 = ping_round-Paced side Side.wan now stale s3 small (Paced-last side now s2 s3 p3) in
    Paced-trans side now s s2 _ p2 (Paced-trans side now s2 s3 _ p3 p4)

gateway-last :
    (side : Side) (s : Loop) (g : Gateway)
    → last_ping side (record s { gateway = g }) ≡ last_ping side s
gateway-last Side.lan s g = refl
gateway-last Side.wan s g = refl

Paced-parts :
    (side : Side) (now : ℕ) (s s' : Loop)
    → Paced side now s s'
    → (pings side s'.sent * 500 + last_ping side s ≤ last_ping side s' + pings side s.sent * 500)
      × (last_ping side s ≤ last_ping side s')
      × (last_ping side s' ≤ now)
unfolding Paced
Paced-parts side now s s' p = p

-- Rounds at later and later times that fit the 32-bit tick counter. Between two of them the other
-- tasks change the gateway.
pub data Runs : ℕ → Loop → ℕ → Loop → Type 0 where
  stop : {t : ℕ} {s : Loop} → Runs t s t s
  again :
      {t t' : ℕ} {s s' : Loop} (now : ℕ) (stale : Memory) (g : Gateway)
      → t ≤ now
      → now < 2 ^ 32
      → Runs now (net_demo_round now stale (record s { gateway = g })) t' s'
      → Runs t s t' s'

-- However the rounds follow one another until the tick counter wraps, and whatever the other tasks do
-- to the gateway in between, the echo requests that the main task sent on an interface are at least
-- half a second apart on average: 500 ticks for each of them passed between the time of the last one
-- before and that of the last one now. The last one before was not later than the start.
pub net_demo_round_paced :
    {t t' : ℕ} {s s' : Loop} (side : Side)
    → Runs t s t' s'
    → last_ping side s ≤ t
    → (pings side s'.sent * 500 + last_ping side s ≤ last_ping side s' + pings side s.sent * 500)
      × (last_ping side s' ≤ t')
net_demo_round_paced side stop before = (omega arith, before)
net_demo_round_paced {s = s} side (again now stale g later small rest) before =
    let s1 = record s { gateway = g } in
    let same = gateway-last side s g in
    let (one, two, three) =
      Paced-parts side now s1 _ (round-Paced side now stale s1 small (omega arith)) in
    let (rest_one, rest_two) = net_demo_round_paced side rest three in (omega arith, rest_two)
