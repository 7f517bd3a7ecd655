-- ===== src/Net/Loop.antt =====
-- The main task of src/net_demo.c: the rounds of net_demo_run after its set-up. The delay between two
-- rounds is left out; a round is given the time that it reads, and what the stack holds.
use ucosii_arm64_qemu.Prelude.{
  ℕ, ◌+◌, Bool, Option, none, some, List, [], ◌∷◌, ◌++◌, leb, ◌&&◌, if◌then◌else◌, u16, sub32,
}
use ucosii_arm64_qemu.Bytes.{Memory}
use ucosii_arm64_qemu.Nat.Sweep.{nat_cleanup_expired}
use ucosii_arm64_qemu.Net.Frame.{
  Interface, Side, Packet, net_demo_send_arp_request, net_demo_send_icmp_request,
}
use ucosii_arm64_qemu.Net.Forward.{Gateway}

-- The local variables of net_demo_run, with the gateway and the frames sent so far.
pub record Loop : Type 0 where
  pub gateway : Gateway
  pub sent : List Packet
  pub lan_icmp_sequence : ℕ
  pub wan_icmp_sequence : ℕ
  pub last_arp_tick : ℕ
  pub lan_last_ping_tick : ℕ
  pub wan_last_ping_tick : ℕ
  pub last_nat_cleanup_tick : ℕ

abbrev pub due : ℕ → ℕ → ℕ → Bool
due now last interval = leb interval (sub32 now last)

unfoldable pub clean_round : ℕ → Loop → Loop
clean_round now s =
    let nat' = (nat_cleanup_expired now s.gateway.nat).0 in
    if due now s.last_nat_cleanup_tick 1000
    then record s { last_nat_cleanup_tick = now; gateway = record (s.gateway) { nat = nat' } }
    else s

abbrev pub arp_of : Memory → Side → Interface → List Packet
arp_of stale side iface =
    if iface.has_dev then net_demo_send_arp_request stale side iface ∷ [] else []

unfoldable pub arp_round : ℕ → Memory → Loop → Loop
arp_round now stale s =
    if due now s.last_arp_tick 1000
    then record s {
      last_arp_tick = now;
      sent =
          s.sent
          ++ arp_of stale Side.lan s.gateway.lan_if
          ++ arp_of stale Side.wan s.gateway.wan_if;
    }
    else s

abbrev pub if_sent : Option Packet → List Packet
if_sent none = []
if_sent (some p) = p ∷ []

unfoldable pub ping_round : Side → ℕ → Memory → Loop → Loop
ping_round Side.lan now stale s =
    let iface = s.gateway.lan_if in
    if iface.has_dev && iface.peer_mac_valid && due now s.lan_last_ping_tick 500
    then record s {
      lan_last_ping_tick = now;
      lan_icmp_sequence = u16 (s.lan_icmp_sequence + 1);
      sent =
          s.sent ++ if_sent (net_demo_send_icmp_request stale Side.lan iface s.lan_icmp_sequence);
    }
    else s
ping_round Side.wan now stale s =
    let iface = s.gateway.wan_if in
    if iface.has_dev && iface.peer_mac_valid && due now s.wan_last_ping_tick 500
    then record s {
      wan_last_ping_tick = now;
      wan_icmp_sequence = u16 (s.wan_icmp_sequence + 1);
      sent =
          s.sent ++ if_sent (net_demo_send_icmp_request stale Side.wan iface s.wan_icmp_sequence);
    }
    else s

-- One round of the `for (;;)`.
unfoldable pub net_demo_round : ℕ → Memory → Loop → Loop
net_demo_round now stale s =
    ping_round Side.wan now stale
      (ping_round Side.lan now stale (arp_round now stale (clean_round now s)))

-- The variables before the first round.
unfoldable pub loop_init : ℕ → Gateway → List Packet → Loop
loop_init now gateway sent = record {
  gateway = gateway;
  sent = sent;
  lan_icmp_sequence = 1;
  wan_icmp_sequence = 1;
  last_arp_tick = now;
  lan_last_ping_tick = now;
  wan_last_ping_tick = now;
  last_nat_cleanup_tick = now;
}
