-- ===== src/Net/Tests.antt =====
-- Frames of src/net_demo.c, and each theorem at an input that meets its hypotheses.
use ucosii_arm64_qemu.Prelude.{
  ◌+◌, ◌-◌, ◌≤◌, ◌≡◌, refl, true, false, some, inl, inr, set, get_or-replicate, find_index, [], ◌∷◌,
  arith, replicate, List, bit_and_15, ◌==◌, if◌then◌else◌,
}
use ucosii_arm64_qemu.Addr.{Ip, Mac, ip_equal}
use ucosii_arm64_qemu.Arp.{arp_cache_lookup, arp_cache_add, arp_match, arp_slot, unused_arp}
use ucosii_arm64_qemu.Nat.WellFormed.{WellFormed, set-AreBuckets}
use ucosii_arm64_qemu.Nat.Hash.{nat_hash}
use ucosii_arm64_qemu.Nat.Lookup.{nat_find_reverse_entry, in_match}
use ucosii_arm64_qemu.Nat.Translate.{nat_translate_inbound}
use ucosii_arm64_qemu.Nat.Types.{NatState, unused_entry, zero_stats, nat_is_wan_ip}
use ucosii_arm64_qemu.Bytes.{
  Memory, load_ip, load_mac, ip_bytes, mac_bytes, load16, util_htons, util_htonl, util_ntohs,
}
use ucosii_arm64_qemu.Net.Verify.{AreBytes, IsAllOnes, word_sum}
use ucosii_arm64_qemu.Net.Frame.{
  Interface, Side, Packet, ip_header_len, total_length, echo_frame, net_demo_send_arp_request,
  send_arp_reply,
}
use ucosii_arm64_qemu.Net.Forward.{Gateway, readdress, deliver, inbound_icmp, wan_icmp}
use ucosii_arm64_qemu.Net.Process.{net_demo_process_frame, process_ip, process_wan, learn_arp}
use ucosii_arm64_qemu.Net.Exchange.{arp_exchange}
use ucosii_arm64_qemu.Net.Header.{readdress_checks}
use ucosii_arm64_qemu.Net.Echo.{echo_frame_lem}
use ucosii_arm64_qemu.Net.Guarded.{Session}
use ucosii_arm64_qemu.Net.Inbound.{process_frame-Session}

abbrev pub lan_ip : Ip
lan_ip = record { a = 192; b = 168; c = 1; d = 2 }

abbrev pub peer : Ip
peer = record { a = 192; b = 168; c = 1; d = 103 }

abbrev pub wan_ip : Ip
wan_ip = record { a = 10; b = 3; c = 5; d = 99 }

abbrev pub mac_a : Mac
mac_a = record { m0 = 2; m1 = 0; m2 = 0; m3 = 0; m4 = 0; m5 = 1 }

abbrev pub mac_b : Mac
mac_b = record { m0 = 2; m1 = 0; m2 = 0; m3 = 0; m4 = 0; m5 = 2 }

abbrev pub interface : Ip → Ip → Mac → Interface
interface local remote mac = record {
  has_dev = true;
  mac = mac;
  local_ip = local;
  peer_ip = remote;
  peer_mac = mac_a;
  peer_mac_valid = false;
}

abbrev pub tables : NatState
tables = record {
  nat_table = replicate 64 unused_entry;
  nat_hash_table = replicate 128 255;
  nat_outbound_hash_table = replicate 128 255;
  nat_statistics = zero_stats;
  arp_table = unused_arp ∷ [];
  nat_cfg = record {
    lan_ip = lan_ip;
    wan_ip = wan_ip;
    port_range_start = 20000;
    port_range_end = 30000;
  };
  next_port = 20000;
}

abbrev pub gateway : Gateway
gateway = record {
  nat = tables;
  lan_if = interface lan_ip peer mac_a;
  wan_if = interface wan_ip peer mac_a;
}

-- The other end of the LAN.
abbrev host : Gateway
host = record {
  nat = tables;
  lan_if = interface peer lan_ip mac_b;
  wan_if = interface wan_ip peer mac_b;
}

abbrev pub zeros : Memory
zeros i = 0

arp_exchange_example :
    let request = net_demo_send_arp_request zeros Side.lan (interface lan_ip peer mac_a) in
    let reply = send_arp_reply zeros Side.lan (interface peer lan_ip mac_b) request.frame in
    let learned =
      (net_demo_process_frame 9 zeros Side.lan reply.frame reply.length gateway).gateway in
    ((net_demo_process_frame 7 zeros Side.lan request.frame request.length host).sent ≡ reply ∷ [])
    × (learned.lan_if.peer_mac ≡ mac_b)
    × (learned.lan_if.peer_mac_valid ≡ true)
    × (arp_cache_lookup peer learned.nat.arp_table ≡ some mac_b)
arp_exchange_example =
    arp_exchange 7 9 zeros zeros zeros Side.lan Side.lan gateway host refl (omega arith)

-- A header of twenty bytes that begins with 69 and gives thirty bytes in all.
abbrev header : Memory
header i = if i == 14 then 69 else if i == 17 then 30 else 0

header-AreBytes : AreBytes header
header-AreBytes i = ground arith

mac-AreBytes : AreBytes (mac_bytes mac_a)
unfolding mac_bytes
mac-AreBytes i = ground arith

ip-AreBytes : AreBytes (ip_bytes wan_ip)
unfolding ip_bytes
ip-AreBytes i = ground arith

header_length : 20 ≤ ip_header_len header
header_length = omega (arith, bit_and_15 69)

readdress_checks_example :
    IsAllOnes (word_sum (readdress mac_a mac_a 26 wan_ip header) 14 (ip_header_len header))
readdress_checks_example =
    readdress_checks mac_a mac_a 26 wan_ip header header-AreBytes mac-AreBytes mac-AreBytes
      ip-AreBytes header_length

header_total : total_length header ≡ 30
unfolding util_ntohs load16 util_htons
header_total = refl

echo_frame_lem_example :
    let r = echo_frame header (interface wan_ip peer mac_a) in
    IsAllOnes (word_sum r 14 (ip_header_len header))
    × IsAllOnes
        (word_sum r (14 + ip_header_len header) (total_length header - ip_header_len header))
    × (load_ip r 26 ≡ load_ip header 30)
    × (load_ip r 30 ≡ load_ip header 26)
    × (load_mac r 0 ≡ load_mac header 6)
    × (load_mac r 6 ≡ mac_a)
    × (r (14 + ip_header_len header) ≡ 0)
echo_frame_lem_example =
    echo_frame_lem header (interface wan_ip peer mac_a) header-AreBytes mac-AreBytes header_length
      (omega (arith, header_total, bit_and_15 69)) (omega (arith, header_total))

-- A ping of the host 192.168.1.103 to the WAN address's own network was translated to identifier
-- 20000, whose bucket is 32; the host's MAC is known.
abbrev pinging : Gateway
pinging = record gateway {
  nat = record tables {
    nat_table =
        record {
          active = true;
          protocol = 1;
          lan_ip = peer;
          lan_port = 77;
          wan_port = 20000;
          dst_ip = record { a = 0; b = 0; c = 0; d = 0 };
          dst_port = 0;
          last_activity = 3;
          timeout_sec = 60;
        }
        ∷ replicate 63 unused_entry;
    nat_hash_table = set (replicate 128 255) 32 0;
    arp_table = record { active = true; ip = peer; mac = mac_b; last_update = 2 } ∷ unused_arp ∷ [];
  };
}

pinging-WellFormed : WellFormed pinging.nat
pinging-WellFormed = record {
  table_length = refl;
  hash_length = refl;
  outbound_length = refl;
  buckets =
      set-AreBuckets (replicate 128 255) 32 0 (inl (omega arith))
        (λ i. inr (get_or-replicate 128 i 255));
  outbound_buckets = λ i. inr (get_or-replicate 128 i 255);
  port_from = omega arith;
  port_to = omega arith;
  port_end = omega arith;
}

-- The echo reply to it: forty bytes of IPv4 with ICMP type 0 and identifier 20000.
abbrev echo_reply : Memory
echo_reply i =
    if i == 12
    then 8
    else if i == 14
    then 69
    else if i == 17
    then 40
    else if i == 23
    then 1
    else if i == 30
    then 10
    else if i == 31
    then 3
    else if i == 32
    then 5
    else if i == 33
    then 99
    else if i == 38
    then 78
    else if i == 39
    then 32
    else 0

abbrev first_packet : List Packet → Packet
first_packet [] = record { side = Side.wan; frame = zeros; length = 0 }
first_packet (p ∷ ps) = p

delivered : List Packet
delivered = (net_demo_process_frame 5 zeros Side.wan echo_reply 54 pinging).sent

delivered_one :
    (delivered ≡ first_packet delivered ∷ []) × ((first_packet delivered).side ≡ Side.lan)
unfolding delivered net_demo_process_frame process_ip process_wan learn_arp wan_icmp inbound_icmp
    deliver nat_is_wan_ip ip_equal nat_translate_inbound nat_find_reverse_entry nat_hash in_match
    arp_cache_lookup arp_cache_add arp_match arp_slot find_index util_ntohs util_htons load16
    load_ip load_mac
delivered_one = (refl, refl)

process_frame-Session_example : Session pinging echo_reply
unfolding delivered
process_frame-Session_example =
    process_frame-Session 5 zeros echo_reply 54 pinging (first_packet delivered) []
      pinging-WellFormed refl delivered_one.0 delivered_one.1

swapped : util_htonl 16909060 ≡ 67305985
unfolding util_htonl
swapped = refl
