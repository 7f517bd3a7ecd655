-- ===== src/Net/PingedTests.antt =====
-- A ping of a host on the WAN side through src/net_demo.c.
use ucosii_arm64_qemu.Prelude.{
  ◌+◌, ◌≡◌, ◌∙◌, refl, sym, ap, subst, some, [], ◌∷◌, ◌==◌, if◌then◌else◌, arith, find_index,
}
use ucosii_arm64_qemu.Addr.{ip_equal}
use ucosii_arm64_qemu.Bytes.{
  Memory, load16, load_ip, load_mac, ip_bytes, util_htons, util_ntohs, util_memcmp, difference,
}
use ucosii_arm64_qemu.Arp.{arp_cache_lookup, arp_cache_add, arp_match, arp_slot}
use ucosii_arm64_qemu.Nat.Types.{nat_is_lan_ip, nat_is_wan_ip}
use ucosii_arm64_qemu.Nat.Hash.{nat_outbound_hash}
use ucosii_arm64_qemu.Nat.Lookup.{nat_find_entry, nat_alloc_entry, out_match}
use ucosii_arm64_qemu.Nat.Translate.{open_session}
use ucosii_arm64_qemu.Net.Frame.{Side, Packet, ip_equals, is_zero}
use ucosii_arm64_qemu.Net.Forward.{Gateway, src_ip, dst_ip}
use ucosii_arm64_qemu.Net.Process.{learn_arp, is_for_us, net_demo_process_frame}
use ucosii_arm64_qemu.Net.Outward.{Opens, opened}
use ucosii_arm64_qemu.Net.Ping.{IsEcho, echo_flow, request_out, request_leaves}
use ucosii_arm64_qemu.Net.Pinged.{Replies, Reads, request_out-Reads, echo_round_trip}
use ucosii_arm64_qemu.Net.Conversation.{first_frame}
use ucosii_arm64_qemu.Net.Tests.{mac_b, wan_ip, zeros}
use ucosii_arm64_qemu.Net.ConversationTests.{ready, ready-WellFormed}

-- From 192.168.1.5 to 10.3.5.7, with the identifier 77: eight bytes of ICMP over IPv4.
abbrev ping : Memory
ping i =
    if i == 12
    then 8
    else if i == 14
    then 69
    else if i == 17
    then 28
    else if i == 23
    then 1
    else if i == 26
    then 192
    else if i == 27
    then 168
    else if i == 28
    then 1
    else if i == 29
    then 5
    else if i == 30
    then 10
    else if i == 31
    then 3
    else if i == 32
    then 5
    else if i == 33
    then 7
    else if i == 34
    then 8
    else if i == 39
    then 77
    else 0

-- From 10.3.5.7 to 10.3.5.99, with the identifier 20000.
abbrev pong : Memory
pong i =
    if i == 12
    then 8
    else if i == 14
    then 69
    else if i == 17
    then 28
    else if i == 23
    then 1
    else if i == 26
    then 10
    else if i == 27
    then 3
    else if i == 28
    then 5
    else if i == 29
    then 7
    else if i == 30
    then 10
    else if i == 31
    then 3
    else if i == 32
    then 5
    else if i == 33
    then 99
    else if i == 38
    then 78
    else if i == 39
    then 32
    else 0

ping-IsEcho : IsEcho 8 ping 60
unfolding load16 util_ntohs util_htons
ping-IsEcho = record {
  packet = record {
    is_ip = refl;
    room = omega arith;
    fits = omega arith;
    version = refl;
    header = omega arith;
  };
  icmp = refl;
  whole = omega arith;
  kind = refl;
}

pong-IsEcho : IsEcho 0 pong 60
unfolding load16 util_ntohs util_htons
pong-IsEcho = record {
  packet = record {
    is_ip = refl;
    room = omega arith;
    fits = omega arith;
    version = refl;
    header = omega arith;
  };
  icmp = refl;
  whole = omega arith;
  kind = refl;
}

ready-Opens : Opens 5 ping (echo_flow ping) 0 mac_b ready
unfolding load16 load_ip load_mac util_ntohs util_htons nat_is_lan_ip nat_is_wan_ip ip_equal
    is_for_us ip_equals is_zero util_memcmp difference ip_bytes nat_find_entry nat_alloc_entry
    nat_outbound_hash out_match learn_arp arp_cache_lookup arp_cache_add arp_match arp_slot
    find_index
ready-Opens = record {
  from_lan = refl;
  through = refl;
  has_wan = refl;
  no_session = refl;
  free = refl;
  next_hop = refl;
}

-- The frame that goes out.
abbrev went : Packet
went = record { side = Side.wan; frame = request_out ping mac_b ready; length = 14 + 28 }

went_out : (net_demo_process_frame 5 zeros Side.lan ping 60 ready).sent ≡ went ∷ []
unfolding load16 util_ntohs util_htons
went_out = ap (λ x. x.sent) (request_leaves 5 zeros ping 60 0 mac_b ready ping-IsEcho ready-Opens)

read : Reads 8 wan_ip (dst_ip ping) 20000 went.frame
read = request_out-Reads ping 60 mac_b ready ping-IsEcho ready-WellFormed

pong-Replies : Replies pong went.frame
unfolding load16 load_ip util_ntohs util_htons
pong-Replies = record { from_ip = sym read.2; to_ip = sym read.1; identifier = sym read.3 }

abbrev after : Gateway
after = (net_demo_process_frame 5 zeros Side.lan ping 60 ready).gateway

cached :
    arp_cache_lookup
      (src_ip ping)
      (learn_arp 9
        (src_ip pong)
        (load_mac pong 6)
        (opened 5 ping (echo_flow ping) 0 ready)).nat.arp_table
    ≡ some (load_mac ping 6)
unfolding load_ip load_mac ip_equal learn_arp arp_cache_lookup arp_cache_add arp_match arp_slot
    find_index open_session
cached = refl

still_cached :
    arp_cache_lookup (src_ip ping) (learn_arp 9 (src_ip pong) (load_mac pong 6) after).nat.arp_table
    ≡ some (load_mac ping 6)
still_cached =
    ap
      (λ x.
        arp_cache_lookup (src_ip ping)
          (learn_arp 9 (src_ip pong) (load_mac pong 6) x.gateway).nat.arp_table)
      (request_leaves 5 zeros ping 60 0 mac_b ready ping-IsEcho ready-Opens)
    ∙ cached

sent-Replies :
    Replies pong (first_frame (net_demo_process_frame 5 zeros Side.lan ping 60 ready).sent)
sent-Replies = subst (λ s. Replies pong (first_frame s)) (sym went_out) pong-Replies

echo_round_trip_example :
    let one = net_demo_process_frame 5 zeros Side.lan ping 60 ready in
    (p : Packet) × (one.sent ≡ p ∷ [])
    × (p.side ≡ Side.wan)
    × Reads 8 wan_ip (dst_ip ping) 20000 p.frame
    × ((q : Packet) × ((net_demo_process_frame 9 zeros Side.wan pong 60 one.gateway).sent ≡ q ∷ [])
        × (q.side ≡ Side.lan)
        × Reads 0 (dst_ip ping) (src_ip ping) 77 q.frame)
unfolding load16 util_ntohs util_htons
echo_round_trip_example =
    echo_round_trip 5 9 0 60 60 zeros zeros ping pong mac_b (load_mac ping 6) ready ready-WellFormed
      refl refl ping-IsEcho ready-Opens pong-IsEcho sent-Replies still_cached
