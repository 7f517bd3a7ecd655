-- ===== src/Net/ConversationTests.antt =====
-- A datagram to a host on the WAN side and the answer to it, through src/net_demo.c.
use ucosii_arm64_qemu.Prelude.{
  ◌+◌, refl, true, [], ◌∷◌, inr, ◌==◌, if◌then◌else◌, arith, get_or-replicate,
}
use ucosii_arm64_qemu.Addr.{Ip}
use ucosii_arm64_qemu.Bytes.{Memory}
use ucosii_arm64_qemu.Arp.{unused_arp}
use ucosii_arm64_qemu.Nat.WellFormed.{WellFormed}
use ucosii_arm64_qemu.Net.Frame.{Side, Packet}
use ucosii_arm64_qemu.Net.Forward.{Gateway}
use ucosii_arm64_qemu.Net.Process.{net_demo_process_frame}
use ucosii_arm64_qemu.Net.Outward.{sent_out}
use ucosii_arm64_qemu.Net.Tests.{gateway, tables, mac_b, zeros}

-- From 192.168.1.5, port 1000, to 10.3.5.7, port 53: twenty-eight bytes of UDP over IPv4.
abbrev question : Memory
question i =
    if i == 12
    then 8
    else if i == 14
    then 69
    else if i == 17
    then 28
    else if i == 23
    then 17
    else if i == 26
    then 192
    else if i == 27
    then 168
    else if i == 28
    then 1
    else if i == 29
    then 5
    else if i == 30
    then 10
    else if i == 31
    then 3
    else if i == 32
    then 5
    else if i == 33
    then 7
    else if i == 34
    then 3
    else if i == 35
    then 232
    else if i == 37
    then 53
    else 0

-- From 10.3.5.7, port 53, to 10.3.5.99, port 20000.
abbrev answer : Memory
answer i =
    if i == 12
    then 8
    else if i == 14
    then 69
    else if i == 17
    then 28
    else if i == 23
    then 17
    else if i == 26
    then 10
    else if i == 27
    then 3
    else if i == 28
    then 5
    else if i == 29
    then 7
    else if i == 30
    then 10
    else if i == 31
    then 3
    else if i == 32
    then 5
    else if i == 33
    then 99
    else if i == 35
    then 53
    else if i == 36
    then 78
    else if i == 37
    then 32
    else 0

abbrev pub server : Ip
server = record { a = 10; b = 3; c = 5; d = 7 }

-- The server's MAC is cached, and there is room for another.
abbrev pub ready : Gateway
ready = record gateway {
  nat = record tables {
    arp_table =
        record { active = true; ip = server; mac = mac_b; last_update = 2 } ∷ unused_arp ∷ [];
  };
}

pub ready-WellFormed : WellFormed ready.nat
ready-WellFormed = record {
  table_length = refl;
  hash_length = refl;
  outbound_length = refl;
  buckets = λ i. inr (get_or-replicate 128 i 255);
  outbound_buckets = λ i. inr (get_or-replicate 128 i 255);
  port_from = omega arith;
  port_to = omega arith;
  port_end = omega arith;
}

-- The frame that goes out.
abbrev went : Packet
went = record { side = Side.wan; frame = sent_out question mac_b ready; length = 14 + 28 }

abbrev after : Gateway
after = (net_demo_process_frame 5 zeros Side.lan question 60 ready).gateway
