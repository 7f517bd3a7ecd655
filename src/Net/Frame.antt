-- ===== src/Net/Frame.antt =====
-- The headers of src/net_demo.c as offsets in a frame, and the frames that it builds itself. A frame
-- is the memory from its pointer on; `stale` is what a local array holds before it is written.
use ucosii_arm64_qemu.Prelude.{
  ℕ, zero, suc, ◌+◌, ◌-◌, ◌*◌, Bool, false, Option, none, some, ltb, ◌==◌, if◌then◌else◌, u8,
  bit_and,
}
use ucosii_arm64_qemu.Addr.{Ip, Mac}
use ucosii_arm64_qemu.Bytes.{
  Memory, ℤ, store, store16, load16, load_mac, ip_bytes, mac_bytes, util_memcpy, util_memset,
  util_memcmp, util_htons, util_ntohs,
}
use ucosii_arm64_qemu.Net.Checksum.{checksum16}

-- `struct net_interface`; `mac` is what virtio_net_get_mac_dev answers for `dev`.
pub record Interface : Type 0 where
  pub has_dev : Bool
  pub mac : Mac
  pub local_ip : Ip
  pub peer_ip : Ip
  pub peer_mac : Mac
  pub peer_mac_valid : Bool

-- Which of `g_lan_if` and `g_wan_if`.
pub data Side : Type 0 where
  lan : Side
  wan : Side

-- The arguments of a call of virtio_net_send_frame_dev.
pub record Packet : Type 0 where
  pub side : Side
  pub frame : Memory
  pub length : ℕ

-- Fields that the code reads through `util_ntohs`.
abbrev pub field16 : Memory → ℕ → ℕ
field16 m i = util_ntohs (load16 m i)

-- `(size_t)((ip->version_ihl & 0x0Fu) * 4u)` and `util_ntohs(ip->total_length)`
abbrev pub ip_header_len : Memory → ℕ
ip_header_len m = bit_and (m 14) 15 * 4

abbrev pub total_length : Memory → ℕ
total_length m = field16 m 16

unfoldable pub is_zero : ℤ → Bool
is_zero (ℤ.pos n) = n == 0
is_zero (ℤ.negsuc n) = false

unfoldable pub ip_equals : Memory → ℕ → Ip → Bool
unfolding is_zero
ip_equals m i ip = is_zero (util_memcmp m i (ip_bytes ip) 0 4)

-- The Ethernet header of an ARP frame, and the packet behind it.
unfoldable pub fill_arp : ℕ → Memory → Mac → Mac → Ip → Memory → ℕ → Memory → ℕ → Memory
fill_arp oper frame dest src spa tha tha_at tpa tpa_at =
    let m1 = util_memcpy frame 0 (mac_bytes dest) 0 6 in
    let m2 = util_memcpy m1 6 (mac_bytes src) 0 6 in
    let m3 = store16 m2 12 (util_htons 2054) in
    let m4 = store16 m3 14 (util_htons 1) in
    let m5 = store16 m4 16 (util_htons 2048) in
    let m6 = store (store m5 18 6) 19 4 in
    let m7 = store16 m6 20 (util_htons oper) in
    let m8 = util_memcpy m7 22 (mac_bytes src) 0 6 in
    let m9 = util_memcpy m8 28 (ip_bytes spa) 0 4 in
    util_memcpy (util_memcpy m9 32 tha tha_at 6) 38 tpa tpa_at 4

abbrev broadcast : Mac
broadcast = record { m0 = 255; m1 = 255; m2 = 255; m3 = 255; m4 = 255; m5 = 255 }

unfoldable pub send_arp_request_for_ip : Memory → Side → Interface → Ip → Packet
unfolding fill_arp
send_arp_request_for_ip stale side iface target_ip = record {
  side = side;
  frame =
      fill_arp 1 (util_memset stale 0 0 64) broadcast iface.mac iface.local_ip (λ _. 0) 0
        (ip_bytes target_ip) 0;
  length = 42;
}

unfoldable pub net_demo_send_arp_request : Memory → Side → Interface → Packet
unfolding fill_arp
net_demo_send_arp_request stale side iface = record {
  side = side;
  frame =
      fill_arp 1 (util_memset stale 0 0 64) broadcast iface.mac iface.local_ip (λ _. 0) 0
        (ip_bytes iface.peer_ip) 0;
  length = 42;
}

-- The reply to the request in `m`.
unfoldable pub send_arp_reply : Memory → Side → Interface → Memory → Packet
unfolding fill_arp
send_arp_reply stale side iface m = record {
  side = side;
  frame = fill_arp 2 stale (load_mac m 6) iface.mac iface.local_ip m 22 m 28;
  length = 42;
}

-- The checksum of the region at `start`, whose field at `field` is zeroed first and then written.
unfoldable pub put_checksum : Memory → ℕ → ℕ → ℕ → Memory
put_checksum m start field len =
    let zeroed = store16 m field 0 in
    store16 zeroed field (util_htons (checksum16 zeroed start len))

-- `length > VIRTIO_NET_MAX_FRAME_SIZE`
unfoldable pub clamp_frame : ℕ → ℕ
clamp_frame length = if ltb 1518 length then 1518 else length

-- The copy of the echo request made into the reply: addresses swapped, time to live, both checksums.
unfoldable pub echo_frame : Memory → Interface → Memory
unfolding put_checksum
echo_frame frame iface =
    let hlen = ip_header_len frame in
    let icmp = 14 + hlen in
    let m1 = util_memcpy frame 0 frame 6 6 in
    let m2 = util_memcpy m1 6 (mac_bytes iface.mac) 0 6 in
    let m3 = util_memcpy m2 26 frame 30 4 in
    let m4 = util_memcpy m3 30 frame 26 4 in
    let m5 = put_checksum (store m4 22 64) 14 24 hlen in
    let m6 = store (store m5 icmp 0) (icmp + 1) 0 in
    put_checksum m6 icmp (icmp + 2) (total_length frame - hlen)

-- `none` where the packet is too short for an ICMP header.
unfoldable pub send_icmp_echo_reply : Memory → Side → Interface → Memory → ℕ → Option Packet
unfolding clamp_frame echo_frame
send_icmp_echo_reply stale side iface rx length =
    let frame = util_memcpy stale 0 rx 0 (clamp_frame length) in
    if ltb (total_length frame) (ip_header_len frame + 8)
    then none
    else some
        (record { side = side; frame = echo_frame frame iface; length = 14 + total_length frame })

-- `payload[i] = (uint8_t)(i + 1u)`
unfoldable pub fill_payload : Memory → ℕ → ℕ → Memory
fill_payload m at zero = m
fill_payload m at (suc n) = store (fill_payload m at n) (at + n) (u8 (n + 1))

unfoldable pub net_demo_send_icmp_request : Memory → Side → Interface → ℕ → Option Packet
unfolding put_checksum fill_payload
net_demo_send_icmp_request stale side iface sequence =
    let m1 = util_memcpy stale 0 (mac_bytes iface.peer_mac) 0 6 in
    let m2 = store16 (util_memcpy m1 6 (mac_bytes iface.mac) 0 6) 12 (util_htons 2048) in
    let m3 = store16 (store (store m2 14 69) 15 0) 16 (util_htons 44) in
    let m4 = store16 (store16 m3 18 (util_htons sequence)) 20 0 in
    let m5 = store (store m4 22 64) 23 1 in
    let m6 = util_memcpy m5 26 (ip_bytes iface.local_ip) 0 4 in
    let m7 = put_checksum (util_memcpy m6 30 (ip_bytes iface.peer_ip) 0 4) 14 24 20 in
    let m8 = store16 (store (store m7 34 8) 35 0) 38 (util_htons 4660) in
    let m9 = fill_payload (store16 m8 40 (util_htons sequence)) 42 16 in
    if iface.peer_mac_valid
    then some (record { side = side; frame = put_checksum m9 34 36 24; length = 58 })
    else none
