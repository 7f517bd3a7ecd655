-- ===== src/Net/Forward.antt =====
-- The NAT forwarding of net_demo_process_frame in src/net_demo.c. Each block of the function either
-- returns or falls through to the next with the tables as it left them. `now` is OSTime.
use ucosii_arm64_qemu.Prelude.{
  ℕ, ◌+◌, ◌-◌, Bool, true, Option, none, some, List, [], ◌∷◌, leb, ◌==◌, if◌then◌else◌, ◌&&◌, ◌||◌,
  u8,
}
use ucosii_arm64_qemu.Addr.{Ip, Mac}
use ucosii_arm64_qemu.Nat.Types.{NatState}
use ucosii_arm64_qemu.Nat.Translate.{nat_translate_outbound, nat_translate_inbound}
use ucosii_arm64_qemu.Arp.{arp_cache_lookup}
use ucosii_arm64_qemu.Bytes.{
  Memory, store, store16, load_ip, ip_bytes, mac_bytes, util_memcpy, util_htons,
}
use ucosii_arm64_qemu.Net.Checksum.{tcp_udp_checksum}
use ucosii_arm64_qemu.Net.Frame.{
  Interface, Side, Packet, field16, ip_header_len, total_length, put_checksum, send_icmp_echo_reply,
  send_arp_request_for_ip,
}

-- The global variables that a frame can change.
pub record Gateway : Type 0 where
  pub nat : NatState
  pub lan_if : Interface
  pub wan_if : Interface

-- A return with the frames sent and whether the value was 1, or the end of a block.
pub data Step : Type 0 where
  returns : Gateway → List Packet → Bool → Step
  falls : Gateway → Step

abbrev pub protocol : Memory → ℕ
protocol m = m 23

abbrev pub dst_ip : Memory → Ip
dst_ip m = load_ip m 30

abbrev pub src_ip : Memory → Ip
src_ip m = load_ip m 26

abbrev pub transport_at : Memory → ℕ
transport_at m = 14 + ip_header_len m

-- The header changes common to all four ways: MACs, one address, time to live and checksum.
unfoldable pub readdress : Mac → Mac → ℕ → Ip → Memory → Memory
unfolding put_checksum
readdress src dest field ip m =
    let m1 = util_memcpy m 6 (mac_bytes src) 0 6 in
    let m2 = util_memcpy m1 0 (mac_bytes dest) 0 6 in
    let m3 = util_memcpy m2 field (ip_bytes ip) 0 4 in
    put_checksum (store m3 22 (u8 (m3 22 + 255))) 14 24 (ip_header_len m)

-- The ICMP identifier and checksum.
unfoldable pub rewrite_icmp : ℕ → ℕ → ℕ → Memory → Memory
unfolding put_checksum
rewrite_icmp icmp port len m =
    put_checksum (store16 m (icmp + 4) (util_htons port)) icmp (icmp + 2) len

-- The port at `port_at` and the checksum of TCP or UDP, which is stored as computed.
unfoldable pub rewrite_transport : ℕ → ℕ → ℕ → ℕ → Memory → Memory
rewrite_transport hdr port_at port len m =
    let field = if m 23 == 6 then hdr + 16 else hdr + 6 in
    let zeroed = store16 (store16 m port_at (util_htons port)) field 0 in
    store16 zeroed field (tcp_udp_checksum zeroed 14 hdr len)

abbrev pub min_transport_len : Memory → ℕ
min_transport_len m = if protocol m == 6 then 20 else 8

abbrev pub is_tcp_udp : Memory → Bool
is_tcp_udp m = protocol m == 6 || protocol m == 17

-- The rest of an inbound block once the reverse translation has answered.
unfoldable pub deliver : (Memory → ℕ → Memory) → ℕ → Memory → Gateway → Option (Ip × ℕ) → Step
unfolding readdress
deliver rewrite length m g none = Step.falls g
deliver rewrite length m g (some (lan_ip, lan_port)) =
    if leb length 1518 && g.lan_if.has_dev
    then elim (arp_cache_lookup lan_ip g.nat.arp_table) [
      | none ↦ Step.returns g [] true
      | some dest ↦
          let out = rewrite (readdress g.lan_if.mac dest 30 lan_ip m) lan_port in
          Step.returns g
            (record { side = Side.lan; frame = out; length = 14 + total_length m } ∷ []) true
    ]
    else Step.falls g

-- `nat_translate_inbound` for an ICMP echo reply, and what follows it.
unfoldable pub inbound_icmp : ℕ → Memory → ℕ → Gateway → Step
unfolding deliver rewrite_icmp
inbound_icmp now m length g =
    let (nat, answer) =
      nat_translate_inbound
        (record {
          protocol = 1;
          wan_port = field16 m (transport_at m + 4);
          src_ip = src_ip m;
          src_port = 0;
        })
        now g.nat in
    deliver (λ out port. rewrite_icmp (transport_at m) port (total_length m - ip_header_len m) out)
      length m (record g { nat = nat }) answer

-- `nat_translate_inbound` for TCP and UDP, and what follows it.
unfoldable pub inbound_transport : ℕ → Memory → ℕ → Gateway → Step
unfolding deliver rewrite_transport
inbound_transport now m length g =
    let (nat, answer) =
      nat_translate_inbound
        (record {
          protocol = if protocol m == 6 then 6 else 17;
          wan_port = field16 m (transport_at m + 2);
          src_ip = src_ip m;
          src_port = field16 m (transport_at m);
        })
        now g.nat in
    deliver
      (λ out port.
        rewrite_transport (transport_at m) (transport_at m + 2) port
          (total_length m - ip_header_len m) out)
      length m (record g { nat = nat }) answer

abbrev pub sent_reply : Option Packet → List Packet
sent_reply none = []
sent_reply (some p) = p ∷ []

-- ICMP from the WAN to the WAN address: a reply is translated, a request answered.
unfoldable pub wan_icmp : ℕ → Memory → Memory → ℕ → Gateway → Step
unfolding inbound_icmp
wan_icmp now stale m length g =
    if leb (ip_header_len m + 8) (total_length m)
    then if m (transport_at m) == 0
      then inbound_icmp now m length g
      else if m (transport_at m) == 8
      then Step.returns g
          (sent_reply (send_icmp_echo_reply stale Side.wan g.wan_if m (14 + total_length m))) true
      else Step.falls g
    else Step.falls g

-- TCP and UDP from the WAN to the WAN address.
unfoldable pub wan_transport : ℕ → Memory → ℕ → Gateway → Step
unfolding inbound_transport
wan_transport now m length g =
    if leb (ip_header_len m + min_transport_len m) (total_length m)
    then inbound_transport now m length g
    else Step.falls g

-- The rest of an outbound block: `missing` is what it sends when the destination's MAC is not known.
unfoldable pub forward_out :
    (Memory → ℕ → Memory) → List Packet → ℕ → Memory → Gateway → Option ℕ → Step
unfolding readdress
forward_out rewrite missing length m g none = Step.falls g
forward_out rewrite missing length m g (some wan_port) =
    if leb length 1518
    then elim (arp_cache_lookup (dst_ip m) g.nat.arp_table) [
      | none ↦ Step.returns g missing true
      | some dest ↦
          let out = rewrite (readdress g.wan_if.mac dest 26 g.wan_if.local_ip m) wan_port in
          Step.returns g
            (record { side = Side.wan; frame = out; length = 14 + total_length m } ∷ []) true
    ]
    else Step.falls g

-- An echo request from the LAN.
unfoldable pub lan_icmp : ℕ → Memory → ℕ → Gateway → Step
unfolding forward_out rewrite_icmp
lan_icmp now m length g =
    let (nat, answer) =
      nat_translate_outbound
        (record {
          protocol = 1;
          lan_ip = src_ip m;
          lan_port = field16 m (transport_at m + 4);
          dst_ip = dst_ip m;
          dst_port = 0;
        })
        now g.nat in
    if leb (ip_header_len m + 8) (total_length m) && m (transport_at m) == 8
    then forward_out
        (λ out port. rewrite_icmp (transport_at m) port (total_length m - ip_header_len m) out) []
        length m (record g { nat = nat }) answer
    else Step.falls g

-- TCP and UDP from the LAN; an unknown destination is asked for.
unfoldable pub lan_transport : ℕ → Memory → Memory → ℕ → Gateway → Step
unfolding forward_out rewrite_transport
lan_transport now stale m length g =
    let (nat, answer) =
      nat_translate_outbound
        (record {
          protocol = if protocol m == 6 then 6 else 17;
          lan_ip = src_ip m;
          lan_port = field16 m (transport_at m);
          dst_ip = dst_ip m;
          dst_port = field16 m (transport_at m + 2);
        })
        now g.nat in
    if leb (ip_header_len m + min_transport_len m) (total_length m)
    then forward_out
        (λ out port.
          rewrite_transport (transport_at m) (transport_at m) port
            (total_length m - ip_header_len m) out)
        (send_arp_request_for_ip stale Side.wan g.wan_if (dst_ip m) ∷ []) length m
        (record g { nat = nat }) answer
    else Step.falls g
