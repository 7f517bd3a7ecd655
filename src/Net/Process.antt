-- ===== src/Net/Process.antt =====
-- The dispatch of net_demo_process_frame in src/net_demo.c.
use ucosii_arm64_qemu.Prelude.{
  ℕ, ◌+◌, ◌-◌, ◌/◌, Bool, true, false, List, [], ◌∷◌, ltb, leb, ◌==◌, if◌then◌else◌, ◌&&◌, ◌||◌,
  not, u16, bit_and,
}
use ucosii_arm64_qemu.Addr.{Ip, Mac}
use ucosii_arm64_qemu.Nat.Types.{nat_is_lan_ip, nat_is_wan_ip}
use ucosii_arm64_qemu.Arp.{arp_cache_add}
use ucosii_arm64_qemu.Bytes.{Memory, load_ip, load_mac}
use ucosii_arm64_qemu.Net.Frame.{
  Interface, Side, Packet, field16, ip_header_len, total_length, ip_equals, send_arp_reply,
  send_icmp_echo_reply,
}
use ucosii_arm64_qemu.Net.Forward.{
  Gateway, Step, protocol, dst_ip, src_ip, transport_at, is_tcp_udp, inbound_icmp, sent_reply,
  wan_icmp, wan_transport, lan_icmp, lan_transport,
}

abbrev pub is_lan : Side → Bool
is_lan Side.lan = true
is_lan Side.wan = false

abbrev pub iface_of : Side → Gateway → Interface
iface_of Side.lan g = g.lan_if
iface_of Side.wan g = g.wan_if

abbrev pub with_iface : Side → Interface → Gateway → Gateway
with_iface Side.lan i g = record g { lan_if = i }
with_iface Side.wan i g = record g { wan_if = i }

-- What a call of the function leaves: the state, the frames sent, and whether it returned 1.
pub record Processed : Type 0 where
  pub gateway : Gateway
  pub sent : List Packet
  pub handled : Bool

abbrev pub nothing : Gateway → Processed
nothing g = record { gateway = g; sent = []; handled = false }

-- The end of the function, or the next block.
abbrev pub orelse : Step → (Gateway → Processed) → Processed
orelse (Step.returns g sent handled) next = record { gateway = g; sent = sent; handled = handled }
orelse (Step.falls g) next = next g

unfoldable pub learn_arp : ℕ → Ip → Mac → Gateway → Gateway
learn_arp now ip mac g = record g {
  nat = record (g.nat) { arp_table = arp_cache_add ip mac now g.nat.arp_table };
}

-- A reply from the peer to this interface sets the peer's MAC.
unfoldable pub learn_peer : Side → Memory → Gateway → Gateway
learn_peer side m g =
    let iface = iface_of side g in
    if ip_equals m 38 iface.local_ip && ip_equals m 28 iface.peer_ip
    then with_iface side (record iface { peer_mac = load_mac m 22; peer_mac_valid = true }) g
    else g

unfoldable pub process_arp : ℕ → Memory → Side → Memory → ℕ → Gateway → Processed
unfolding learn_arp learn_peer
process_arp now stale side m length g =
    if ltb length 42
    then nothing g
    else if field16 m 20 == 1 && ip_equals m 38 (iface_of side g).local_ip
    then (record {
      gateway = g;
      sent = send_arp_reply stale side (iface_of side g) m ∷ [];
      handled = true;
    })
    else if field16 m 20 == 2
    then (record {
      gateway = learn_peer side m (learn_arp now (load_ip m 28) (load_mac m 22) g);
      sent = [];
      handled = true;
    })
    else nothing g

-- A packet for this host: an echo request is answered.
unfoldable pub process_local : Memory → Side → Memory → Gateway → Processed
process_local stale side m g =
    if ltb (total_length m) (u16 (ip_header_len m + 8))
    then nothing g
    else if protocol m == 1 && (leb 8 (total_length m - ip_header_len m) && m (transport_at m) == 8)
    then (record {
      gateway = g;
      sent = sent_reply (send_icmp_echo_reply stale side (iface_of side g) m (14 + total_length m));
      handled = true;
    })
    else nothing g

-- A packet from the LAN that is not for this host.
unfoldable pub process_outbound : ℕ → Memory → Side → Memory → ℕ → Gateway → Step
process_outbound now stale side m length g =
    if nat_is_lan_ip g.nat (src_ip m) && is_lan side
    then (if protocol m == 1 && g.wan_if.has_dev
        then lan_icmp now m length g
        else if is_tcp_udp m && g.wan_if.has_dev
        then lan_transport now stale m length g
        else Step.falls g)
    else Step.falls g

-- The second block for traffic from the WAN, behind the test for this host.
unfoldable pub process_return : ℕ → Side → Memory → ℕ → Gateway → Step
process_return now side m length g =
    if nat_is_wan_ip g.nat (dst_ip m) && (not (is_lan side) && (protocol m == 1 || is_tcp_udp m))
    then (if leb (ip_header_len m + 8) (total_length m)
        then (if m (transport_at m) == 0 then inbound_icmp now m length g else Step.falls g)
        else if is_tcp_udp m
        then wan_transport now m length g
        else Step.falls g)
    else Step.falls g

-- `is_for_us`
unfoldable pub is_for_us : Side → Memory → Gateway → Bool
is_for_us side m g =
    ip_equals m 30 (iface_of side g).local_ip || (is_lan side && nat_is_wan_ip g.nat (dst_ip m))

-- The first block for traffic from the WAN, before the test for this host.
unfoldable pub process_wan : ℕ → Memory → Side → Memory → ℕ → Gateway → Step
process_wan now stale side m length g =
    if nat_is_wan_ip g.nat (dst_ip m) && not (is_lan side)
    then (if protocol m == 1
        then wan_icmp now stale m length g
        else if is_tcp_udp m
        then wan_transport now m length g
        else Step.falls g)
    else Step.falls g

unfoldable pub process_routed : ℕ → Memory → Side → Memory → ℕ → Gateway → Processed
process_routed now stale side m length g =
    if is_for_us side m g
    then process_local stale side m g
    else orelse (process_outbound now stale side m length g)
        (λ g'. orelse (process_return now side m length g') nothing)

unfoldable pub process_ip : ℕ → Memory → Side → Memory → ℕ → Gateway → Processed
unfolding learn_arp
process_ip now stale side m length g =
    if ltb length 34
    then nothing g
    else if not (m 14 / 16 == 4) || ltb (bit_and (m 14) 15) 5
    then nothing g
    else orelse (process_wan now stale side m length (learn_arp now (src_ip m) (load_mac m 6) g))
        (λ g'. process_routed now stale side m length g')

unfoldable pub net_demo_process_frame : ℕ → Memory → Side → Memory → ℕ → Gateway → Processed
net_demo_process_frame now stale side m length g =
    if ltb length 14
    then nothing g
    else if field16 m 12 == 2054
    then process_arp now stale side m length g
    else if field16 m 12 == 2048
    then process_ip now stale side m length g
    else nothing g
