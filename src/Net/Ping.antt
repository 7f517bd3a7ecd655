-- ===== src/Net/Ping.antt =====
-- The way of an ICMP echo request from the LAN through src/net_demo.c and of the echo reply back.
use ucosii_arm64_qemu.Prelude.{
  ℕ, suc, ◌+◌, ◌-◌, ◌≤◌, ◌<◌, ◌≡◌, ◌∙◌, refl, ap, true, false, none, some, [], ◌∷◌, ltb, leb, ◌==◌,
  ◌&&◌, arith,
}
use ucosii_arm64_qemu.Addr.{Ip, Mac}
use ucosii_arm64_qemu.Bytes.{Memory, load_mac, load16}
use ucosii_arm64_qemu.Arp.{arp_cache_lookup}
use ucosii_arm64_qemu.Nat.Types.{Flow, Reply, entry_at, nat_is_lan_ip, nat_is_wan_ip}
use ucosii_arm64_qemu.Nat.Lookup.{nat_find_entry, nat_find_reverse_entry, nat_alloc_entry}
use ucosii_arm64_qemu.Nat.Translate.{accept_reply, open_session, outbound_new}
use ucosii_arm64_qemu.Net.Frame.{Side, field16, ip_header_len, total_length}
use ucosii_arm64_qemu.Net.Forward.{
  Gateway, protocol, dst_ip, src_ip, transport_at, readdress, rewrite_icmp, deliver, inbound_icmp,
  wan_icmp, forward_out, lan_icmp,
}
use ucosii_arm64_qemu.Net.Process.{
  orelse, learn_arp, is_for_us, process_outbound, process_wan, process_routed,
  net_demo_process_frame,
}
use ucosii_arm64_qemu.Net.Header.{put_checksum_other}
use ucosii_arm64_qemu.Net.Segment.{readdress_at, store16_other, field16_store}
use ucosii_arm64_qemu.Net.Forwarded.{Readdressed}
use ucosii_arm64_qemu.Net.Outward.{
  IsPacket, Opens, opened, packet_dispatch, learned_same, process_wan_lan,
}
use ucosii_arm64_qemu.Net.Return.{inbound_known}

-- A whole ICMP message of the given type: 8 for a request, 0 for a reply.
pub record IsEcho (type : ℕ) (m : Memory) (length : ℕ) : Type 0 where
  pub packet : IsPacket m length
  pub icmp : protocol m ≡ 1
  pub whole : ip_header_len m + 8 ≤ total_length m
  pub kind : m (transport_at m) ≡ type

-- The flow of an echo request, and the reply that an echo reply is.
abbrev pub echo_flow : Memory → Flow
echo_flow m = record {
  protocol = 1;
  lan_ip = src_ip m;
  lan_port = field16 m (transport_at m + 4);
  dst_ip = dst_ip m;
  dst_port = 0;
}

abbrev pub echo_reply : Memory → Reply
echo_reply r = record {
  protocol = 1;
  wan_port = field16 r (transport_at r + 4);
  src_ip = src_ip r;
  src_port = 0;
}

-- The frame that goes out.
abbrev pub echoed : Mac → Mac → ℕ → Ip → ℕ → Memory → Memory
echoed src dest field ip port m =
    rewrite_icmp (transport_at m) port (total_length m - ip_header_len m)
      (readdress src dest field ip m)

pub echoed-Readdressed :
    (src dest : Mac) (field : ℕ) (ip : Ip) (port : ℕ) (m : Memory)
    → 34 ≤ transport_at m
    → Readdressed src dest field ip m (echoed src dest field ip port m)
unfolding rewrite_icmp
echoed-Readdressed src dest field ip port m h j low high =
    put_checksum_other _ (transport_at m) (transport_at m + 2) _ j (ground arith) (ground arith)
    ∙ store16_other (readdress src dest field ip m) (transport_at m + 4) _ j (omega arith)

-- The type stays, and the identifier is the port.
pub echoed_kind :
    (src dest : Mac) (field : ℕ) (ip : Ip) (port : ℕ) (m : Memory)
    → 34 ≤ transport_at m
    → field ≤ 30
    → echoed src dest field ip port m (transport_at m) ≡ m (transport_at m)
unfolding rewrite_icmp
echoed_kind src dest field ip port m h to =
    let t = transport_at m in
    let outside : (leb field t && ltb t (field + 4)) ≡ false = ground arith in
    put_checksum_other _ t (t + 2) _ t (ground arith) (ground arith)
    ∙ store16_other (readdress src dest field ip m) (t + 4) _ t (omega arith)
    ∙ readdress_at src dest field ip m t (omega arith) (λ e. omega arith) (λ e. omega arith)
        (λ e. omega arith)
    ∙ rw outside refl

pub echoed_port :
    (src dest : Mac) (field : ℕ) (ip : Ip) (port : ℕ) (m : Memory)
    → port < 65536
    → field16 (echoed src dest field ip port m) (transport_at m + 4) ≡ port
unfolding rewrite_icmp load16
echoed_port src dest field ip port m small =
    let t = transport_at m in
    let out = readdress src dest field ip m in
    rw
      (
        put_checksum_other _ t (t + 2) (total_length m - ip_header_len m) (t + 4) (ground arith)
            (ground arith),
        put_checksum_other _ t (t + 2) (total_length m - ip_header_len m) (suc (t + 4))
            (ground arith) (ground arith),
      )
      (field16_store out (t + 4) port small)

abbrev pub request_out : Memory → Mac → Gateway → Memory
request_out m dest g = echoed g.wan_if.mac dest 26 g.wan_if.local_ip g.nat.next_port m

abbrev pub reply_back : Memory → Mac → Ip → ℕ → Gateway → Memory
reply_back r dest ip port g = echoed g.lan_if.mac dest 30 ip port r

request_sent :
    (now : ℕ) (stale m : Memory) (n i : ℕ) (dest : Mac) (g : Gateway)
    → IsEcho 8 m n
    → is_for_us Side.lan m g ≡ false
    → nat_is_lan_ip g.nat (src_ip m) ≡ true
    → g.wan_if.has_dev ≡ true
    → nat_find_entry g.nat (echo_flow m) ≡ none
    → nat_alloc_entry g.nat ≡ some i
    → arp_cache_lookup (dst_ip m) g.nat.arp_table ≡ some dest
    → process_routed now stale Side.lan m n g ≡ record {
      gateway = record g { nat = open_session i (echo_flow m) now g.nat };
      sent =
          record { side = Side.wan; frame = request_out m dest g; length = 14 + total_length m }
          ∷ [];
      handled = true;
    }
unfolding process_routed process_outbound lan_icmp forward_out open_session
request_sent now stale m n i dest g v us lan dev miss free hop =
    let icmp : (protocol m == 1) ≡ true = ground (arith, v.icmp) in
    let whole : leb (ip_header_len m + 8) (total_length m) ≡ true = ground (arith, v.whole) in
    let request : (m (transport_at m) == 8) ≡ true = ground (arith, v.kind) in
    let fits : leb n 1518 ≡ true = ground (arith, v.packet.fits) in
    rw (us, lan, icmp, outbound_new g.nat (echo_flow m) now i miss free, whole, request, fits, hop)
      (rw dev refl)

pub request_leaves :
    (now : ℕ) (stale m : Memory) (n i : ℕ) (dest : Mac) (g : Gateway)
    → IsEcho 8 m n
    → Opens now m (echo_flow m) i dest g
    → net_demo_process_frame now stale Side.lan m n g ≡ record {
      gateway = opened now m (echo_flow m) i g;
      sent =
          record { side = Side.wan; frame = request_out m dest g; length = 14 + total_length m }
          ∷ [];
      handled = true;
    }
request_leaves now stale m n i dest g v o =
    let learned = learn_arp now (src_ip m) (load_mac m 6) g in
    let (find, alloc, lan, wan, us) = learned_same now (src_ip m) (load_mac m 6) g (echo_flow m) in
    packet_dispatch now stale Side.lan m n g v.packet
    ∙ ap (λ s. orelse s (λ g'. process_routed now stale Side.lan m n g'))
        (process_wan_lan now stale m n learned)
    ∙ request_sent now stale m n i dest learned v (us Side.lan m ∙ o.through)
        (lan (src_ip m) ∙ o.from_lan) (unfold learn_arp in o.has_wan) (find ∙ o.no_session)
        (alloc ∙ o.free) o.next_hop
    ∙ (unfold learn_arp in refl)

pub reply_delivered :
    (now : ℕ) (stale r : Memory) (k i : ℕ) (home : Mac) (g : Gateway)
    → let learned = learn_arp now (src_ip r) (load_mac r 6) g in
      IsEcho 0 r k
      → nat_is_wan_ip learned.nat (dst_ip r) ≡ true
      → nat_find_reverse_entry learned.nat (echo_reply r) ≡ some i
      → learned.lan_if.has_dev ≡ true
      → arp_cache_lookup (entry_at learned.nat i).lan_ip learned.nat.arp_table ≡ some home
      → (net_demo_process_frame now stale Side.wan r k g).sent
        ≡ record {
          side = Side.lan;
          frame =
              reply_back r home
                (entry_at learned.nat i).lan_ip
                (entry_at learned.nat i).lan_port
                learned;
          length = 14 + total_length r;
        }
          ∷ []
unfolding process_wan wan_icmp inbound_icmp deliver accept_reply
reply_delivered now stale r k i home g v wan found dev hop =
    let learned = learn_arp now (src_ip r) (load_mac r 6) g in
    let icmp : (protocol r == 1) ≡ true = ground (arith, v.icmp) in
    let whole : leb (ip_header_len r + 8) (total_length r) ≡ true = ground (arith, v.whole) in
    let reply : (r (transport_at r) == 0) ≡ true = ground (arith, v.kind) in
    let fits : leb k 1518 ≡ true = ground (arith, v.packet.fits) in
    rw
      (
        packet_dispatch now stale Side.wan r k g v.packet,
        wan,
        icmp,
        whole,
        reply,
        inbound_known learned.nat (echo_reply r) now i found,
        fits,
        hop,
      )
      (rw dev refl)
