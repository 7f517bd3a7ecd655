-- ===== src/Net/Outward.antt =====
-- The way of a TCP or UDP segment from the LAN through net_demo_process_frame of src/net_demo.c.
use ucosii_arm64_qemu.Prelude.{
  ℕ, ◌+◌, ◌/◌, ◌≤◌, ◌≡◌, ◌∙◌, refl, ap, true, false, none, some, [], ◌∷◌, ltb, leb, ◌==◌,
  if◌then◌else◌, arith, bit_and, Bool-cases, inl, inr,
}
use ucosii_arm64_qemu.Addr.{Ip, Mac}
use ucosii_arm64_qemu.Bytes.{Memory, load_mac}
use ucosii_arm64_qemu.Arp.{arp_cache_lookup}
use ucosii_arm64_qemu.Nat.Types.{Flow, nat_is_lan_ip, nat_is_wan_ip}
use ucosii_arm64_qemu.Nat.Lookup.{nat_find_entry, nat_alloc_entry}
use ucosii_arm64_qemu.Nat.Translate.{open_session, outbound_new}
use ucosii_arm64_qemu.Net.Frame.{Side, field16, ip_header_len, total_length}
use ucosii_arm64_qemu.Net.Forward.{
  Gateway, Step, protocol, dst_ip, src_ip, transport_at, is_tcp_udp, min_transport_len, forward_out,
  lan_transport,
}
use ucosii_arm64_qemu.Net.Process.{
  orelse, learn_arp, is_for_us, process_outbound, process_wan, process_routed, process_ip,
  net_demo_process_frame,
}
use ucosii_arm64_qemu.Net.Forwarded.{forwarded}

-- An IPv4 packet that fits a frame, with a header of at least five words.
pub record IsPacket (m : Memory) (length : ℕ) : Type 0 where
  pub is_ip : field16 m 12 ≡ 2048
  pub room : 34 ≤ length
  pub fits : length ≤ 1518
  pub version : m 14 / 16 ≡ 4
  pub header : 5 ≤ bit_and (m 14) 15

-- A frame with a whole TCP or UDP segment.
pub record IsSegment (m : Memory) (length : ℕ) : Type 0 where
  pub packet : IsPacket m length
  pub transport : is_tcp_udp m ≡ true
  pub whole : ip_header_len m + min_transport_len m ≤ total_length m

-- The flow of a segment, and the reply that a segment is.
abbrev pub flow_of : Memory → Flow
flow_of m = record {
  protocol = if protocol m == 6 then 6 else 17;
  lan_ip = src_ip m;
  lan_port = field16 m (transport_at m);
  dst_ip = dst_ip m;
  dst_port = field16 m (transport_at m + 2);
}

-- What the gateway knows when the packet arrives: the sender is on the LAN, the packet is not for the
-- gateway itself, its flow `f` has no session yet and entry `i` is free, and the next hop's MAC is known.
pub record Opens (now : ℕ) (m : Memory) (f : Flow) (i : ℕ) (dest : Mac) (g : Gateway) : Type 0 where
  pub from_lan : nat_is_lan_ip g.nat (src_ip m) ≡ true
  pub through : is_for_us Side.lan m g ≡ false
  pub has_wan : g.wan_if.has_dev ≡ true
  pub no_session : nat_find_entry g.nat f ≡ none
  pub free : nat_alloc_entry g.nat ≡ some i
  pub next_hop :
      arp_cache_lookup (dst_ip m) (learn_arp now (src_ip m) (load_mac m 6) g).nat.arp_table
      ≡ some dest

-- The gateway after the packet went out.
abbrev pub opened : ℕ → Memory → Flow → ℕ → Gateway → Gateway
opened now m f i g =
    let learned = learn_arp now (src_ip m) (load_mac m 6) g in
    record learned { nat = open_session i f now learned.nat }

abbrev pub sent_out : Memory → Mac → Gateway → Memory
sent_out m dest g =
    forwarded g.wan_if.mac dest 26 g.wan_if.local_ip (transport_at m) g.nat.next_port m

lan_transport-sends :
    (now : ℕ) (stale m : Memory) (n i : ℕ) (dest : Mac) (g : Gateway)
    → IsSegment m n
    → nat_find_entry g.nat (flow_of m) ≡ none
    → nat_alloc_entry g.nat ≡ some i
    → arp_cache_lookup (dst_ip m) g.nat.arp_table ≡ some dest
    → lan_transport now stale m n g
      ≡ Step.returns
          (record g { nat = open_session i (flow_of m) now g.nat })
          (record { side = Side.wan; frame = sent_out m dest g; length = 14 + total_length m } ∷ [])
          true
unfolding lan_transport forward_out open_session
lan_transport-sends now stale m n i dest g v miss free hop =
    let whole : leb (ip_header_len m + min_transport_len m) (total_length m) ≡ true =
      ground (arith, v.whole) in
    let fits : leb n 1518 ≡ true = ground (arith, v.packet.fits) in
    rw (outbound_new g.nat (flow_of m) now i miss free, whole, fits, hop) refl

-- Learning an address changes nothing that the searches read.
pub learned_same :
    (now : ℕ) (ip : Ip) (mac : Mac) (g : Gateway) (f : Flow)
    → let g' = learn_arp now ip mac g in
      (nat_find_entry g'.nat f ≡ nat_find_entry g.nat f)
      × (nat_alloc_entry g'.nat ≡ nat_alloc_entry g.nat)
      × ((a : Ip) → nat_is_lan_ip g'.nat a ≡ nat_is_lan_ip g.nat a)
      × ((a : Ip) → nat_is_wan_ip g'.nat a ≡ nat_is_wan_ip g.nat a)
      × ((side : Side) (m : Memory) → is_for_us side m g' ≡ is_for_us side m g)
unfolding learn_arp nat_find_entry nat_alloc_entry nat_is_lan_ip nat_is_wan_ip is_for_us
learned_same now ip mac g f = (refl, refl, λ a. refl, λ a. refl, learned_us)
  where
    learned_us :
        (side : Side) (m : Memory) → is_for_us side m (learn_arp now ip mac g) ≡ is_for_us side m g
    learned_us Side.lan m = refl
    learned_us Side.wan m = refl

process_routed-sends :
    (now : ℕ) (stale m : Memory) (n i : ℕ) (dest : Mac) (g : Gateway)
    → IsSegment m n
    → is_for_us Side.lan m g ≡ false
    → nat_is_lan_ip g.nat (src_ip m) ≡ true
    → g.wan_if.has_dev ≡ true
    → nat_find_entry g.nat (flow_of m) ≡ none
    → nat_alloc_entry g.nat ≡ some i
    → arp_cache_lookup (dst_ip m) g.nat.arp_table ≡ some dest
    → process_routed now stale Side.lan m n g ≡ record {
      gateway = record g { nat = open_session i (flow_of m) now g.nat };
      sent =
          record { side = Side.wan; frame = sent_out m dest g; length = 14 + total_length m } ∷ [];
      handled = true;
    }
unfolding process_routed process_outbound
process_routed-sends now stale m n i dest g v us lan dev miss free hop =
    let not_icmp : (protocol m == 1) ≡ false = ground (arith, v.transport) in
    rw (us, lan, not_icmp, v.transport, lan_transport-sends now stale m n i dest g v miss free hop)
      (rw dev refl)

pub process_wan_lan :
    (now : ℕ) (stale m : Memory) (n : ℕ) (g : Gateway)
    → process_wan now stale Side.lan m n g ≡ Step.falls g
unfolding process_wan
process_wan_lan now stale m n g = elim (Bool-cases (nat_is_wan_ip g.nat (dst_ip m))) [
  | inl e ↦ rw e refl
  | inr e ↦ rw e refl
]

-- The frame goes through the dispatch to `process_ip` and past its tests.
pub packet_dispatch :
    (now : ℕ) (stale : Memory) (side : Side) (m : Memory) (n : ℕ) (g : Gateway)
    → IsPacket m n
    → net_demo_process_frame now stale side m n g ≡ (
        let learned = learn_arp now (src_ip m) (load_mac m 6) g in
        orelse
          (process_wan now stale side m n learned)
          (λ g'. process_routed now stale side m n g'))
unfolding net_demo_process_frame process_ip
packet_dispatch now stale side m n g v =
    let long : ltb n 14 ≡ false = ground (arith, v.room) in
    let ip : ltb n 34 ≡ false = ground (arith, v.room) in
    let four : (m 14 / 16 == 4) ≡ true = ground (arith, v.version) in
    let words : ltb (bit_and (m 14) 15) 5 ≡ false = ground (arith, v.header) in
    rw (long, v.is_ip, ip, four, words) refl

pub process_frame-sends :
    (now : ℕ) (stale m : Memory) (n i : ℕ) (dest : Mac) (g : Gateway)
    → IsSegment m n
    → Opens now m (flow_of m) i dest g
    → net_demo_process_frame now stale Side.lan m n g ≡ record {
      gateway = opened now m (flow_of m) i g;
      sent =
          record { side = Side.wan; frame = sent_out m dest g; length = 14 + total_length m } ∷ [];
      handled = true;
    }
process_frame-sends now stale m n i dest g v o =
    let learned = learn_arp now (src_ip m) (load_mac m 6) g in
    let (find, alloc, lan, wan, us) = learned_same now (src_ip m) (load_mac m 6) g (flow_of m) in
    packet_dispatch now stale Side.lan m n g v.packet
    ∙ ap (λ s. orelse s (λ g'. process_routed now stale Side.lan m n g'))
        (process_wan_lan now stale m n learned)
    ∙ process_routed-sends now stale m n i dest learned v (us Side.lan m ∙ o.through)
        (lan (src_ip m) ∙ o.from_lan) (unfold learn_arp in o.has_wan) (find ∙ o.no_session)
        (alloc ∙ o.free) o.next_hop
    ∙ (unfold learn_arp in refl)
