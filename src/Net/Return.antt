-- ===== src/Net/Return.antt =====
-- The way of a segment through src/net_demo.c and of the reply to it back.
use ucosii_arm64_qemu.Prelude.{
  ℕ, ◌+◌, ◌≤◌, ◌<◌, ◌≡◌, ◌∙◌, refl, ap, true, false, some, [], ◌∷◌, leb, ◌==◌, if◌then◌else◌, arith,
  inl, inr,
}
use ucosii_arm64_qemu.Addr.{Ip, Mac}
use ucosii_arm64_qemu.Bytes.{Memory, load_mac, load16, util_ntohs}
use ucosii_arm64_qemu.Arp.{arp_cache_lookup}
use ucosii_arm64_qemu.Nat.Types.{Flow}
use ucosii_arm64_qemu.Nat.Types.{Reply, NatState, entry_at, nat_is_wan_ip}
use ucosii_arm64_qemu.Nat.Lookup.{nat_find_reverse_entry}
use ucosii_arm64_qemu.Nat.Translate.{nat_translate_inbound, accept_reply, open_session, new_session}
use ucosii_arm64_qemu.Nat.WellFormed.{WellFormed}
use ucosii_arm64_qemu.Nat.RoundTrip.{reply_to, find-open_session, entry-open_session}
use ucosii_arm64_qemu.Net.Frame.{Side, field16, ip_header_len, total_length}
use ucosii_arm64_qemu.Net.Forward.{
  Gateway, Step, protocol, dst_ip, src_ip, transport_at, min_transport_len, deliver,
  inbound_transport, wan_transport,
}
use ucosii_arm64_qemu.Net.Process.{learn_arp, process_wan, net_demo_process_frame}
use ucosii_arm64_qemu.Net.Header.{htons_bound}
use ucosii_arm64_qemu.Net.Forwarded.{
  forwarded, forwarded-Readdressed, Readdressed-header, Readdressed-other_ip, forwarded_port,
  forwarded_other_port,
}
use ucosii_arm64_qemu.Net.Outward.{IsPacket, IsSegment, flow_of, opened, sent_out, packet_dispatch}
use ucosii_arm64_qemu.Net.Inbound.{learn_arp-WellFormed}

-- A segment that answers another: the protocol is its, and addresses and ports are swapped.
pub record Answers (r p : Memory) : Type 0 where
  pub same_protocol : protocol r ≡ protocol p
  pub from_ip : src_ip r ≡ dst_ip p
  pub to_ip : dst_ip r ≡ src_ip p
  pub from_port : field16 r (transport_at r) ≡ field16 p (transport_at p + 2)
  pub to_port : field16 r (transport_at r + 2) ≡ field16 p (transport_at p)

abbrev pub reply_of : Memory → Reply
reply_of r = record {
  protocol = if protocol r == 6 then 6 else 17;
  wan_port = field16 r (transport_at r + 2);
  src_ip = src_ip r;
  src_port = field16 r (transport_at r);
}

abbrev pub sent_back : Memory → Mac → Ip → ℕ → Gateway → Memory
sent_back r dest ip port g = forwarded g.lan_if.mac dest 30 ip (transport_at r + 2) port r

pub inbound_known :
    (s : NatState) (r : Reply) (now i : ℕ)
    → nat_find_reverse_entry s r ≡ some i
    → nat_translate_inbound r now s
      ≡ (accept_reply i now s, some ((entry_at s i).lan_ip, (entry_at s i).lan_port))
unfolding nat_translate_inbound
inbound_known s r now i e = rw (nat_translate_inbound, e) refl

wan_transport-delivers :
    (now : ℕ) (r : Memory) (k i : ℕ) (home : Mac) (g : Gateway)
    → IsSegment r k
    → nat_find_reverse_entry g.nat (reply_of r) ≡ some i
    → g.lan_if.has_dev ≡ true
    → arp_cache_lookup (entry_at g.nat i).lan_ip g.nat.arp_table ≡ some home
    → wan_transport now r k g
      ≡ Step.returns
          (record g { nat = accept_reply i now g.nat })
          (record {
            side = Side.lan;
            frame = sent_back r home (entry_at g.nat i).lan_ip (entry_at g.nat i).lan_port g;
            length = 14 + total_length r;
          }
            ∷ [])
          true
unfolding wan_transport inbound_transport deliver accept_reply
wan_transport-delivers now r k i home g v found dev hop =
    let whole : leb (ip_header_len r + min_transport_len r) (total_length r) ≡ true =
      ground (arith, v.whole) in
    let fits : leb k 1518 ≡ true = ground (arith, v.packet.fits) in
    rw (whole, inbound_known g.nat (reply_of r) now i found, fits, hop) (rw dev refl)

pub process_frame-delivers :
    (now : ℕ) (stale r : Memory) (k i : ℕ) (home : Mac) (g : Gateway)
    → let learned = learn_arp now (src_ip r) (load_mac r 6) g in
      IsSegment r k
      → nat_is_wan_ip learned.nat (dst_ip r) ≡ true
      → nat_find_reverse_entry learned.nat (reply_of r) ≡ some i
      → learned.lan_if.has_dev ≡ true
      → arp_cache_lookup (entry_at learned.nat i).lan_ip learned.nat.arp_table ≡ some home
      → (net_demo_process_frame now stale Side.wan r k g).sent
        ≡ record {
          side = Side.lan;
          frame =
              sent_back r home
                (entry_at learned.nat i).lan_ip
                (entry_at learned.nat i).lan_port
                learned;
          length = 14 + total_length r;
        }
          ∷ []
unfolding process_wan
process_frame-delivers now stale r k i home g v wan found dev hop =
    let learned = learn_arp now (src_ip r) (load_mac r 6) g in
    let not_icmp : (protocol r == 1) ≡ false = ground (arith, v.transport) in
    rw
      (
        packet_dispatch now stale Side.wan r k g v.packet,
        wan,
        not_icmp,
        v.transport,
        wan_transport-delivers now r k i home learned v found dev hop,
      )
      refl

pub field16_bound : (m : Memory) (a : ℕ) → field16 m a < 65536
unfolding util_ntohs
field16_bound m a = htons_bound (load16 m a)

pub behind_header : (m : Memory) (n : ℕ) → IsPacket m n → 34 ≤ transport_at m
behind_header m n v = omega (arith, v.header)

-- What the destination reads in the segment that went out.
abbrev pub Outgoing : Memory → Memory → Gateway → Type 0
Outgoing m out g =
    (protocol out ≡ protocol m)
    × (src_ip out ≡ g.wan_if.local_ip)
    × (dst_ip out ≡ dst_ip m)
    × (field16 out (transport_at out) ≡ g.nat.next_port)
    × (field16 out (transport_at out + 2) ≡ field16 m (transport_at m + 2))

pub sent_out-Outgoing :
    (m : Memory) (n : ℕ) (dest : Mac) (g : Gateway)
    → IsSegment m n
    → WellFormed g.nat
    → Outgoing m (sent_out m dest g) g
sent_out-Outgoing m n dest g v w =
    let t = behind_header m n v.packet in
    let same =
      forwarded-Readdressed g.wan_if.mac dest 26 g.wan_if.local_ip (transport_at m) g.nat.next_port
        m t t in
    let (proto, place, len, src) =
      Readdressed-header g.wan_if.mac dest 26 g.wan_if.local_ip m (sent_out m dest g) same
        (omega arith) (omega arith) in
    let dst =
      Readdressed-other_ip g.wan_if.mac dest 26 30 g.wan_if.local_ip m (sent_out m dest g) same
        (omega arith) (omega arith) (inl (omega arith)) in
    let port =
      forwarded_port g.wan_if.mac dest 26 g.wan_if.local_ip (transport_at m) g.nat.next_port m
        (omega arith) (omega (arith, w.port_to, w.port_end)) in
    let other =
      forwarded_other_port g.wan_if.mac dest 26 g.wan_if.local_ip (transport_at m) g.nat.next_port
        (transport_at m + 2) m t (omega arith) (omega arith) (omega arith) (inr (omega arith)) in
    (
      proto,
      src,
      dst,
      ap (field16 (sent_out m dest g)) place ∙ port,
      ap (λ a. field16 (sent_out m dest g) (a + 2)) place ∙ other,
    )

pub Answers-reply :
    (m r out : Memory) (g : Gateway)
    → Outgoing m out g
    → Answers r out
    → reply_of r ≡ reply_to (flow_of m) g.nat.next_port
Answers-reply m r out g (proto, src, dst, port, other) a =
    let p = a.same_protocol ∙ proto in
    let d = a.from_ip ∙ dst in
    let w = a.to_port ∙ port in let o = a.from_port ∙ other in rw (w, o) (rw p (rw d refl))

-- The session of the segment is found for the reply, whatever addresses were learned meanwhile.
pub session_found :
    (now later : ℕ) (m : Memory) (f : Flow) (i : ℕ) (ip : Ip) (mac : Mac) (g : Gateway)
    → WellFormed g.nat
    → i < 64
    → let s = (learn_arp later ip mac (opened now m f i g)).nat in
      (nat_find_reverse_entry s (reply_to f g.nat.next_port) ≡ some i)
      × (entry_at s i ≡ new_session f g.nat.next_port now)
unfolding nat_find_reverse_entry learn_arp open_session
session_found now later m f i ip mac g w small =
    let s = (learn_arp now (src_ip m) (load_mac m 6) g).nat in
    let v = learn_arp-WellFormed now (src_ip m) (load_mac m 6) g w in
    (find-open_session s f i now v small, entry-open_session s f i now v small)
