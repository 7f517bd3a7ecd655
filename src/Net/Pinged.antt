-- ===== src/Net/Pinged.antt =====
-- An ICMP echo request through src/net_demo.c and the reply to it: what each side reads.
use ucosii_arm64_qemu.Prelude.{ℕ, ◌+◌, ◌≡◌, ◌∙◌, refl, ap, true, some, [], ◌∷◌, arith, inl, inr}
use ucosii_arm64_qemu.Addr.{Ip, Mac}
use ucosii_arm64_qemu.Bytes.{Memory, load_mac}
use ucosii_arm64_qemu.Arp.{arp_cache_lookup}
use ucosii_arm64_qemu.Nat.Types.{entry_at}
use ucosii_arm64_qemu.Nat.Lookup.{nat_find_reverse_entry, nat_alloc_entry, nat_alloc_entry-free}
use ucosii_arm64_qemu.Nat.Translate.{new_session}
use ucosii_arm64_qemu.Nat.WellFormed.{WellFormed}
use ucosii_arm64_qemu.Nat.RoundTrip.{reply_to}
use ucosii_arm64_qemu.Net.Frame.{Side, Packet, field16, total_length}
use ucosii_arm64_qemu.Net.Forward.{Gateway, dst_ip, src_ip, transport_at}
use ucosii_arm64_qemu.Net.Process.{learn_arp, net_demo_process_frame}
use ucosii_arm64_qemu.Net.Forwarded.{Readdressed-header, Readdressed-other_ip}
use ucosii_arm64_qemu.Net.Outward.{Opens, opened}
use ucosii_arm64_qemu.Net.Return.{field16_bound, behind_header, session_found}
use ucosii_arm64_qemu.Net.Conversation.{for_wan, first_frame}
use ucosii_arm64_qemu.Net.Inbound.{SameWan}
use ucosii_arm64_qemu.Net.Ping.{
  IsEcho, echo_flow, echo_reply, echoed-Readdressed, echoed_kind, echoed_port, request_out,
  reply_back, request_leaves, reply_delivered,
}

-- An echo reply that answers the request in `p`.
pub record Replies (r p : Memory) : Type 0 where
  pub from_ip : src_ip r ≡ dst_ip p
  pub to_ip : dst_ip r ≡ src_ip p
  pub identifier : field16 r (transport_at r + 4) ≡ field16 p (transport_at p + 4)

-- What the destination reads in the request, and the sender in the reply: the type, the addresses and
-- the identifier.
abbrev pub Reads : ℕ → Ip → Ip → ℕ → Memory → Type 0
Reads type from to identifier out =
    (out (transport_at out) ≡ type)
    × (src_ip out ≡ from)
    × (dst_ip out ≡ to)
    × (field16 out (transport_at out + 4) ≡ identifier)

pub request_out-Reads :
    (m : Memory) (n : ℕ) (dest : Mac) (g : Gateway)
    → IsEcho 8 m n
    → WellFormed g.nat
    → Reads 8 g.wan_if.local_ip (dst_ip m) g.nat.next_port (request_out m dest g)
request_out-Reads m n dest g v w =
    let t = behind_header m n v.packet in
    let out = request_out m dest g in
    let same = echoed-Readdressed g.wan_if.mac dest 26 g.wan_if.local_ip g.nat.next_port m t in
    let (proto, place, len, src) =
      Readdressed-header g.wan_if.mac dest 26 g.wan_if.local_ip m out same (omega arith)
        (omega arith) in
    let dst =
      Readdressed-other_ip g.wan_if.mac dest 26 30 g.wan_if.local_ip m out same (omega arith)
        (omega arith) (inl (omega arith)) in
    (
      ap out place
          ∙ echoed_kind g.wan_if.mac dest 26 g.wan_if.local_ip g.nat.next_port m t (omega arith)
          ∙ v.kind,
      src,
      dst,
      ap (λ a. field16 out (a + 4)) place
          ∙ echoed_port g.wan_if.mac dest 26 g.wan_if.local_ip g.nat.next_port m
              (omega (arith, w.port_to, w.port_end)),
    )

reply_back-Reads :
    (m r : Memory) (k : ℕ) (home : Mac) (from : Ip) (g : Gateway)
    → IsEcho 0 r k
    → src_ip r ≡ from
    → Reads 0 from
        (src_ip m)
        (field16 m (transport_at m + 4))
        (reply_back r home (src_ip m) (field16 m (transport_at m + 4)) g)
reply_back-Reads m r k home from g v e =
    let t = behind_header r k v.packet in
    let port = field16 m (transport_at m + 4) in
    let out = reply_back r home (src_ip m) port g in
    let same = echoed-Readdressed g.lan_if.mac home 30 (src_ip m) port r t in
    let (proto, place, len, dst) =
      Readdressed-header g.lan_if.mac home 30 (src_ip m) r out same (omega arith) (omega arith) in
    let src =
      Readdressed-other_ip g.lan_if.mac home 30 26 (src_ip m) r out same (omega arith) (omega arith)
        (inr (omega arith)) in
    (
      ap out place ∙ echoed_kind g.lan_if.mac home 30 (src_ip m) port r t (omega arith) ∙ v.kind,
      src ∙ e,
      dst,
      ap (λ a. field16 out (a + 4)) place
          ∙ echoed_port g.lan_if.mac home 30 (src_ip m) port r
              (field16_bound m (transport_at m + 4)),
    )

-- The reply at the gateway that the request left.
reply_comes :
    (now later i n k : ℕ) (stale m r : Memory) (dest home : Mac) (g : Gateway)
    → WellFormed g.nat
    → SameWan g
    → g.lan_if.has_dev ≡ true
    → IsEcho 8 m n
    → nat_alloc_entry g.nat ≡ some i
    → IsEcho 0 r k
    → Replies r (request_out m dest g)
    → let back = learn_arp later (src_ip r) (load_mac r 6) (opened now m (echo_flow m) i g) in
      arp_cache_lookup (src_ip m) back.nat.arp_table ≡ some home
      → (net_demo_process_frame later stale Side.wan r k (opened now m (echo_flow m) i g)).sent
        ≡ record {
          side = Side.lan;
          frame = reply_back r home (src_ip m) (field16 m (transport_at m + 4)) back;
          length = 14 + total_length r;
        }
          ∷ []
unfolding new_session
reply_comes now later i n k stale m r dest home g w same dev v free u a hop =
    let f = echo_flow m in
    let back = learn_arp later (src_ip r) (load_mac r 6) (opened now m f i g) in
    let (kind, src, dst, port) = request_out-Reads m n dest g v w in
    let (found, entry) =
      session_found now later m f i (src_ip r) (load_mac r 6) g w
        (omega (arith, nat_alloc_entry-free g.nat i free, w.table_length)) in
    let reply_is : echo_reply r ≡ reply_to f g.nat.next_port =
      rw (a.identifier ∙ port) (rw (a.from_ip ∙ dst) refl) in
    let known : nat_find_reverse_entry back.nat (echo_reply r) ≡ some i = rw reply_is found in
    let lan_ip : (entry_at back.nat i).lan_ip ≡ src_ip m = ap (λ e. e.lan_ip) entry in
    let lan_port : (entry_at back.nat i).lan_port ≡ field16 m (transport_at m + 4) =
      ap (λ e. e.lan_port) entry in
    reply_delivered later stale r k i home (opened now m f i g) u
      (for_wan now later m r f i g same (a.to_ip ∙ src)) known (unfold learn_arp in dev)
      (rw lan_ip hop)
    ∙ rw (lan_ip, lan_port) refl

-- An echo request from the LAN that opens a session goes out to the WAN as one frame, and any echo
-- reply to that frame comes back to the LAN as one frame. The destination reads a request from the
-- gateway's WAN address to itself, with the session's port as the identifier; the sender reads a reply
-- from the destination to itself, with its own identifier. The tables are well formed, the WAN
-- interface has the address that the translation is configured with, both interfaces have a device,
-- the MAC of the destination is cached when the request has been learned from, and the sender's when
-- the reply has.
pub echo_round_trip :
    (now later i n k : ℕ) (stale stale' m r : Memory) (dest home : Mac) (g : Gateway)
    → WellFormed g.nat
    → SameWan g
    → g.lan_if.has_dev ≡ true
    → IsEcho 8 m n
    → Opens now m (echo_flow m) i dest g
    → IsEcho 0 r k
    → let one = net_demo_process_frame now stale Side.lan m n g in
      Replies r (first_frame one.sent)
      → arp_cache_lookup
          (src_ip m)
          (learn_arp later (src_ip r) (load_mac r 6) one.gateway).nat.arp_table
        ≡ some home
      → (p : Packet) × (one.sent ≡ p ∷ [])
        × (p.side ≡ Side.wan)
        × Reads 8 g.wan_if.local_ip (dst_ip m) g.nat.next_port p.frame
        × ((q : Packet) × ((net_demo_process_frame later stale' Side.wan r k one.gateway).sent
              ≡ q ∷ [])
            × (q.side ≡ Side.lan)
            × Reads 0 (dst_ip m) (src_ip m) (field16 m (transport_at m + 4)) q.frame)
echo_round_trip now later i n k stale stale' m r dest home g w same dev v o u a hop =
    let step = request_leaves now stale m n i dest g v o in
    let a' = rw step at a in
    let hop' = rw step at hop in
    let read = request_out-Reads m n dest g v w in
    let back = reply_comes now later i n k stale' m r dest home g w same dev v o.free u a' hop' in
    let g' = learn_arp later (src_ip r) (load_mac r 6) (opened now m (echo_flow m) i g) in
    rw step (
      _,
      refl,
      refl,
      read,
      (_, back, refl, reply_back-Reads m r k home (dst_ip m) g' u (a'.from_ip ∙ read.2)),
    )
