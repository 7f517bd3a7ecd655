-- ===== src/Net/Exchange.antt =====
-- The ARP exchange of src/net_demo.c: a request, the reply to it, and what the reply teaches.
use ucosii_arm64_qemu.Prelude.{
  ℕ, zero, suc, ◌+◌, ◌<◌, ◌≤◌, ◌≡◌, subst, ltb, ◌↔◌, refl, sym, ap, ◌∙◌, true, false, some, [], ◌∷◌,
  length, arith,
}
use ucosii_arm64_qemu.Addr.{Ip, Mac}
use ucosii_arm64_qemu.Arp.{arp_cache_lookup}
use ucosii_arm64_qemu.Arp.Lookup.{arp_cache_lookup-add}
use ucosii_arm64_qemu.Bytes.{
  Memory, ℤ, store, store16, load16, load_ip, load_mac, ip_bytes, mac_bytes, util_memcpy,
  util_memset, util_ntohs,
}
use ucosii_arm64_qemu.Bytes.Laws.{util_memcmp_iff}
use ucosii_arm64_qemu.Net.Frame.{
  Interface, Side, field16, is_zero, ip_equals, fill_arp, net_demo_send_arp_request, send_arp_reply,
}
use ucosii_arm64_qemu.Net.Forward.{Gateway}
use ucosii_arm64_qemu.Net.Process.{
  iface_of, with_iface, process_arp, learn_arp, learn_peer, net_demo_process_frame,
}

is_zero_iff : (z : ℤ) → (is_zero z ≡ true) ↔ (z ≡ ℤ.pos 0)
unfolding is_zero
is_zero_iff (ℤ.pos n) =
    (λ e. ap ℤ.pos (ground arith), λ e. subst (λ z. is_zero z ≡ true) (sym e) refl)
is_zero_iff (ℤ.negsuc n) = (λ e. absurd (cc), λ e. absurd (cc))

ip_agree :
    (m : Memory) (i : ℕ) (x : Ip)
    → load_ip m i ≡ x
    → (j : ℕ) → j < 4
    → m (i + j) ≡ ip_bytes x (0 + j)
unfolding load_ip ip_bytes
ip_agree m i x e zero h = rw⁻¹ e (ap m (omega arith))
ip_agree m i x e (suc zero) h = rw⁻¹ e refl
ip_agree m i x e (suc (suc zero)) h = rw⁻¹ e refl
ip_agree m i x e (suc (suc (suc zero))) h = rw⁻¹ e refl
ip_agree m i x e (suc (suc (suc (suc j)))) h = absurd (omega arith)

ip_same :
    (m : Memory) (i : ℕ) (x : Ip)
    → ((j : ℕ) → j < 4 → m (i + j) ≡ ip_bytes x (0 + j))
    → load_ip m i ≡ x
unfolding load_ip ip_bytes
ip_same m i x h =
    let start : i + 0 ≡ i = omega arith in
    λ k. record {
      a = ((ap m (sym start)) ∙ h 0 (omega arith)) k;
      b = h 1 (omega arith) k;
      c = h 2 (omega arith) k;
      d = h 3 (omega arith) k;
    }

-- The comparison of four bytes decides equality of addresses.
pub ip_equals_iff : (m : Memory) (i : ℕ) (x : Ip) → (ip_equals m i x ≡ true) ↔ (load_ip m i ≡ x)
unfolding ip_equals
ip_equals_iff m i x = (
  λ e. ip_same m i x ((util_memcmp_iff m i (ip_bytes x) 0 4).0 ((is_zero_iff _).0 e)),
  λ e. (is_zero_iff _).1 ((util_memcmp_iff m i (ip_bytes x) 0 4).1 (ip_agree m i x e)),
)

-- An ARP request for the address of this interface is answered by one frame, and the state stays.
process_arp_request :
    (now : ℕ) (stale : Memory) (side : Side) (m : Memory) (n : ℕ) (g : Gateway)
    → 42 ≤ n
    → field16 m 12 ≡ 2054
    → field16 m 20 ≡ 1
    → load_ip m 38 ≡ (iface_of side g).local_ip
    → net_demo_process_frame now stale side m n g ≡ record {
      gateway = g;
      sent = send_arp_reply stale side (iface_of side g) m ∷ [];
      handled = true;
    }
unfolding net_demo_process_frame process_arp
process_arp_request now stale side m n g h type oper us =
    let long : ltb n 14 ≡ false = ground arith in
    let enough : ltb n 42 ≡ false = ground arith in
    let hit : ip_equals m 38 (iface_of side g).local_ip ≡ true = (ip_equals_iff m 38 _).1 us in
    rw (long, type, enough, oper, hit) refl

learned_peer :
    (now : ℕ) (side : Side) (m : Memory) (g : Gateway)
    → load_ip m 38 ≡ (iface_of side g).local_ip
    → load_ip m 28 ≡ (iface_of side g).peer_ip
    → learn_peer side m (learn_arp now (load_ip m 28) (load_mac m 22) g)
      ≡ with_iface side
          (record (iface_of side g) { peer_mac = load_mac m 22; peer_mac_valid = true })
          (learn_arp now (load_ip m 28) (load_mac m 22) g)
unfolding learn_peer learn_arp
learned_peer now Side.lan m g us peer =
    let hit = (ip_equals_iff m 38 g.lan_if.local_ip).1 us in
    let hit' = (ip_equals_iff m 28 g.lan_if.peer_ip).1 peer in rw (hit, hit') refl
learned_peer now Side.wan m g us peer =
    let hit = (ip_equals_iff m 38 g.wan_if.local_ip).1 us in
    let hit' = (ip_equals_iff m 28 g.wan_if.peer_ip).1 peer in rw (hit, hit') refl

-- An ARP reply from the peer to this interface teaches its MAC.
process_arp_reply :
    (now : ℕ) (stale : Memory) (side : Side) (m : Memory) (n : ℕ) (g : Gateway)
    → 42 ≤ n
    → field16 m 12 ≡ 2054
    → field16 m 20 ≡ 2
    → load_ip m 38 ≡ (iface_of side g).local_ip
    → load_ip m 28 ≡ (iface_of side g).peer_ip
    → (net_demo_process_frame now stale side m n g).gateway
      ≡ with_iface side
          (record (iface_of side g) { peer_mac = load_mac m 22; peer_mac_valid = true })
          (learn_arp now (load_ip m 28) (load_mac m 22) g)
unfolding net_demo_process_frame process_arp
process_arp_reply now stale side m n g h type oper us peer =
    let long : ltb n 14 ≡ false = ground arith in
    let enough : ltb n 42 ≡ false = ground arith in
    rw (long, type, enough, oper) (learned_peer now side m g us peer)

request_fields :
    (stale : Memory) (side : Side) (i : Interface)
    → let m = (net_demo_send_arp_request stale side i).frame in
      (42 ≤ (net_demo_send_arp_request stale side i).length)
      × (field16 m 12 ≡ 2054)
      × (field16 m 20 ≡ 1)
      × (load_ip m 28 ≡ i.local_ip)
      × (load_ip m 38 ≡ i.peer_ip)
unfolding net_demo_send_arp_request fill_arp util_memcpy util_memset store store16 load16 util_ntohs
    load_ip ip_bytes
request_fields stale side i = (omega arith, refl, refl, refl, refl)

reply_fields :
    (stale : Memory) (side : Side) (i : Interface) (request : Memory)
    → let m = (send_arp_reply stale side i request).frame in
      (42 ≤ (send_arp_reply stale side i request).length)
      × (field16 m 12 ≡ 2054)
      × (field16 m 20 ≡ 2)
      × (load_mac m 22 ≡ i.mac)
      × (load_ip m 28 ≡ i.local_ip)
      × (load_ip m 38 ≡ load_ip request 28)
unfolding send_arp_reply fill_arp util_memcpy util_memset store store16 load16 util_ntohs load_ip
    ip_bytes load_mac mac_bytes
reply_fields stale side i request = (omega arith, refl, refl, refl, refl, refl)

learned_iface :
    (side : Side) (i : Interface) (now : ℕ) (ip : Ip) (mac : Mac) (g : Gateway)
    → (iface_of side (with_iface side i (learn_arp now ip mac g)) ≡ i)
      × ((with_iface side i (learn_arp now ip mac g)).nat.arp_table
          ≡ (learn_arp now ip mac g).nat.arp_table)
learned_iface Side.lan i now ip mac g = (refl, refl)
learned_iface Side.wan i now ip mac g = (refl, refl)

learned_lookup :
    (ip ip' : Ip) (mac mac' : Mac) (now : ℕ) (g : Gateway)
    → ip' ≡ ip
    → mac' ≡ mac
    → 0 < length g.nat.arp_table
    → arp_cache_lookup ip (learn_arp now ip' mac' g).nat.arp_table ≡ some mac
unfolding learn_arp
learned_lookup ip ip' mac mac' now g e f room =
    rw (e, f) (arp_cache_lookup-add ip mac now g.nat.arp_table room)

-- The exchange: an interface asks for its peer, the host with the peer's address answers with one
-- frame, and from that frame the asking side learns the answering interface's MAC, as its peer's and
-- in its ARP cache, if that has an entry at all. What the frames' arrays held before does not matter, nor on which sides the two are.
pub arp_exchange :
    (now later : ℕ) (stale stale' stale'' : Memory) (a b : Side) (g h : Gateway)
    → (iface_of b h).local_ip ≡ (iface_of a g).peer_ip
    → 0 < length g.nat.arp_table
    → let request = net_demo_send_arp_request stale a (iface_of a g) in
      let reply = send_arp_reply stale' b (iface_of b h) request.frame in
      let learned = (net_demo_process_frame later stale'' a reply.frame reply.length g).gateway in
      ((net_demo_process_frame now stale' b request.frame request.length h).sent ≡ reply ∷ [])
      × ((iface_of a learned).peer_mac ≡ (iface_of b h).mac)
      × ((iface_of a learned).peer_mac_valid ≡ true)
      × (arp_cache_lookup (iface_of a g).peer_ip learned.nat.arp_table ≡ some (iface_of b h).mac)
arp_exchange now later stale stale' stale'' a b g h same room =
    let request = net_demo_send_arp_request stale a (iface_of a g) in
    let reply = send_arp_reply stale' b (iface_of b h) request.frame in
    let (q_long, q_type, q_oper, q_from, q_to) = request_fields stale a (iface_of a g) in
    let (r_long, r_type, r_oper, r_mac, r_from, r_to) =
      reply_fields stale' b (iface_of b h) request.frame in
    let answered =
      process_arp_request now stale' b request.frame request.length h q_long q_type q_oper
        (q_to ∙ sym same) in
    let taught =
      process_arp_reply later stale'' a reply.frame reply.length g r_long r_type r_oper
        (r_to ∙ q_from) (r_from ∙ same) in
    let (kept, table) =
      learned_iface a _ later (load_ip reply.frame 28) (load_mac reply.frame 22) g in
    (
      ap (λ p. p.sent) answered,
      ap (λ x. (iface_of a x).peer_mac) taught ∙ ap (λ i. i.peer_mac) kept ∙ r_mac,
      ap (λ x. (iface_of a x).peer_mac_valid) taught ∙ ap (λ i. i.peer_mac_valid) kept,
      ap (λ x. arp_cache_lookup (iface_of a g).peer_ip x.nat.arp_table) taught
          ∙ ap (arp_cache_lookup (iface_of a g).peer_ip) table
          ∙ learned_lookup _ _ _ _ later g (r_from ∙ same) r_mac room,
    )
