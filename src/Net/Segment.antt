-- ===== src/Net/Segment.antt =====
-- Which bytes readdress and rewrite_transport of src/net_demo.c's forwarding write.
use ucosii_arm64_qemu.Prelude.{
  ℕ, suc, ◌+◌, ◌-◌, ◌*◌, ◌/◌, ◌%◌, ◌≤◌, ◌<◌, ◌≡◌, ◌≢◌, ◌∙◌, refl, false, ltb, leb, ◌==◌,
  if◌then◌else◌, ◌&&◌, arith, inl, inr, ◌⊎◌,
}
use ucosii_arm64_qemu.Addr.{Ip, Mac}
use ucosii_arm64_qemu.Bytes.{
  Memory, load16, load_ip, store, store16, ip_bytes, mac_bytes, util_memcpy, util_htons,
}
use ucosii_arm64_qemu.Bytes.Laws.{util_memcpy_lem, util_ntohs-htons}
use ucosii_arm64_qemu.Net.Frame.{field16}
use ucosii_arm64_qemu.Net.Header.{put_checksum_other, htons_bound}
use ucosii_arm64_qemu.Net.Forward.{readdress, rewrite_transport}
use ucosii_arm64_qemu.Net.Halves.{store16_le}

-- Readdressing writes the MACs, four bytes at `field`, the time to live and the checksum.
pub readdress_at :
    (src dest : Mac) (field : ℕ) (ip : Ip) (m : Memory) (j : ℕ)
    → 12 ≤ j
    → j ≢ 22
    → j ≢ 24
    → j ≢ 25
    → readdress src dest field ip m j
      ≡ (if leb field j && ltb j (field + 4) then ip_bytes ip (j - field) else m j)
unfolding readdress store
readdress_at src dest field ip m j past ttl low high =
    let m1 = util_memcpy m 6 (mac_bytes src) 0 6 in
    let m2 = util_memcpy m1 0 (mac_bytes dest) 0 6 in
    let other : (22 == j) ≡ false = ground arith in
    let low' : (24 == j) ≡ false = ground arith in
    let high' : (25 == j) ≡ false = ground arith in
    let macs : m2 j ≡ m j = ground (
      arith,
      util_memcpy_lem m1 0 (mac_bytes dest) 0 6 j,
      util_memcpy_lem m 6 (mac_bytes src) 0 6 j,
    ) in
    let from_zero : 0 + (j - field) ≡ j - field = omega arith in
    let copied : util_memcpy m2 field (ip_bytes ip) 0 4 j
        ≡ (if leb field j && ltb j (field + 4) then ip_bytes ip (j - field) else m j) =
      util_memcpy_lem m2 field (ip_bytes ip) 0 4 j ∙ rw (macs, from_zero) refl in
    put_checksum_other _ 14 24 _ j low' high' ∙ rw other copied

pub readdress_ip :
    (src dest : Mac) (field : ℕ) (ip : Ip) (m : Memory)
    → 26 ≤ field
    → load_ip (readdress src dest field ip m) field ≡ ip
unfolding load_ip ip_bytes
readdress_ip src dest field ip m past =
    let at = λ (j : ℕ) (h : 26 ≤ j).
      readdress_at src dest field ip m j (omega arith) (λ e. omega arith) (λ e. omega arith)
        (λ e. omega arith) in
    let e0 : readdress src dest field ip m field ≡ ip.a = ground (arith, at field past) in
    let e1 : readdress src dest field ip m (field + 1) ≡ ip.b =
      ground (arith, at (field + 1) (omega arith)) in
    let e2 : readdress src dest field ip m (field + 2) ≡ ip.c =
      ground (arith, at (field + 2) (omega arith)) in
    let e3 : readdress src dest field ip m (field + 3) ≡ ip.d =
      ground (arith, at (field + 3) (omega arith)) in
    rw (e0, e1, e2, e3) refl

pub store16_other : (m : Memory) (a v j : ℕ) → j < a → store16 m a v j ≡ m j
unfolding store16 store
store16_other m a v j h = ground arith

pub store16_apart : (m : Memory) (a v j : ℕ) → (j < a) ⊎ (a + 2 ≤ j) → store16 m a v j ≡ m j
unfolding store16 store
store16_apart m a v j (inl h) = ground arith
store16_apart m a v j (inr h) = ground arith

-- The ports are written behind the header, and the checksum behind the ports.
pub rewrite_transport_ports :
    (hdr port_at port len : ℕ) (m : Memory) (j : ℕ)
    → j < hdr + 4
    → rewrite_transport hdr port_at port len m j ≡ store16 m port_at (util_htons port) j
unfolding rewrite_transport
rewrite_transport_ports hdr port_at port len m j h =
    let field = if m 23 == 6 then hdr + 16 else hdr + 6 in
    let past : j < field = ground arith in
    let ported = store16 m port_at (util_htons port) in
    store16_other (store16 ported field 0) field _ j past ∙ store16_other ported field 0 j past

pub rewrite_transport_before :
    (hdr port_at port len : ℕ) (m : Memory) (j : ℕ)
    → j < hdr
    → j < port_at
    → rewrite_transport hdr port_at port len m j ≡ m j
rewrite_transport_before hdr port_at port len m j h k =
    rewrite_transport_ports hdr port_at port len m j (omega arith) ∙ store16_other m port_at _ j k

pub field16_store :
    (m : Memory) (a port : ℕ) → port < 65536 → field16 (store16 m a (util_htons port)) a ≡ port
unfolding load16
field16_store m a port h =
    let low : store16 m a (util_htons port) a ≡ util_htons port % 256 =
      ground (arith, store16_le m a (util_htons port) a (htons_bound port)) in
    let high : store16 m a (util_htons port) (suc a) ≡ util_htons port / 256 =
      ground (arith, store16_le m a (util_htons port) (suc a) (htons_bound port)) in
    let word : util_htons port % 256 + util_htons port / 256 * 256 ≡ util_htons port =
      omega arith in
    rw (low, high, word) (util_ntohs-htons port h)
