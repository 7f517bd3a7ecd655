-- ===== src/Net/Echo.antt =====
-- The ICMP echo reply of src/net_demo.c.
use ucosii_arm64_qemu.Prelude.{ℕ, ◌+◌, ◌-◌, ◌≤◌, ◌<◌, ◌≡◌, refl, ◌∙◌, ◌==◌, false, arith}
use ucosii_arm64_qemu.Bytes.{Memory, store, load_ip, load_mac, mac_bytes, util_memcpy}
use ucosii_arm64_qemu.Net.Checksum.{checksum16}
use ucosii_arm64_qemu.Net.Verify.{AreBytes, IsAllOnes, word_sum, checksum16-IsAllOnes}
use ucosii_arm64_qemu.Net.Frame.{Interface, ip_header_len, total_length, put_checksum, echo_frame}
use ucosii_arm64_qemu.Net.Header.{
  store-AreBytes, util_memcpy-AreBytes, put_checksum-AreBytes, put_checksum_other,
  put_checksum_checks, header_bound, checksum16_agree,
}

-- The echo reply up to its IPv4 header, and the whole of it before the ICMP checksum.
abbrev swapped : Memory → Interface → Memory
swapped frame iface =
    let m1 = util_memcpy frame 0 frame 6 6 in
    let m2 = util_memcpy m1 6 (mac_bytes iface.mac) 0 6 in
    let m3 = util_memcpy m2 26 frame 30 4 in store (util_memcpy m3 30 frame 26 4) 22 64

abbrev headed : Memory → Interface → Memory
headed frame iface = put_checksum (swapped frame iface) 14 24 (ip_header_len frame)

swapped-AreBytes :
    (frame : Memory) (iface : Interface)
    → AreBytes frame
    → AreBytes (mac_bytes iface.mac)
    → AreBytes (swapped frame iface)
swapped-AreBytes frame iface b c = store-AreBytes _ 22 64 (omega arith) (
    util_memcpy-AreBytes _ 30 frame 26 4
      (util_memcpy-AreBytes _ 26 frame 30 4
        (util_memcpy-AreBytes _ 6 _ 0 6 (util_memcpy-AreBytes frame 0 frame 6 6 b b) c) b)
      b)

store_other : (m : Memory) (i v j : ℕ) → (i == j) ≡ false → store m i v j ≡ m j
unfolding store
store_other m i v j h = rw h refl

-- The ICMP part does not touch what stands before it.
echo_frame_before :
    (frame : Memory) (iface : Interface) (j : ℕ)
    → j < 14 + ip_header_len frame
    → echo_frame frame iface j ≡ headed frame iface j
unfolding echo_frame
echo_frame_before frame iface j h =
    put_checksum_other _ _ _ _ j (ground arith) (ground arith)
    ∙ store_other _ _ 0 j (ground arith)
    ∙ store_other _ _ 0 j (ground arith)

echo_frame_head :
    (frame : Memory) (iface : Interface) (j : ℕ)
    → 20 ≤ ip_header_len frame
    → j < 34
    → (24 == j) ≡ false
    → (25 == j) ≡ false
    → echo_frame frame iface j ≡ swapped frame iface j
echo_frame_head frame iface j h small a b =
    echo_frame_before frame iface j (omega arith) ∙ put_checksum_other _ 14 24 _ j a b

echo_frame_addresses :
    (frame : Memory) (iface : Interface)
    → 20 ≤ ip_header_len frame
    → let r = echo_frame frame iface in
      (load_ip r 26 ≡ load_ip frame 30)
      × (load_ip r 30 ≡ load_ip frame 26)
      × (load_mac r 0 ≡ load_mac frame 6)
      × (load_mac r 6 ≡ iface.mac)
unfolding load_ip load_mac util_memcpy store mac_bytes
echo_frame_addresses frame iface h = (
  λ k. record {
    a = at 26 (omega arith) refl refl k;
    b = at 27 (omega arith) refl refl k;
    c = at 28 (omega arith) refl refl k;
    d = at 29 (omega arith) refl refl k;
  },
  λ k. record {
    a = at 30 (omega arith) refl refl k;
    b = at 31 (omega arith) refl refl k;
    c = at 32 (omega arith) refl refl k;
    d = at 33 (omega arith) refl refl k;
  },
  λ k. record {
    m0 = at 0 (omega arith) refl refl k;
    m1 = at 1 (omega arith) refl refl k;
    m2 = at 2 (omega arith) refl refl k;
    m3 = at 3 (omega arith) refl refl k;
    m4 = at 4 (omega arith) refl refl k;
    m5 = at 5 (omega arith) refl refl k;
  },
  λ k. record {
    m0 = at 6 (omega arith) refl refl k;
    m1 = at 7 (omega arith) refl refl k;
    m2 = at 8 (omega arith) refl refl k;
    m3 = at 9 (omega arith) refl refl k;
    m4 = at 10 (omega arith) refl refl k;
    m5 = at 11 (omega arith) refl refl k;
  },
)
  where
    at :
        (j : ℕ)
        → j < 34
        → (24 == j) ≡ false
        → (25 == j) ≡ false
        → echo_frame frame iface j ≡ swapped frame iface j
    at j = echo_frame_head frame iface j h

echo_frame_type :
    (frame : Memory) (iface : Interface) → echo_frame frame iface (14 + ip_header_len frame) ≡ 0
unfolding echo_frame store
echo_frame_type frame iface =
    put_checksum_other _ _ _ _ (14 + ip_header_len frame) (ground arith) (ground arith)
    ∙ ground arith

echo_frame_icmp :
    (frame : Memory) (iface : Interface)
    → AreBytes frame
    → AreBytes (mac_bytes iface.mac)
    → ip_header_len frame + 8 ≤ total_length frame
    → total_length frame ≤ 65535
    → checksum16
        (echo_frame frame iface)
        (14 + ip_header_len frame)
        (total_length frame - ip_header_len frame)
      ≡ 0
unfolding echo_frame
echo_frame_icmp frame iface b c k l =
    put_checksum_checks _ (14 + ip_header_len frame) 1 (total_length frame - ip_header_len frame)
      (store-AreBytes _ _ 0 (omega arith) (
        store-AreBytes _ _ 0 (omega arith)
          (put_checksum-AreBytes (swapped frame iface) 14 24 _ (swapped-AreBytes frame iface b c))))
      (omega arith) (omega arith)

echo_frame-AreBytes :
    (frame : Memory) (iface : Interface)
    → AreBytes frame
    → AreBytes (mac_bytes iface.mac)
    → AreBytes (echo_frame frame iface)
unfolding echo_frame
echo_frame-AreBytes frame iface b c = put_checksum-AreBytes _ _ _ _ (
    store-AreBytes _ _ 0 (omega arith) (
      store-AreBytes _ _ 0 (omega arith)
        (put_checksum-AreBytes (swapped frame iface) 14 24 _ (swapped-AreBytes frame iface b c))))

-- An echo reply: the big-endian words of the IPv4 header, and those of the ICMP message, have the one's
-- complement sum of all ones that RFC 1071 asks for; the addresses of the request are swapped, its sender's MAC is the destination and the interface's the source, and the type is 0.
-- It is asked that the header has at least five words and the message at least eight bytes, and that
-- the memory and the MAC hold bytes.
pub echo_frame_lem :
    (frame : Memory) (iface : Interface)
    → AreBytes frame
    → AreBytes (mac_bytes iface.mac)
    → 20 ≤ ip_header_len frame
    → ip_header_len frame + 8 ≤ total_length frame
    → total_length frame ≤ 65535
    → let r = echo_frame frame iface in
      IsAllOnes (word_sum r 14 (ip_header_len frame))
      × IsAllOnes (word_sum r (14 + ip_header_len frame) (total_length frame - ip_header_len frame))
      × (load_ip r 26 ≡ load_ip frame 30)
      × (load_ip r 30 ≡ load_ip frame 26)
      × (load_mac r 0 ≡ load_mac frame 6)
      × (load_mac r 6 ≡ iface.mac)
      × (r (14 + ip_header_len frame) ≡ 0)
echo_frame_lem frame iface b c h k l =
    let (to, from, dest, src) = echo_frame_addresses frame iface h in
    let bytes = echo_frame-AreBytes frame iface b c in
    let before =
      checksum16_agree (echo_frame frame iface) (headed frame iface) 14 (ip_header_len frame)
        (λ j _ in_header. echo_frame_before frame iface j in_header) in
    (
      checksum16-IsAllOnes (echo_frame frame iface) 14 (ip_header_len frame) bytes
          (omega (arith, header_bound frame))
          (before
            ∙ put_checksum_checks (swapped frame iface) 14 5 _ (swapped-AreBytes frame iface b c)
                (omega (arith, header_bound frame)) (omega arith)),
      checksum16-IsAllOnes (echo_frame frame iface) (14 + ip_header_len frame)
          (total_length frame - ip_header_len frame) bytes (omega arith)
          (echo_frame_icmp frame iface b c k l),
      to,
      from,
      dest,
      src,
      echo_frame_type frame iface,
    )
