-- ===== src/Net/Forwarded.antt =====
-- What a host reads in a TCP or UDP segment that src/net_demo.c has forwarded.
use ucosii_arm64_qemu.Prelude.{
  ℕ, suc, ◌+◌, ◌-◌, ◌*◌, ◌≤◌, ◌<◌, ◌≡◌, ◌≢◌, ◌∙◌, refl, ap, false, ltb, leb, if◌then◌else◌, ◌&&◌,
  arith, bit_and, inl, inr, ◌⊎◌,
}
use ucosii_arm64_qemu.Addr.{Ip, Mac}
use ucosii_arm64_qemu.Bytes.{Memory, load16, load_ip, ip_bytes, util_htons, util_ntohs}
use ucosii_arm64_qemu.Net.Frame.{field16, ip_header_len, total_length}
use ucosii_arm64_qemu.Net.Forward.{readdress, rewrite_transport, protocol, transport_at}
use ucosii_arm64_qemu.Net.Segment.{
  readdress_at, readdress_ip, store16_apart, rewrite_transport_ports, rewrite_transport_before,
  field16_store,
}

-- A frame whose bytes 12 to 33 are those of a readdressed one.
abbrev pub Readdressed : Mac → Mac → ℕ → Ip → Memory → Memory → Type 0
Readdressed src dest field ip m out =
    (j : ℕ) → 12 ≤ j → j < 34 → out j ≡ readdress src dest field ip m j

Readdressed-keeps :
    (src dest : Mac) (field : ℕ) (ip : Ip) (m out : Memory) (j : ℕ)
    → Readdressed src dest field ip m out
    → 12 ≤ j
    → j < 34
    → j ≢ 22
    → j ≢ 24
    → j ≢ 25
    → (leb field j && ltb j (field + 4)) ≡ false
    → out j ≡ m j
Readdressed-keeps src dest field ip m out j same low high ttl c d outside =
    same j low high ∙ readdress_at src dest field ip m j low ttl c d ∙ rw outside refl

-- What is read in it: the protocol, the lengths and the place behind the header are those of the packet;
-- the new address stands at its place.
pub Readdressed-header :
    (src dest : Mac) (field : ℕ) (ip : Ip) (m out : Memory)
    → Readdressed src dest field ip m out
    → 26 ≤ field
    → field ≤ 30
    → (protocol out ≡ protocol m)
      × (transport_at out ≡ transport_at m)
      × (total_length out ≡ total_length m)
      × (load_ip out field ≡ ip)
unfolding load16 load_ip
Readdressed-header src dest field ip m out same from to =
    let keep = λ (j : ℕ) (low : 12 ≤ j) (high : j < 26) (ttl : j ≢ 22) (c : j ≢ 24) (d : j ≢ 25).
      Readdressed-keeps src dest field ip m out j same low (omega arith) ttl c d (ground arith) in
    let e14 =
      keep 14 (omega arith) (omega arith) (λ e. omega arith) (λ e. omega arith)
        (λ e. omega arith) in
    let e16 =
      keep 16 (omega arith) (omega arith) (λ e. omega arith) (λ e. omega arith)
        (λ e. omega arith) in
    let e17 =
      keep 17 (omega arith) (omega arith) (λ e. omega arith) (λ e. omega arith)
        (λ e. omega arith) in
    let e23 =
      keep 23 (omega arith) (omega arith) (λ e. omega arith) (λ e. omega arith)
        (λ e. omega arith) in
    (
      e23,
      ap (λ b. 14 + bit_and b 15 * 4) e14,
      ap (λ w. util_ntohs w) (rw (e16, e17) refl),
      rw
          (
            same field (omega arith) (omega arith),
            same (field + 1) (omega arith) (omega arith),
            same (field + 2) (omega arith) (omega arith),
            same (field + 3) (omega arith) (omega arith),
          )
          (readdress_ip src dest field ip m from),
    )

-- The other address is kept.
pub Readdressed-other_ip :
    (src dest : Mac) (field other : ℕ) (ip : Ip) (m out : Memory)
    → Readdressed src dest field ip m out
    → 26 ≤ other
    → other ≤ 30
    → (field + 4 ≤ other) ⊎ (other + 4 ≤ field)
    → load_ip out other ≡ load_ip m other
unfolding load_ip
Readdressed-other_ip src dest field other ip m out same from to apart =
    let keep = λ (j : ℕ) (low : other ≤ j) (high : j < other + 4).
      Readdressed-keeps src dest field ip m out j same (omega arith) (omega arith)
        (λ e. omega arith) (λ e. omega arith) (λ e. omega arith) (ground arith) in
    rw
      (
        keep other (omega arith) (omega arith),
        keep (other + 1) (omega arith) (omega arith),
        keep (other + 2) (omega arith) (omega arith),
        keep (other + 3) (omega arith) (omega arith),
      )
      refl

-- The frame that goes out: `field` is where the address is written, and `port_at` where the port is.
abbrev pub forwarded : Mac → Mac → ℕ → Ip → ℕ → ℕ → Memory → Memory
forwarded src dest field ip port_at port m =
    rewrite_transport (transport_at m) port_at port (total_length m - ip_header_len m)
      (readdress src dest field ip m)

pub forwarded-Readdressed :
    (src dest : Mac) (field : ℕ) (ip : Ip) (port_at port : ℕ) (m : Memory)
    → 34 ≤ transport_at m
    → 34 ≤ port_at
    → Readdressed src dest field ip m (forwarded src dest field ip port_at port m)
forwarded-Readdressed src dest field ip port_at port m h k j low high =
    rewrite_transport_before (transport_at m) port_at port _ (readdress src dest field ip m) j
      (omega arith) (omega arith)

-- The port is replaced at its place, and the other port is kept.
pub forwarded_port :
    (src dest : Mac) (field : ℕ) (ip : Ip) (port_at port : ℕ) (m : Memory)
    → port_at ≤ transport_at m + 2
    → port < 65536
    → field16 (forwarded src dest field ip port_at port m) port_at ≡ port
unfolding load16
forwarded_port src dest field ip port_at port m inside small =
    let out = readdress src dest field ip m in
    rw
      (
        rewrite_transport_ports (transport_at m) port_at port (total_length m - ip_header_len m) out
            port_at (omega arith),
        rewrite_transport_ports (transport_at m) port_at port (total_length m - ip_header_len m) out
            (suc port_at) (omega arith),
      )
      (field16_store out port_at port small)

pub forwarded_other_port :
    (src dest : Mac) (field : ℕ) (ip : Ip) (port_at port other : ℕ) (m : Memory)
    → 34 ≤ transport_at m
    → 34 ≤ other
    → field ≤ 30
    → other ≤ transport_at m + 2
    → (other + 2 ≤ port_at) ⊎ (port_at + 2 ≤ other)
    → field16 (forwarded src dest field ip port_at port m) other ≡ field16 m other
unfolding load16
forwarded_other_port src dest field ip port_at port other m h past to inside apart =
    let keep = λ (j : ℕ) (low : other ≤ j) (high : j < other + 2).
      rewrite_transport_ports (transport_at m) port_at port (total_length m - ip_header_len m)
        (readdress src dest field ip m) j (omega arith)
      ∙ store16_apart (readdress src dest field ip m) port_at (util_htons port) j
          (elim apart [ inl a ↦ inl (omega arith) | inr a ↦ inr (omega arith) ])
      ∙ readdress_at src dest field ip m j (omega arith) (λ e. omega arith) (λ e. omega arith)
          (λ e. omega arith)
      ∙ untouched j (omega arith) in
    rw (keep other (omega arith) (omega arith), keep (suc other) (omega arith) (omega arith)) refl
  where
    untouched :
        (j : ℕ)
        → 34 ≤ j
        → (if leb field j && ltb j (field + 4) then ip_bytes ip (j - field) else m j) ≡ m j
    untouched j above =
        let outside : (leb field j && ltb j (field + 4)) ≡ false = ground arith in rw outside refl
