-- ===== src/Net/Guarded.antt =====
-- Each block for traffic from the WAN in src/net_demo.c sends to the LAN only for a session.
use ucosii_arm64_qemu.Prelude.{
  ℕ, ◌+◌, ◌-◌, ◌<◌, ◌≡◌, ◌≢◌, refl, sym, ap, ◌∙◌, ◌==◌, Bool, true, false, if◌then◌else◌, leb, ◌&&◌,
  Bool-cases, inl, inr, Option, none, some, Option-cases, List, ◌∷◌,
}
use ucosii_arm64_qemu.Addr.{Ip}
use ucosii_arm64_qemu.Arp.{arp_cache_lookup}
use ucosii_arm64_qemu.Nat.Types.{NatState, Reply, entry_at, nat_is_wan_ip}
use ucosii_arm64_qemu.Nat.Translate.{nat_translate_inbound, accept_reply, drop_reply, inbound_cases}
use ucosii_arm64_qemu.Nat.WellFormed.{WellFormed}
use ucosii_arm64_qemu.Nat.RoundTrip.{translate_inbound-Admits}
use ucosii_arm64_qemu.Bytes.{Memory}
use ucosii_arm64_qemu.Net.Frame.{
  Interface, Side, Packet, ip_header_len, total_length, send_icmp_echo_reply,
}
use ucosii_arm64_qemu.Net.Forward.{
  Gateway, Step, protocol, dst_ip, src_ip, transport_at, is_tcp_udp, min_transport_len,
  rewrite_icmp, rewrite_transport, deliver, inbound_icmp, inbound_transport, sent_reply, wan_icmp,
  wan_transport,
}
use ucosii_arm64_qemu.Net.Process.{process_wan}

-- A session whose remote address is the source of the frame.
abbrev pub Session : Gateway → Memory → Type 0
Session g m =
    (i : ℕ) × (i < 64) × ((entry_at g.nat i).active ≡ true) × ((entry_at g.nat i).dst_ip ≡ src_ip m)

-- What a block does that starts at `g`: a packet that it sends to the LAN has a session, and if it
-- falls through, the addresses are as they were.
unfoldable pub Guarded : Gateway → Memory → Step → Type 0
Guarded g m (Step.returns g' sent handled) =
    (p : Packet) (rest : List Packet) → sent ≡ p ∷ rest → p.side ≡ Side.lan → Session g m
Guarded g m (Step.falls g') = (g'.nat.nat_cfg ≡ g.nat.nat_cfg) × (g'.wan_if ≡ g.wan_if)

deliver-Guarded :
    (rewrite : Memory → ℕ → Memory) (n : ℕ) (m : Memory) (g g' : Gateway) (answer : Option (Ip × ℕ))
    → g'.nat.nat_cfg ≡ g.nat.nat_cfg
    → g'.wan_if ≡ g.wan_if
    → ((ip : Ip) (port : ℕ) → answer ≡ some (ip, port) → Session g m)
    → Guarded g m (deliver rewrite n m g' answer)
unfolding Guarded deliver
deliver-Guarded rewrite n m g g' none c w s = (c, w)
deliver-Guarded rewrite n m g g' (some (ip, port)) c w s =
    elim (Bool-cases (leb n 1518 && g'.lan_if.has_dev)) [
      | inr tight ↦ rw tight (c, w)
      | inl room ↦ elim (Option-cases (arp_cache_lookup ip g'.nat.arp_table)) [
        | inl unknown ↦ rw (room, unknown) (λ p rest e _. absurd (cc))
        | inr (mac, known) ↦ rw (room, known) (λ p rest e _. s ip port refl)
      ]
    ]

inbound_cfg :
    (r : Reply) (now : ℕ) (s : NatState) → (nat_translate_inbound r now s).0.nat_cfg ≡ s.nat_cfg
unfolding accept_reply drop_reply
inbound_cfg r now s = inbound_cases (λ x. x.0.nat_cfg ≡ s.nat_cfg) r now s (λ i e. refl) (λ e. refl)

inbound-Session :
    (g : Gateway) (m : Memory) (r : Reply) (now : ℕ)
    → WellFormed g.nat
    → r.src_ip ≡ src_ip m
    → (ip : Ip) (port : ℕ) → (nat_translate_inbound r now g.nat).1 ≡ some (ip, port)
    → Session g m
inbound-Session g m r now v same ip port e =
    let (i, h, a) = translate_inbound-Admits g.nat r now port ip v e in
    (i, h, a.is_active, a.from_dst_ip ∙ same)

inbound_icmp-Guarded :
    (now : ℕ) (m : Memory) (n : ℕ) (g : Gateway)
    → WellFormed g.nat
    → Guarded g m (inbound_icmp now m n g)
unfolding inbound_icmp
inbound_icmp-Guarded now m n g v =
    deliver-Guarded
      (λ out port. rewrite_icmp (transport_at m) port (total_length m - ip_header_len m) out) n m g
      _ _ (inbound_cfg _ now g.nat) refl (inbound-Session g m _ now v refl)

inbound_transport-Guarded :
    (now : ℕ) (m : Memory) (n : ℕ) (g : Gateway)
    → WellFormed g.nat
    → Guarded g m (inbound_transport now m n g)
unfolding inbound_transport
inbound_transport-Guarded now m n g v =
    deliver-Guarded
      (λ out port.
        rewrite_transport (transport_at m) (transport_at m + 2) port
          (total_length m - ip_header_len m) out)
      n m g _ _ (inbound_cfg _ now g.nat) refl (inbound-Session g m _ now v refl)

pub lan_wan : Side.lan ≢ Side.wan
lan_wan e = cc

pub first_side :
    (o : Option Packet) (p : Packet) (rest : List Packet)
    → ((q : Packet) → o ≡ some q → q.side ≡ Side.wan)
    → sent_reply o ≡ p ∷ rest
    → p.side ≡ Side.wan
first_side none p rest h e = absurd (cc)
first_side (some q) p rest h e = let same : p ≡ q = cc in rw same (h q refl)

chosen : (b : Bool) (x q : Packet) → (if b then none else some x) ≡ some q → q ≡ x
chosen true x q e = absurd (cc)
chosen false x q e = cc

reply_side :
    (stale : Memory) (i : Interface) (m : Memory) (n : ℕ) (q : Packet)
    → send_icmp_echo_reply stale Side.wan i m n ≡ some q
    → q.side ≡ Side.wan
unfolding send_icmp_echo_reply
reply_side stale i m n q e = ap (λ p. p.side) (chosen _ _ q e)

pub echo_side :
    (stale : Memory) (i : Interface) (m : Memory) (n : ℕ) (p : Packet) (rest : List Packet)
    → sent_reply (send_icmp_echo_reply stale Side.wan i m n) ≡ p ∷ rest
    → p.side ≡ Side.wan
echo_side stale i m n p rest e = first_side _ p rest (reply_side stale i m n) e

wan_icmp-Guarded :
    (now : ℕ) (stale m : Memory) (n : ℕ) (g : Gateway)
    → WellFormed g.nat
    → Guarded g m (wan_icmp now stale m n g)
unfolding wan_icmp Guarded
wan_icmp-Guarded now stale m n g v =
    elim (Bool-cases (leb (ip_header_len m + 8) (total_length m))) [
      | inr short ↦ rw short (refl, refl)
      | inl long ↦ elim (Bool-cases (m (transport_at m) == 0)) [
        | inl reply ↦ rw (long, reply) (inbound_icmp-Guarded now m n g v)
        | inr other ↦ elim (Bool-cases (m (transport_at m) == 8)) [
          | inr ignored ↦ rw (long, other, ignored) (refl, refl)
          | inl request ↦
              rw (long, other, request)
                (λ p rest e l. absurd (lan_wan (sym l ∙ echo_side stale g.wan_if m _ p rest e)))
        ]
      ]
    ]

wan_transport-Guarded :
    (now : ℕ) (m : Memory) (n : ℕ) (g : Gateway)
    → WellFormed g.nat
    → Guarded g m (wan_transport now m n g)
unfolding wan_transport Guarded
wan_transport-Guarded now m n g v =
    elim (Bool-cases (leb (ip_header_len m + min_transport_len m) (total_length m))) [
      | inr short ↦ rw short (refl, refl)
      | inl long ↦ rw long (inbound_transport-Guarded now m n g v)
    ]

pub process_wan-Guarded :
    (now : ℕ) (stale m : Memory) (n : ℕ) (g : Gateway)
    → WellFormed g.nat
    → Guarded g m (process_wan now stale Side.wan m n g)
unfolding process_wan Guarded
process_wan-Guarded now stale m n g v = elim (Bool-cases (nat_is_wan_ip g.nat (dst_ip m))) [
  | inr other ↦ rw other (refl, refl)
  | inl ours ↦ elim (Bool-cases (protocol m == 1)) [
    | inl icmp ↦ rw (ours, icmp) (wan_icmp-Guarded now stale m n g v)
    | inr not_icmp ↦ elim (Bool-cases (is_tcp_udp m)) [
      | inl transport ↦ rw (ours, not_icmp, transport) (wan_transport-Guarded now m n g v)
      | inr unknown ↦ rw (ours, not_icmp, unknown) (refl, refl)
    ]
  ]
]
