-- ===== src/Net/Inbound.antt =====
-- What src/net_demo.c lets through from the WAN to the LAN.
use ucosii_arm64_qemu.Prelude.{
  ℕ, ◌+◌, ◌-◌, ◌/◌, ◌≡◌, refl, sym, ap, ◌∙◌, ◌==◌, true, false, not, ltb, leb, ◌&&◌, ◌||◌, u16,
  bit_and, arith, Bool-cases, inl, inr, some, List, [], ◌∷◌,
}
use ucosii_arm64_qemu.Addr.{Ip, Mac, ip_equal, ip_equal_iff}
use ucosii_arm64_qemu.Nat.Types.{nat_is_wan_ip, nat_is_lan_ip}
use ucosii_arm64_qemu.Nat.WellFormed.{WellFormed}
use ucosii_arm64_qemu.Bytes.{Memory, load_mac}
use ucosii_arm64_qemu.Net.Frame.{
  Interface, Side, Packet, field16, ip_header_len, total_length, ip_equals, send_arp_reply,
}
use ucosii_arm64_qemu.Net.Forward.{Gateway, Step, protocol, dst_ip, src_ip, transport_at}
use ucosii_arm64_qemu.Net.Process.{
  Processed, nothing, orelse, learn_arp, is_for_us, process_wan, process_return, process_local,
  process_outbound, process_routed, process_ip, process_arp, net_demo_process_frame,
}
use ucosii_arm64_qemu.Net.Exchange.{ip_equals_iff}
use ucosii_arm64_qemu.Net.Guarded.{
  Session, Guarded, lan_wan, first_side, echo_side, process_wan-Guarded,
}

-- The WAN interface has the address that the translation is configured with.
abbrev pub SameWan : Gateway → Type 0
SameWan g = g.wan_if.local_ip ≡ g.nat.nat_cfg.wan_ip

not_wan :
    (m : Memory) (g : Gateway)
    → SameWan g
    → is_for_us Side.wan m g ≡ false
    → nat_is_wan_ip g.nat (dst_ip m) ≡ false
unfolding is_for_us nat_is_wan_ip
not_wan m g same h = elim (Bool-cases (ip_equal (dst_ip m) g.nat.nat_cfg.wan_ip)) [
  | inr other ↦ other
  | inl hit ↦
      let us : ip_equals m 30 g.wan_if.local_ip ≡ true =
        (ip_equals_iff m 30 _).1 ((ip_equal_iff _ _).0 hit ∙ sym same) in
      absurd (ground arith)
]

-- The second block for traffic from the WAN never does anything: a packet that reaches it is not for
-- the WAN address, provided that the interface has the address that the translation is configured with.
process_return_dead :
    (now : ℕ) (side : Side) (m : Memory) (n : ℕ) (g : Gateway)
    → SameWan g
    → is_for_us side m g ≡ false
    → process_return now side m n g ≡ Step.falls g
unfolding process_return
process_return_dead now Side.lan m n g same h = ground arith
process_return_dead now Side.wan m n g same h = rw (not_wan m g same h) refl

-- A packet of the result that goes to the LAN has a session.
Safe : Gateway → Memory → Processed → Type 0
Safe g m r = (p : Packet) (rest : List Packet) → r.sent ≡ p ∷ rest → p.side ≡ Side.lan → Session g m

nothing-Safe : (g g' : Gateway) (m : Memory) → Safe g m (nothing g')
unfolding Safe
nothing-Safe g g' m p rest e l = absurd (cc)

process_local-Safe :
    (g g' : Gateway) (stale m : Memory) → Safe g m (process_local stale Side.wan m g')
unfolding process_local Safe
process_local-Safe g g' stale m =
    elim (Bool-cases (ltb (total_length m) (u16 (ip_header_len m + 8)))) [
      | inl short ↦ rw short (nothing-Safe g g' m)
      | inr long ↦
          elim (Bool-cases (
            protocol m == 1
            && (leb 8 (total_length m - ip_header_len m) && m (transport_at m) == 8))) [
              | inr other ↦ rw (long, other) (nothing-Safe g g' m)
              | inl request ↦
                  rw (long, request)
                    (λ p rest e l.
                      absurd (lan_wan (sym l ∙ echo_side stale g'.wan_if m _ p rest e)))
            ]
    ]

process_routed-Safe :
    (now : ℕ) (g g' : Gateway) (stale m : Memory) (n : ℕ)
    → SameWan g'
    → Safe g m (process_routed now stale Side.wan m n g')
unfolding process_routed process_outbound
process_routed-Safe now g g' stale m n same = elim (Bool-cases (is_for_us Side.wan m g')) [
  | inl ours ↦ rw ours (process_local-Safe g g' stale m)
  | inr routed ↦
      let not_lan : (nat_is_lan_ip g'.nat (src_ip m) && false) ≡ false = ground arith in
      rw (routed, not_lan, process_return_dead now Side.wan m n g' same routed)
        (nothing-Safe g g' m)
]

pub learn_arp-WellFormed :
    (now : ℕ) (ip : Ip) (mac : Mac) (g : Gateway)
    → WellFormed g.nat
    → WellFormed (learn_arp now ip mac g).nat
unfolding learn_arp
learn_arp-WellFormed now ip mac g v = record {
  table_length = v.table_length;
  hash_length = v.hash_length;
  outbound_length = v.outbound_length;
  buckets = v.buckets;
  outbound_buckets = v.outbound_buckets;
  port_from = v.port_from;
  port_to = v.port_to;
  port_end = v.port_end;
}

orelse-Safe :
    (g : Gateway) (m : Memory) (st : Step) (next : Gateway → Processed)
    → SameWan g
    → Guarded g m st
    → ((g' : Gateway) → SameWan g' → Safe g m (next g'))
    → Safe g m (orelse st next)
unfolding Safe Guarded
orelse-Safe g m (Step.returns g' sent handled) next same h k = h
orelse-Safe g m (Step.falls g') next same (c, w) k =
    k g' (ap (λ i. i.local_ip) w ∙ same ∙ sym (ap (λ x. x.wan_ip) c))

process_ip-Safe :
    (now : ℕ) (g : Gateway) (stale m : Memory) (n : ℕ)
    → WellFormed g.nat
    → SameWan g
    → Safe g m (process_ip now stale Side.wan m n g)
unfolding process_ip
process_ip-Safe now g stale m n v same = elim (Bool-cases (ltb n 34)) [
  | inl short ↦ rw short (nothing-Safe g g m)
  | inr long ↦ elim (Bool-cases (not (m 14 / 16 == 4) || ltb (bit_and (m 14) 15) 5)) [
    | inl bad ↦ rw (long, bad) (nothing-Safe g g m)
    | inr good ↦ rw (long, good) safe
  ]
]
  where
    learned : Gateway
    learned = learn_arp now (src_ip m) (load_mac m 6) g

    kept : SameWan learned
    kept = unfold learn_arp in same

    safe : Safe g m (
        orelse
          (process_wan now stale Side.wan m n learned)
          (λ g'. process_routed now stale Side.wan m n g'))
    safe =
        unfold Safe in
        unfold learn_arp in
        orelse-Safe learned m (process_wan now stale Side.wan m n learned) _ kept
          (process_wan-Guarded now stale m n learned (learn_arp-WellFormed now _ _ g v))
          (λ g' k. process_routed-Safe now learned g' stale m n k)

arp_side :
    (stale : Memory) (i : Interface) (m : Memory) (p : Packet) (rest : List Packet)
    → send_arp_reply stale Side.wan i m ∷ [] ≡ p ∷ rest
    → p.side ≡ Side.wan
unfolding send_arp_reply
arp_side stale i m p rest e =
    first_side (some (send_arp_reply stale Side.wan i m)) p rest
      (λ q same. let at : q ≡ send_arp_reply stale Side.wan i m = cc in ap (λ x. x.side) at) e

process_arp-Safe :
    (now : ℕ) (g : Gateway) (stale m : Memory) (n : ℕ)
    → Safe g m (process_arp now stale Side.wan m n g)
unfolding process_arp Safe
process_arp-Safe now g stale m n = elim (Bool-cases (ltb n 42)) [
  | inl short ↦ rw short (nothing-Safe g g m)
  | inr long ↦ elim (Bool-cases (field16 m 20 == 1 && ip_equals m 38 g.wan_if.local_ip)) [
    | inl request ↦
        rw (long, request)
          (λ p rest e l. absurd (lan_wan (sym l ∙ arp_side stale g.wan_if m p rest e)))
    | inr other ↦ elim (Bool-cases (field16 m 20 == 2)) [
      | inl reply ↦ rw (long, other, reply) (λ p rest e l. absurd (cc))
      | inr ignored ↦ rw (long, other, ignored) (nothing-Safe g g m)
    ]
  ]
]

-- With well-formed tables, a frame that arrives on the WAN makes the gateway send to the LAN only if an active session has
-- the frame's source as its remote address, provided that the WAN interface has the address that the
-- translation is configured with.
pub process_frame-Session :
    (now : ℕ) (stale m : Memory) (n : ℕ) (g : Gateway) (p : Packet) (rest : List Packet)
    → WellFormed g.nat
    → SameWan g
    → (net_demo_process_frame now stale Side.wan m n g).sent ≡ p ∷ rest
    → p.side ≡ Side.lan
    → Session g m
unfolding net_demo_process_frame Safe
process_frame-Session now stale m n g p rest v same = safe p rest
  where
    safe : Safe g m (net_demo_process_frame now stale Side.wan m n g)
    safe = elim (Bool-cases (ltb n 14)) [
      | inl short ↦ rw short (nothing-Safe g g m)
      | inr long ↦ elim (Bool-cases (field16 m 12 == 2054)) [
        | inl arp ↦ rw (long, arp) (process_arp-Safe now g stale m n)
        | inr not_arp ↦ elim (Bool-cases (field16 m 12 == 2048)) [
          | inl ip ↦ rw (long, not_arp, ip) (process_ip-Safe now g stale m n v same)
          | inr other ↦ rw (long, not_arp, other) (nothing-Safe g g m)
        ]
      ]
    ]
