-- ===== src/Net/Pings.antt =====
-- How many echo requests of src/net_demo.c are among the frames sent.
use ucosii_arm64_qemu.Prelude.{
  ℕ, suc, ◌+◌, ◌≤◌, ◌≡◌, refl, Bool, true, false, List, [], ◌∷◌, ◌++◌, ◌==◌, ◌&&◌, if◌then◌else◌,
  arith, Bool-cases, inl, inr,
}
use ucosii_arm64_qemu.Bytes.{Memory}
use ucosii_arm64_qemu.Net.Frame.{
  Interface, Side, Packet, net_demo_send_arp_request, net_demo_send_icmp_request,
}
use ucosii_arm64_qemu.Net.Loop.{arp_of, if_sent}

abbrev pub same_side : Side → Side → Bool
same_side Side.lan Side.lan = true
same_side Side.lan Side.wan = false
same_side Side.wan Side.lan = false
same_side Side.wan Side.wan = true

-- The frames of an echo request's length that went out on a side.
unfoldable pub pings : Side → List Packet → ℕ
pings side [] = 0
pings side (p ∷ sent) =
    let rest = pings side sent in if same_side side p.side && p.length == 58 then suc rest else rest

pub pings-append :
    (side : Side) (s t : List Packet) → pings side (s ++ t) ≡ pings side s + pings side t
unfolding pings
pings-append side [] t = omega arith
pings-append side (p ∷ s) t = elim (Bool-cases (same_side side p.side && p.length == 58)) [
  | inl hit ↦ rw (hit, pings-append side s t) (omega arith)
  | inr miss ↦ rw miss (pings-append side s t)
]

-- A frame counts for its own side, and if its length is an echo request's.
pings-one : (side : Side) (p : Packet) → pings side (p ∷ []) ≤ 1
unfolding pings
pings-one side p = elim (Bool-cases (same_side side p.side && p.length == 58)) [
  | inl hit ↦ rw hit (omega arith)
  | inr miss ↦ rw miss (omega arith)
]

pings-none :
    (side : Side) (p : Packet)
    → (same_side side p.side && p.length == 58) ≡ false
    → pings side (p ∷ []) ≡ 0
unfolding pings
pings-none side p miss = rw miss refl

pings-nil : (side : Side) → pings side [] ≡ 0
unfolding pings
pings-nil side = refl

pub pings-if_sent :
    (stale : Memory) (side at : Side) (iface : Interface) (n : ℕ)
    → (pings side (if_sent (net_demo_send_icmp_request stale at iface n)) ≤ 1)
      × (same_side side at ≡ false
          → pings side (if_sent (net_demo_send_icmp_request stale at iface n)) ≡ 0)
unfolding net_demo_send_icmp_request
pings-if_sent stale side at iface n = elim (Bool-cases iface.peer_mac_valid) [
  | inl known ↦ rw known (pings-one side _, λ other. pings-none side _ (rw other refl))
  | inr unknown ↦ rw unknown (omega (arith, pings-nil side), λ other. pings-nil side)
]

pub pings-arp_of :
    (stale : Memory) (side at : Side) (iface : Interface) → pings side (arp_of stale at iface) ≡ 0
unfolding net_demo_send_arp_request
pings-arp_of stale side at iface = elim (Bool-cases iface.has_dev) [
  | inl present ↦ rw present (
      pings-none side _
        (elim (Bool-cases (same_side side at)) [ inl e ↦ rw e refl | inr e ↦ rw e refl ]))
  | inr absent ↦ rw absent (pings-nil side)
]
