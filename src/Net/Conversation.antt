-- ===== src/Net/Conversation.antt =====
-- A segment through src/net_demo.c and the answer to it: what each side reads.
use ucosii_arm64_qemu.Prelude.{ℕ, ◌+◌, ◌≡◌, ◌∙◌, true, List, [], ◌∷◌}
use ucosii_arm64_qemu.Addr.{ip_equal_iff}
use ucosii_arm64_qemu.Bytes.{Memory, load_mac}
use ucosii_arm64_qemu.Nat.Types.{Flow}
use ucosii_arm64_qemu.Nat.Types.{nat_is_wan_ip}
use ucosii_arm64_qemu.Nat.Translate.{open_session}
use ucosii_arm64_qemu.Nat.WellFormed.{WellFormed}
use ucosii_arm64_qemu.Net.Frame.{Packet, field16}
use ucosii_arm64_qemu.Net.Forward.{Gateway, protocol, dst_ip, src_ip, transport_at}
use ucosii_arm64_qemu.Net.Process.{learn_arp}
use ucosii_arm64_qemu.Net.Outward.{opened}
use ucosii_arm64_qemu.Net.Inbound.{SameWan}

pub for_wan :
    (now later : ℕ) (m r : Memory) (f : Flow) (i : ℕ) (g : Gateway)
    → SameWan g
    → dst_ip r ≡ g.wan_if.local_ip
    → nat_is_wan_ip (learn_arp later (src_ip r) (load_mac r 6) (opened now m f i g)).nat (dst_ip r)
      ≡ true
unfolding nat_is_wan_ip learn_arp open_session
for_wan now later m r f i g same e = (ip_equal_iff (dst_ip r) g.nat.nat_cfg.wan_ip).1 (e ∙ same)

-- What the host behind the gateway reads in the reply that came back.
abbrev pub Incoming : Memory → Memory → Memory → Type 0
Incoming m r q =
    (protocol q ≡ protocol r)
    × (src_ip q ≡ dst_ip m)
    × (field16 q (transport_at q) ≡ field16 m (transport_at m + 2))
    × (dst_ip q ≡ src_ip m)
    × (field16 q (transport_at q + 2) ≡ field16 m (transport_at m))

-- The first frame of what was sent.
abbrev pub first_frame : List Packet → Memory
first_frame [] = λ x. 0
first_frame (p ∷ ps) = p.frame
