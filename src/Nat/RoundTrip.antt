-- ===== src/Nat/RoundTrip.antt =====
-- What a host on either side sees of bsp/nat.c: replies come back to the session that opened the
-- port, a flow keeps its port, and nothing else is let in.
use mathlib.Core.Bool.{false≢true}
use ucosii_arm64_qemu.Prelude.{
  ℕ, ◌<◌, ◌≡◌, refl, sym, ap, subst, ◌∙◌, inl, inr, true, Option, none, some, arith, get_or-set,
  Option-cases, of_some, u8,
}
use ucosii_arm64_qemu.Addr.{Ip, ip_equal, ip_equal_iff}
use ucosii_arm64_qemu.Nat.Types.{NatEntry, NatState, Flow, Reply, unused_entry, entry_at}
use ucosii_arm64_qemu.Nat.Hash.{nat_hash_add, nat_hash, nat_hash_lem}
use ucosii_arm64_qemu.Nat.Lookup.{
  out_match, in_match, nat_find_entry, nat_find_reverse_entry, nat_alloc_entry,
  nat_alloc_entry-free,
}
use ucosii_arm64_qemu.Nat.Translate.{
  new_session, nat_translate_outbound, nat_translate_inbound, reuse_session, open_session,
  outbound_cases, outbound_new, inbound_cases,
}
use ucosii_arm64_qemu.Nat.WellFormed.{WellFormed, nat_translate_outbound-WellFormed}
use ucosii_arm64_qemu.Nat.Session.{OneSession, touch-out_match, nat_translate_outbound-OneSession}
use ucosii_arm64_qemu.Nat.Exact.{
  Found, nat_find_entry-hit, nat_find_entry-miss, nat_find_reverse_entry-hit,
}

-- The reply that the destination of a flow sends back to the port `port`.
abbrev pub reply_to : Flow → ℕ → Reply
reply_to f port = record {
  protocol = f.protocol;
  wan_port = port;
  src_ip = f.dst_ip;
  src_port = f.dst_port;
}

in_match-new_session :
    (f : Flow) (port now : ℕ) → in_match (reply_to f port) (new_session f port now) ≡ true
unfolding in_match new_session ip_equal
in_match-new_session f port now = ground arith

-- The reverse search finds a session just opened by its bucket.
pub find-open_session :
    (s : NatState) (f : Flow) (i now : ℕ)
    → WellFormed s
    → i < 64
    → nat_find_reverse_entry (open_session i f now s) (reply_to f s.next_port) ≡ some i
unfolding nat_find_reverse_entry open_session nat_hash_add
find-open_session s f i now v h = ground (
  arith,
  get_or-set s.nat_hash_table (nat_hash s.next_port) (nat_hash s.next_port) (u8 i) 255,
  nat_hash_lem s.next_port,
  get_or-set s.nat_table i i (new_session f s.next_port now) unused_entry,
  in_match-new_session f s.next_port now,
  v.hash_length,
  v.table_length,
)

pub entry-open_session :
    (s : NatState) (f : Flow) (i now : ℕ)
    → WellFormed s
    → i < 64
    → entry_at (open_session i f now s) i ≡ new_session f s.next_port now
unfolding open_session
entry-open_session s f i now v h =
    ground (
      arith,
      get_or-set s.nat_table i i (new_session f s.next_port now) unused_entry,
      v.table_length,
    )

-- If the table has no session for a flow and a free entry, the outbound translation opens one under
-- the next port, and the destination's reply to that port is translated back to the flow's LAN
-- address and port.
translate_round_trip :
    (s : NatState) (f : Flow) (now later i : ℕ)
    → WellFormed s
    → nat_find_entry s f ≡ none
    → nat_alloc_entry s ≡ some i
    → let (s', port) = nat_translate_outbound f now s in
      (port ≡ some s.next_port)
      × ((nat_translate_inbound (reply_to f s.next_port) later s').1 ≡ some (f.lan_ip, f.lan_port))
unfolding nat_translate_inbound new_session
translate_round_trip s f now later i v e a = rw (outbound_new s f now i e a) (
  refl,
  ground (arith, find-open_session s f i now v in_table, entry-open_session s f i now v in_table),
)
  where
    in_table : i < 64
    in_table = omega (arith, nat_alloc_entry-free s i a, v.table_length)

-- After a successful translation the table holds the flow's session under the reported port.
abbrev Holds : Flow → ℕ → NatState → Type 0
Holds f port s = (i : ℕ) × (out_match f (entry_at s i) ≡ true) × ((entry_at s i).wan_port ≡ port)

reuse_session-Holds :
    (s : NatState) (f : Flow) (i now : ℕ)
    → WellFormed s
    → nat_find_entry s f ≡ some i
    → Holds f (entry_at s i).wan_port (reuse_session i now s)
unfolding reuse_session
reuse_session-Holds s f i now v e = (
  i,
  touch-out_match f i now s.nat_table i ∙ (nat_find_entry-hit s f i v e).1,
  ground (
    arith,
    get_or-set s.nat_table i i (record (entry_at s i) { last_activity = now }) unused_entry,
  ),
)

open_session-Holds :
    (s : NatState) (f : Flow) (i now : ℕ)
    → WellFormed s
    → i < 64
    → Holds f s.next_port (open_session i f now s)
unfolding out_match new_session ip_equal
open_session-Holds s f i now v h = (
  i,
  ground (arith, entry-open_session s f i now v h),
  ground (arith, entry-open_session s f i now v h),
)

nat_translate_outbound-Holds :
    (s : NatState) (f : Flow) (now port : ℕ)
    → WellFormed s
    → (nat_translate_outbound f now s).1 ≡ some port
    → Holds f port (nat_translate_outbound f now s).0
nat_translate_outbound-Holds s f now port v =
    outbound_cases (λ r. r.1 ≡ some port → Holds f port r.0) f now s
      (λ i e h.
        subst (λ p. Holds f p (reuse_session i now s)) (of_some _ _ h)
          (reuse_session-Holds s f i now v e))
      (λ i _ a h.
        subst (λ p. Holds f p (open_session i f now s)) (of_some _ _ h)
          (open_session-Holds s f i now v
            (omega (arith, nat_alloc_entry-free s i a, v.table_length))))
      (λ _ _ h. absurd (cc))

find-Holds :
    (s : NatState) (f : Flow) (i : ℕ)
    → WellFormed s
    → OneSession s
    → out_match f (entry_at s i) ≡ true
    → nat_find_entry s f ≡ some i
find-Holds s f i v one m = elim (Option-cases (nat_find_entry s f)) [
  | inl e ↦ absurd (false≢true (sym (nat_find_entry-miss s f i e) ∙ m))
  | inr (j, e) ↦ e ∙ ap some (one f j i (nat_find_entry-hit s f j v e).1 m)
]

-- On a well-formed state with one session for each flow, a flow that was given a port is given the
-- same port again by the translation right after, whatever the two times are.
pub translate_outbound_stable :
    (s : NatState) (f : Flow) (now later port : ℕ)
    → WellFormed s
    → OneSession s
    → (nat_translate_outbound f now s).1 ≡ some port
    → (nat_translate_outbound f later (nat_translate_outbound f now s).0).1 ≡ some port
unfolding nat_translate_outbound
translate_outbound_stable s f now later port v one e =
    known (nat_translate_outbound f now s).0 (nat_translate_outbound-WellFormed f now s v)
      (nat_translate_outbound-OneSession f now s one)
      (nat_translate_outbound-Holds s f now port v e)
  where
    known :
        (t : NatState)
        → WellFormed t
        → OneSession t
        → Holds f port t
        → (nat_translate_outbound f later t).1 ≡ some port
    known t w o (i, m, p) = rw (nat_translate_outbound, find-Holds t f i w o m) (ap some p)

-- An active session that a reply `r` belongs to, with LAN side `ip` and `port`.
pub record Admits (e : NatEntry) (r : Reply) (ip : Ip) (port : ℕ) : Type 0 where
  pub is_active : e.active ≡ true
  pub same_protocol : e.protocol ≡ r.protocol
  pub same_wan_port : e.wan_port ≡ r.wan_port
  pub from_dst_ip : e.dst_ip ≡ r.src_ip
  pub from_dst_port : e.dst_port ≡ r.src_port
  pub to_lan_ip : e.lan_ip ≡ ip
  pub to_lan_port : e.lan_port ≡ port

in_match-Admits :
    (e : NatEntry) (r : Reply) (ip : Ip) (port : ℕ)
    → in_match r e ≡ true
    → ◌≡◌ {A = Option (Ip × ℕ)} (some (e.lan_ip, e.lan_port)) (some (ip, port))
    → Admits e r ip port
unfolding in_match
in_match-Admits e r ip port m h = ground (arith, ip_equal_iff e.dst_ip r.src_ip)

-- An inbound packet is let in only by an active session with its protocol and WAN port whose
-- destination is the packet's source, and goes to that session's LAN address and port.
pub translate_inbound-Admits :
    (s : NatState) (r : Reply) (now port : ℕ) (ip : Ip)
    → WellFormed s
    → (nat_translate_inbound r now s).1 ≡ some (ip, port)
    → (i : ℕ) × (i < 64) × Admits (entry_at s i) r ip port
translate_inbound-Admits s r now port ip v =
    inbound_cases
      (λ x. x.1 ≡ some (ip, port) → (i : ℕ) × (i < 64) × Admits (entry_at s i) r ip port) r now s
      (λ i e h. admitted i (nat_find_reverse_entry-hit s r i v e) h) (λ _ h. absurd (cc))
  where
    admitted :
        (i : ℕ)
        → Found (in_match r) s i
        → ◌≡◌ {A = Option (Ip × ℕ)}
            (some ((entry_at s i).lan_ip, (entry_at s i).lan_port))
            (some (ip, port))
        → (j : ℕ) × (j < 64) × Admits (entry_at s j) r ip port
    admitted i (h, m) e = (i, h, in_match-Admits (entry_at s i) r ip port m e)
