-- ===== src/Nat/Translate.antt =====
-- Translation of one packet's addresses, outbound and inbound, of bsp/nat.c. OSTime is the argument
-- `now`. A result `none` is the return value -1; the outputs through pointers are the `some`.
use ucosii_arm64_qemu.Prelude.{
  ℕ, ◌+◌, ◌≡◌, inl, inr, Option-cases, true, Option, none, some, List, ltb, ◌==◌, if◌then◌else◌,
  u16, u32, get_or, set,
}
use ucosii_arm64_qemu.Addr.{Ip}
use ucosii_arm64_qemu.Nat.Types.{NatEntry, NatStats, NatState, Flow, Reply, unused_entry, entry_at}
use ucosii_arm64_qemu.Nat.Hash.{nat_hash_add, nat_outbound_hash_add}
use ucosii_arm64_qemu.Nat.Lookup.{nat_find_entry, nat_find_reverse_entry, nat_alloc_entry}

unfoldable pub nat_alloc_port : NatState → ℕ × NatState
nat_alloc_port s =
    let next = u16 (s.next_port + 1) in
    (
      s.next_port,
      record s {
        next_port = if ltb s.nat_cfg.port_range_end next then s.nat_cfg.port_range_start else next;
      },
    )

unfoldable pub session_timeout : ℕ → ℕ
session_timeout protocol =
    if protocol == 1 then 60 else if protocol == 17 then 120 else if protocol == 6 then 60 else 120

abbrev pub touch : ℕ → ℕ → List NatEntry → List NatEntry
touch i now table = set table i (record (get_or table i unused_entry) { last_activity = now })

abbrev pub count_out : NatStats → NatStats
count_out t = record t { translations_out = u32 (t.translations_out + 1) }

-- A known session: the time stamp is renewed.
unfoldable pub reuse_session : ℕ → ℕ → NatState → NatState
reuse_session i now s = record s {
  nat_table = touch i now s.nat_table;
  nat_statistics = count_out s.nat_statistics;
}

unfoldable pub new_session : Flow → ℕ → ℕ → NatEntry
new_session f port now = record {
  active = true;
  protocol = f.protocol;
  lan_ip = f.lan_ip;
  lan_port = f.lan_port;
  wan_port = port;
  dst_ip = f.dst_ip;
  dst_port = f.dst_port;
  last_activity = now;
  timeout_sec = session_timeout f.protocol;
}

-- A new session in the free entry `i`, under the next port.
unfoldable pub open_session : ℕ → Flow → ℕ → NatState → NatState
unfolding nat_alloc_port new_session
open_session i f now s =
    let (port, s') = nat_alloc_port s in
    record s' {
      nat_table = set s.nat_table i (new_session f port now);
      nat_hash_table = nat_hash_add port i s.nat_hash_table;
      nat_outbound_hash_table =
          nat_outbound_hash_add f.protocol f.lan_port i s.nat_outbound_hash_table;
      nat_statistics = count_out s.nat_statistics;
    }

unfoldable pub table_is_full : NatState → NatState
table_is_full s = record s {
  nat_statistics = record (s.nat_statistics) { table_full = u32 (s.nat_statistics.table_full + 1) };
}

unfoldable pub nat_translate_outbound : Flow → ℕ → NatState → NatState × Option ℕ
unfolding reuse_session open_session table_is_full
nat_translate_outbound f now s = elim (nat_find_entry s f) [
  | some i ↦ (reuse_session i now s, some (entry_at s i).wan_port)
  | none ↦ elim (nat_alloc_entry s) [
    | none ↦ (table_is_full s, none)
    | some i ↦ (open_session i f now s, some s.next_port)
  ]
]

-- A reply to a known session: the time stamp is renewed.
unfoldable pub accept_reply : ℕ → ℕ → NatState → NatState
accept_reply i now s = record s {
  nat_table = touch i now s.nat_table;
  nat_statistics = record (s.nat_statistics) {
    translations_in = u32 (s.nat_statistics.translations_in + 1);
  };
}

unfoldable pub drop_reply : NatState → NatState
drop_reply s = record s {
  nat_statistics = record (s.nat_statistics) { no_match = u32 (s.nat_statistics.no_match + 1) };
}

unfoldable pub nat_translate_inbound : Reply → ℕ → NatState → NatState × Option (Ip × ℕ)
unfolding accept_reply drop_reply
nat_translate_inbound r now s = elim (nat_find_reverse_entry s r) [
  | none ↦ (drop_reply s, none)
  | some i ↦ (accept_reply i now s, some ((entry_at s i).lan_ip, (entry_at s i).lan_port))
]

-- The three ways through `nat_translate_outbound`, and the two through `nat_translate_inbound`.
pub outbound_cases {ℓ} :
    (P : NatState × Option ℕ → Type ℓ) (f : Flow) (now : ℕ) (s : NatState)
    → ((i : ℕ)
        → nat_find_entry s f ≡ some i
        → P (reuse_session i now s, some (entry_at s i).wan_port))
    → ((i : ℕ)
        → nat_find_entry s f ≡ none
        → nat_alloc_entry s ≡ some i
        → P (open_session i f now s, some s.next_port))
    → (nat_find_entry s f ≡ none → nat_alloc_entry s ≡ none → P (table_is_full s, none))
    → P (nat_translate_outbound f now s)
unfolding nat_translate_outbound
outbound_cases P f now s known new full = elim (Option-cases (nat_find_entry s f)) [
  | inr (i, e) ↦ rw (nat_translate_outbound, e) (known i e)
  | inl e ↦ elim (Option-cases (nat_alloc_entry s)) [
    | inr (i, a) ↦ rw (nat_translate_outbound, e, a) (new i e a)
    | inl a ↦ rw (nat_translate_outbound, e, a) (full e a)
  ]
]

pub inbound_cases {ℓ} :
    (P : NatState × Option (Ip × ℕ) → Type ℓ) (r : Reply) (now : ℕ) (s : NatState)
    → ((i : ℕ)
        → nat_find_reverse_entry s r ≡ some i
        → P (accept_reply i now s, some ((entry_at s i).lan_ip, (entry_at s i).lan_port)))
    → (nat_find_reverse_entry s r ≡ none → P (drop_reply s, none))
    → P (nat_translate_inbound r now s)
unfolding nat_translate_inbound
inbound_cases P r now s known unknown = elim (Option-cases (nat_find_reverse_entry s r)) [
  | inr (i, e) ↦ rw (nat_translate_inbound, e) (known i e)
  | inl e ↦ rw (nat_translate_inbound, e) (unknown e)
]

pub outbound_new :
    (s : NatState) (f : Flow) (now i : ℕ)
    → nat_find_entry s f ≡ none
    → nat_alloc_entry s ≡ some i
    → nat_translate_outbound f now s ≡ (open_session i f now s, some s.next_port)
unfolding nat_translate_outbound
outbound_new s f now i e a = rw (nat_translate_outbound, e, a)
