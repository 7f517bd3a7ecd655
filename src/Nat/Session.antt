-- ===== src/Nat/Session.antt =====
-- One session for each flow: no two active entries of bsp/nat.c's table agree on protocol, LAN side
-- and destination, so that the hash bucket and the linear scan find the same entry.
use ucosii_arm64_qemu.Prelude.{
  ℕ, ◌≡◌, refl, sym, ap, ◌∙◌, inl, inr, true, false, none, some, List, arith, get_or, find_index,
  get_or-set, Option-cases,
}
use mathlib.Core.Bool.{false≢true}
use ucosii_arm64_qemu.Addr.{ip_equal}
use ucosii_arm64_qemu.Nat.Types.{NatEntry, NatState, Flow, Reply, unused_entry, entry_at}
use ucosii_arm64_qemu.Nat.Lookup.{out_match, out_match-unused, nat_find_entry}
use ucosii_arm64_qemu.Nat.Translate.{
  touch, new_session, nat_translate_outbound, nat_translate_inbound, reuse_session, open_session,
  table_is_full, accept_reply, drop_reply, outbound_cases, inbound_cases,
}
use ucosii_arm64_qemu.Nat.WellFormed.{WellFormed}
use ucosii_arm64_qemu.Nat.Exact.{scan_hit, scan_miss, nat_find_entry-hit, nat_find_entry-miss}

abbrev pub OneSession : NatState → Type 0
OneSession s =
    (f : Flow) (i j : ℕ)
    → out_match f (entry_at s i) ≡ true
    → out_match f (entry_at s j) ≡ true
    → i ≡ j

-- With one session for each flow, the search by hash bucket is the linear scan of the table.
pub nat_find_entry-eq-scan :
    (s : NatState) (f : Flow)
    → WellFormed s
    → OneSession s
    → nat_find_entry s f ≡ find_index (out_match f) s.nat_table
nat_find_entry-eq-scan s f v one = elim (Option-cases (nat_find_entry s f)) [
  | inl e ↦ elim (Option-cases (find_index (out_match f) s.nat_table)) [
    | inl k ↦ e ∙ sym k
    | inr (i, k) ↦ absurd (false≢true (sym (nat_find_entry-miss s f i e) ∙ (scan_hit _ s i v k).1))
  ]
  | inr (i, e) ↦ elim (Option-cases (find_index (out_match f) s.nat_table)) [
    | inl k ↦ absurd (
        false≢true
          (sym (scan_miss _ s i (out_match-unused f) k) ∙ (nat_find_entry-hit s f i v e).1))
    | inr (j, k) ↦
        e ∙ ap some (one f i j (nat_find_entry-hit s f i v e).1 (scan_hit _ s j v k).1) ∙ sym k
  ]
]

-- A new time stamp changes no search.
pub touch-out_match :
    (f : Flow) (i now : ℕ) (table : List NatEntry) (j : ℕ)
    → out_match f (get_or (touch i now table) j unused_entry)
      ≡ out_match f (get_or table j unused_entry)
unfolding out_match
touch-out_match f i now table j = ground (
  arith,
  get_or-set table i j (record (get_or table i unused_entry) { last_activity = now }) unused_entry,
)

touch-OneSession :
    (i now : ℕ) (s t : NatState)
    → t.nat_table ≡ touch i now s.nat_table
    → OneSession s
    → OneSession t
touch-OneSession i now s t e one f j k p q =
    one f j k (sym (touch-out_match f i now s.nat_table j) ∙ rw e at p)
      (sym (touch-out_match f i now s.nat_table k) ∙ rw e at q)

-- Whatever matches the new session and an old entry would have been found before.
new_session_fresh :
    (f g : Flow) (port now : ℕ) (x : NatEntry)
    → out_match g (new_session f port now) ≡ true
    → out_match f x ≡ false
    → out_match g x ≡ false
unfolding out_match new_session ip_equal
new_session_fresh f g port now x p q = ground arith

open_session-OneSession :
    (i : ℕ) (f : Flow) (now : ℕ) (s : NatState)
    → nat_find_entry s f ≡ none
    → OneSession s
    → OneSession (open_session i f now s)
unfolding open_session
open_session-OneSession i f now s e one g j k p q = ground (
  arith,
  get_or-set s.nat_table i j (new_session f s.next_port now) unused_entry,
  get_or-set s.nat_table i k (new_session f s.next_port now) unused_entry,
  one g j k,
  new_session_fresh f g s.next_port now (entry_at s j),
  new_session_fresh f g s.next_port now (entry_at s k),
  nat_find_entry-miss s f j e,
  nat_find_entry-miss s f k e,
)

pub nat_translate_outbound-OneSession :
    (f : Flow) (now : ℕ) (s : NatState)
    → OneSession s
    → OneSession (nat_translate_outbound f now s).0
unfolding reuse_session table_is_full
nat_translate_outbound-OneSession f now s one =
    outbound_cases (λ r. OneSession r.0) f now s
      (λ i _. touch-OneSession i now s (reuse_session i now s) refl one)
      (λ i e _. open_session-OneSession i f now s e one) (λ _ _. one)

pub nat_translate_inbound-OneSession :
    (r : Reply) (now : ℕ) (s : NatState)
    → OneSession s
    → OneSession (nat_translate_inbound r now s).0
unfolding accept_reply drop_reply
nat_translate_inbound-OneSession r now s one =
    inbound_cases (λ x. OneSession x.0) r now s
      (λ i _. touch-OneSession i now s (accept_reply i now s) refl one) (λ _. one)
