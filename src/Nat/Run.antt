-- ===== src/Nat/Run.antt =====
-- Any sequence of the calls that src/net_demo.c makes of bsp/nat.c after `nat_init`, and the answer
-- when the session table is full.
use ucosii_arm64_qemu.Prelude.{
  ℕ, ◌+◌, ◌≤◌, ◌<◌, ◌≡◌, refl, true, false, not, none, some, List, [], ◌∷◌, arith, u32,
  get_or-replicate, find_index_miss, ap, sym, ◌∙◌,
}
use mathlib.Core.Bool.{false≢true}
use ucosii_arm64_qemu.Nat.Types.{NatState, NatEntry, Flow, Reply, entry_at, unused_entry, nat_init}
use ucosii_arm64_qemu.Nat.Lookup.{
  out_match, out_match-unused, nat_alloc_entry, nat_alloc_entry-free,
}
use ucosii_arm64_qemu.Nat.Translate.{
  nat_translate_outbound, nat_translate_inbound, table_is_full, outbound_cases,
}
use ucosii_arm64_qemu.Nat.Sweep.{nat_cleanup_expired}
use ucosii_arm64_qemu.Nat.WellFormed.{
  WellFormed, nat_init-WellFormed, nat_translate_outbound-WellFormed,
  nat_translate_inbound-WellFormed,
}
use ucosii_arm64_qemu.Nat.Session.{
  OneSession, nat_translate_outbound-OneSession, nat_translate_inbound-OneSession,
}
use ucosii_arm64_qemu.Nat.Exact.{nat_find_entry-hit}
use ucosii_arm64_qemu.Nat.Expiry.{nat_cleanup_expired-WellFormed, nat_cleanup_expired-OneSession}

-- A call with the tick count at which it is made.
pub data NatCall : Type 0 where
  outbound : Flow → ℕ → NatCall
  inbound : Reply → ℕ → NatCall
  cleanup : ℕ → NatCall

unfoldable pub nat_step : NatState → NatCall → NatState
nat_step s (outbound f now) = (nat_translate_outbound f now s).0
nat_step s (inbound r now) = (nat_translate_inbound r now s).0
nat_step s (cleanup now) = (nat_cleanup_expired now s).0

unfoldable pub nat_run : NatState → List NatCall → NatState
unfolding nat_step
nat_run s [] = s
nat_run s (c ∷ cs) = nat_run (nat_step s c) cs

nat_step-Invariant :
    (s : NatState) (c : NatCall)
    → WellFormed s × OneSession s
    → WellFormed (nat_step s c) × OneSession (nat_step s c)
unfolding nat_step
nat_step-Invariant s (outbound f now) (v, one) =
    (nat_translate_outbound-WellFormed f now s v, nat_translate_outbound-OneSession f now s one)
nat_step-Invariant s (inbound r now) (v, one) =
    (nat_translate_inbound-WellFormed r now s v, nat_translate_inbound-OneSession r now s one)
nat_step-Invariant s (cleanup now) (v, one) =
    (nat_cleanup_expired-WellFormed now s v, nat_cleanup_expired-OneSession now s one)

nat_run-Invariant :
    (s : NatState) (cs : List NatCall)
    → WellFormed s × OneSession s
    → WellFormed (nat_run s cs) × OneSession (nat_run s cs)
unfolding nat_run
nat_run-Invariant s [] inv = inv
nat_run-Invariant s (c ∷ cs) inv = nat_run-Invariant (nat_step s c) cs (nat_step-Invariant s c inv)

pub nat_init-OneSession : (s : NatState) → OneSession (nat_init s)
unfolding nat_init
nat_init-OneSession s f i j p q = absurd (false≢true (unmatched ∙ p))
  where
    unmatched : false ≡ out_match f (entry_at (nat_init s) i)
    unmatched = rw (get_or-replicate 64 i unused_entry) (sym (out_match-unused f))

-- After `nat_init` with a valid port range, any sequence of translations and sweeps leaves tables of
-- the right size with buckets that are empty or in range, the next port in the configured range, and
-- one session for each flow.
pub nat_run-Invariant_init :
    (s : NatState) (cs : List NatCall)
    → s.nat_cfg.port_range_start ≤ s.nat_cfg.port_range_end
    → s.nat_cfg.port_range_end < 65535
    → WellFormed (nat_run (nat_init s) cs) × OneSession (nat_run (nat_init s) cs)
nat_run-Invariant_init s cs h k =
    nat_run-Invariant (nat_init s) cs (nat_init-WellFormed s h k, nat_init-OneSession s)

-- With all 64 entries active and none of them the flow's, an outbound translation is refused, and
-- the refusal changes nothing but the counter of such refusals.
translate_outbound_full :
    (f : Flow) (now : ℕ) (s : NatState)
    → WellFormed s
    → ((i : ℕ) → i < 64 → (entry_at s i).active ≡ true)
    → ((i : ℕ) → i < 64 → out_match f (entry_at s i) ≡ false)
    → nat_translate_outbound f now s ≡ (
      record s {
        nat_statistics = record (s.nat_statistics) {
          table_full = u32 (s.nat_statistics.table_full + 1);
        };
      },
      none,
    )
unfolding table_is_full
translate_outbound_full f now s v active other =
    outbound_cases (λ r. r ≡ (table_is_full s, none)) f now s
      (λ i e.
        let (h, m) = nat_find_entry-hit s f i v e in absurd (false≢true (sym (other i h) ∙ m)))
      (λ i _ a.
        let (h, free) = nat_alloc_entry-free s i a in
        absurd (false≢true (sym free ∙ active i (omega (arith, v.table_length)))))
      (λ _ _. refl)

-- With a free entry in the table, an outbound translation succeeds.
pub translate_outbound_served :
    (f : Flow) (now i : ℕ) (s : NatState)
    → WellFormed s
    → i < 64
    → (entry_at s i).active ≡ false
    → (port : ℕ) × ((nat_translate_outbound f now s).1 ≡ some port)
unfolding nat_alloc_entry
translate_outbound_served f now i s v h free =
    outbound_cases (λ r. (port : ℕ) × (r.1 ≡ some port)) f now s (λ j e. (_, refl))
      (λ j _ a. (s.next_port, refl))
      (λ _ a. absurd (
        false≢true (
          sym (
            find_index_miss (λ (e : NatEntry). not e.active) s.nat_table i unused_entry a
              (omega (arith, v.table_length)))
          ∙ ap not free)))
