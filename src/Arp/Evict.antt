-- ===== src/Arp/Evict.antt =====
-- Which entry of a full ARP cache `arp_cache_add` of bsp/nat.c replaces.
use ucosii_arm64_qemu.Prelude.{
  ℕ, zero, suc, ◌+◌, ◌≤◌, ◌<◌, ◌≡◌, ap, ◌∙◌, ltb→lt, not_ltb→le, not, none, some, List, [], ◌∷◌,
  ltb, if◌then◌else◌, arith, length, get_or, find_index, find_index_hit, Option-cases, inl, inr,
  Bool-cases,
}
use ucosii_arm64_qemu.Addr.{Ip}
use ucosii_arm64_qemu.Arp.{ArpEntry, unused_arp, arp_match, oldest_index, arp_slot}

-- The loop answers its start index, or the index of an entry in the rest of the table.
pub oldest_index-lt :
    (es : List ArpEntry) (i t o n : ℕ) → o < n → i + length es ≤ n → oldest_index es i t o < n
unfolding oldest_index
oldest_index-lt [] i t o n h k = h
oldest_index-lt (e ∷ es) i t o n h k =
    oldest_index-lt es (suc i) (if ltb e.last_update t then e.last_update else t)
      (if ltb e.last_update t then i else o) n (ground arith) (omega arith)

-- The three ways in which `arp_cache_add` chooses an entry.
pub arp_slot_cases {ℓ} :
    (P : ℕ → Type ℓ) (ip : Ip) (now : ℕ) (table : List ArpEntry)
    → ((i : ℕ) → find_index (arp_match ip) table ≡ some i → P i)
    → ((i : ℕ)
        → find_index (arp_match ip) table ≡ none
        → find_index (λ (e : ArpEntry). not e.active) table ≡ some i
        → P i)
    → (find_index (arp_match ip) table ≡ none
        → find_index (λ (e : ArpEntry). not e.active) table ≡ none
        → P (oldest_index table 0 now 0))
    → P (arp_slot ip now table)
unfolding arp_slot
arp_slot_cases P ip now table known free oldest =
    elim (Option-cases (find_index (arp_match ip) table)) [
      | inr (i, e) ↦ rw (arp_slot, e) (known i e)
      | inl e ↦ elim (Option-cases (find_index (λ (e : ArpEntry). not e.active) table)) [
        | inr (i, a) ↦ rw (arp_slot, e, a) (free i e a)
        | inl a ↦ rw (arp_slot, e, a) (oldest e a)
      ]
    ]

pub arp_slot-lt :
    (ip : Ip) (now : ℕ) (table : List ArpEntry)
    → 0 < length table
    → arp_slot ip now table < length table
arp_slot-lt ip now table h =
    arp_slot_cases (λ i. i < length table) ip now table
      (λ i e. (find_index_hit (arp_match ip) table i unused_arp e).0)
      (λ i _ a. (find_index_hit (λ (e : ArpEntry). not e.active) table i unused_arp a).0)
      (λ _ _. oldest_index-lt table 0 now 0 (length table) h (omega arith))

-- The loop over the rest `es` of a table, at index `i`, with the best entry `o` so far.
abbrev Rest : List ArpEntry → List ArpEntry → ℕ → Type 0
Rest whole es i = (k : ℕ) → get_or whole (i + k) unused_arp ≡ get_or es k unused_arp

Rest-head :
    (whole es : List ArpEntry) (e : ArpEntry) (i : ℕ)
    → Rest whole (e ∷ es) i
    → get_or whole i unused_arp ≡ e
Rest-head whole es e i r = ap (λ n. get_or whole n unused_arp) (omega arith) ∙ r 0

Rest-tail :
    (whole es : List ArpEntry) (e : ArpEntry) (i : ℕ)
    → Rest whole (e ∷ es) i
    → Rest whole es (suc i)
Rest-tail whole es e i r k = ap (λ n. get_or whole n unused_arp) (omega arith) ∙ r (suc k)

oldest_index-le_start :
    (whole es : List ArpEntry) (i t o : ℕ)
    → Rest whole es i
    → (get_or whole o unused_arp).last_update ≤ t
    → (get_or whole (oldest_index es i t o) unused_arp).last_update ≤ t
unfolding oldest_index
oldest_index-le_start whole [] i t o r h = h
oldest_index-le_start whole (e ∷ es) i t o r h = elim (Bool-cases (ltb e.last_update t)) [
  | inl younger ↦ rw younger (
      omega (
        arith,
        oldest_index-le_start whole es (suc i) e.last_update i (Rest-tail whole es e i r)
            (rw (Rest-head whole es e i r) (omega arith)),
        ltb→lt e.last_update t younger,
      ))
  | inr older ↦ rw older (oldest_index-le_start whole es (suc i) t o (Rest-tail whole es e i r) h)
]

oldest_index-le_others :
    (whole es : List ArpEntry) (i t o j : ℕ)
    → Rest whole es i
    → (get_or whole o unused_arp).last_update ≤ t
    → j < length es
    → (get_or whole (oldest_index es i t o) unused_arp).last_update
      ≤ (get_or es j unused_arp).last_update
unfolding oldest_index
oldest_index-le_others whole [] i t o j r h k = absurd (omega arith)
oldest_index-le_others whole (e ∷ es) i t o zero r h k = elim (Bool-cases (ltb e.last_update t)) [
  | inl younger ↦ rw younger (
      oldest_index-le_start whole es (suc i) e.last_update i (Rest-tail whole es e i r)
        (rw (Rest-head whole es e i r) (omega arith)))
  | inr older ↦ rw older (
      omega (
        arith,
        oldest_index-le_start whole es (suc i) t o (Rest-tail whole es e i r) h,
        not_ltb→le e.last_update t older,
      ))
]
oldest_index-le_others whole (e ∷ es) i t o (suc j) r h k =
    elim (Bool-cases (ltb e.last_update t)) [
      | inl younger ↦ rw younger (
          oldest_index-le_others whole es (suc i) e.last_update i j (Rest-tail whole es e i r)
            (rw (Rest-head whole es e i r) (omega arith)) (omega arith))
      | inr older ↦
          rw older (
            oldest_index-le_others whole es (suc i) t o j (Rest-tail whole es e i r) h
              (omega arith))
    ]

-- A full cache with no time stamp past `now` gives up an entry that has the smallest time stamp.
arp_slot_oldest :
    (ip : Ip) (now : ℕ) (table : List ArpEntry) (j : ℕ)
    → find_index (arp_match ip) table ≡ none
    → find_index (λ (e : ArpEntry). not e.active) table ≡ none
    → ((k : ℕ) → (get_or table k unused_arp).last_update ≤ now)
    → j < length table
    → (get_or table (arp_slot ip now table) unused_arp).last_update
      ≤ (get_or table j unused_arp).last_update
unfolding arp_slot
arp_slot_oldest ip now table j e a past h =
    rw (arp_slot, e, a)
      (oldest_index-le_others table table 0 now 0 j
        (λ k. ap (λ n. get_or table n unused_arp) (omega arith)) (past 0) h)
