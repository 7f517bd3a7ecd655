-- ===== src/Sem/Count.antt =====
-- The count of a semaphore that no task waits for.
use ucosii_arm64_qemu.Prelude.{
  ℕ, ◌+◌, ◌-◌, ◌<◌, ◌≡◌, ap, ◌∙◌, true, false, some, List, [], ◌∷◌, ltb, ◌==◌, not, if◌then◌else◌,
  length, length-set, get_or-set_self, u16, arith, Bool-cases, inl, inr,
}
use ucosii_arm64_qemu.Sem.{
  Os, Kernel, no_event, event_at, set_cnt, os_sem_accept, os_sem_pend, os_sem_post,
}

-- A semaphore that exists and has no waiting task.
pub record IsIdle (e : ℕ) (s : Os) : Type 0 where
  pub exists : e < length s.events
  pub is_sem : (event_at s e).event_type ≡ 3
  pub no_waiter : (event_at s e).event_grp ≡ 0
  pub cnt_in : (event_at s e).event_cnt < 65536

pub data SemCall : Type 0 where
  accept : SemCall
  post : SemCall

-- What a sequence of calls leaves: the state, the units taken and the units given.
pub record Ledger : Type 0 where
  pub os : Os
  pub taken : ℕ
  pub given : ℕ

unfoldable pub sem_step : Kernel → ℕ → SemCall → Ledger → Ledger
sem_step k e SemCall.accept l =
    let (s, cnt) = os_sem_accept (some e) l.os in
    record l { os = s; taken = if ltb 0 cnt then l.taken + 1 else l.taken }
sem_step k e SemCall.post l =
    let (s, err) = os_sem_post k (some e) l.os in
    record l { os = s; given = if err == 0 then l.given + 1 else l.given }

unfoldable pub sem_run : Kernel → ℕ → List SemCall → Ledger → Ledger
unfolding sem_step
sem_run k e [] l = l
sem_run k e (c ∷ cs) l = sem_run k e cs (sem_step k e c l)

set_cnt-IsIdle : (e cnt : ℕ) (s : Os) → cnt < 65536 → IsIdle e s → IsIdle e (set_cnt e cnt s)
set_cnt-IsIdle e cnt s h v =
    let new = record (event_at s e) { event_cnt = cnt } in
    let at = get_or-set_self s.events e new no_event v.exists in
    record {
      exists = omega (arith, length-set s.events e new, v.exists);
      is_sem = ap (λ x. x.event_type) at ∙ v.is_sem;
      no_waiter = ap (λ x. x.event_grp) at ∙ v.no_waiter;
      cnt_in = omega (arith, ap (λ x. x.event_cnt) at);
    }

set_cnt_lem : (e cnt : ℕ) (s : Os) → IsIdle e s → (event_at (set_cnt e cnt s) e).event_cnt ≡ cnt
set_cnt_lem e cnt s v =
    ap (λ x. x.event_cnt)
      (get_or-set_self s.events e (record (event_at s e) { event_cnt = cnt }) no_event v.exists)

-- The units that are there and the units taken are the units that were there and those given.
abbrev Balanced : ℕ → Ledger → Ledger → Type 0
Balanced e l l' =
    IsIdle e l'.os
    × ((event_at l'.os e).event_cnt + l'.taken + l.given
        ≡ (event_at l.os e).event_cnt + l.taken + l'.given)

sem_step-Balanced :
    (k : Kernel) (e : ℕ) (c : SemCall) (l : Ledger)
    → IsIdle e l.os
    → Balanced e l (sem_step k e c l)
unfolding sem_step os_sem_accept os_sem_post
sem_step-Balanced k e SemCall.accept l v =
    let sem : (not ((event_at l.os e).event_type == 3)) ≡ false = ground (arith, v.is_sem) in
    elim (Bool-cases (ltb 0 (event_at l.os e).event_cnt)) [
      | inr empty ↦ rw (sem, empty) (v, omega arith)
      | inl units ↦
          rw (sem, units, units)
            (
              set_cnt-IsIdle e _ l.os (omega (arith, v.cnt_in)) v,
              ground (arith, set_cnt_lem e ((event_at l.os e).event_cnt - 1) l.os v),
            )
    ]
sem_step-Balanced k e SemCall.post l v =
    let sem : (not ((event_at l.os e).event_type == 3)) ≡ false = ground (arith, v.is_sem) in
    let alone : (not ((event_at l.os e).event_grp == 0)) ≡ false = ground (arith, v.no_waiter) in
    elim (Bool-cases (ltb (event_at l.os e).event_cnt 65535)) [
      | inr full ↦ rw (sem, alone, full) (v, omega arith)
      | inl room ↦
          rw (sem, alone, room)
            (
              set_cnt-IsIdle e _ l.os (omega arith) v,
              ground (arith, set_cnt_lem e (u16 ((event_at l.os e).event_cnt + 1)) l.os v),
            )
    ]

sem_run-Balanced :
    (k : Kernel) (e : ℕ) (calls : List SemCall) (l : Ledger)
    → IsIdle e l.os
    → Balanced e l (sem_run k e calls l)
unfolding sem_run
sem_run-Balanced k e [] l v = (v, omega arith)
sem_run-Balanced k e (c ∷ cs) l v =
    let (idle, first) = sem_step-Balanced k e c l v in
    let (idle', rest) = sem_run-Balanced k e cs (sem_step k e c l) idle in (idle', omega arith)

-- Over any sequence of accepts and posts on a semaphore that no task waits for, the count that is left
-- and the units taken are together the first count and the units given: none is lost or made up, and
-- the count stays a uint16_t. An accept takes a unit if it answers more than 0, and a post gives one if
-- it answers 0.
pub sem_run_balance :
    (k : Kernel) (e : ℕ) (calls : List SemCall) (s : Os)
    → IsIdle e s
    → let l = sem_run k e calls (record { os = s; taken = 0; given = 0 }) in
      ((event_at l.os e).event_cnt + l.taken ≡ (event_at s e).event_cnt + l.given)
      × ((event_at l.os e).event_cnt < 65536)
sem_run_balance k e calls s v =
    let (idle, balance) = sem_run-Balanced k e calls (record { os = s; taken = 0; given = 0 }) v in
    (omega arith, idle.cnt_in)

-- Where an accept would take a unit, a pend outside an interrupt leaves the same state and reports no
-- error.
pub os_sem_pend-accept :
    (k : Kernel) (e timeout : ℕ) (s : Os)
    → s.int_nesting ≡ 0
    → 0 < (os_sem_accept (some e) s).1
    → os_sem_pend k true (some e) timeout s ≡ ((os_sem_accept (some e) s).0, some 0)
unfolding os_sem_pend os_sem_accept
os_sem_pend-accept k e timeout s task units = ground arith
