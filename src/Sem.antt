-- ===== src/Sem.antt =====
-- The semaphores of ucosii/source/os_sem.c. The kernel that they call is a parameter, and so is what
-- other tasks do while the scheduler runs them.
pub mod Count
mod Tests
use ucosii_arm64_qemu.Prelude.{
  ℕ, ◌+◌, ◌-◌, Bool, true, false, Option, none, some, List, [], ◌∷◌, ltb, ◌==◌, not, if◌then◌else◌,
  get_or, set, u16, bit_and, bit_or,
}

-- The fields of `OS_EVENT` that the file uses, of the current task's `OS_TCB`, and the globals. An
-- event is named by its number; `OSEventFreeList` with its links is a list of numbers.
pub record Event : Type 0 where
  pub event_type : ℕ
  pub event_cnt : ℕ
  pub event_grp : ℕ

pub record Os : Type 0 where
  pub int_nesting : ℕ
  pub event_free_list : List ℕ
  pub events : List Event
  pub tcb_stat : ℕ
  pub tcb_stat_pend : ℕ
  pub tcb_dly : ℕ

-- OS_EventWaitListInit, OS_EventTaskWait, OS_EventTaskRdy, OS_EventTaskRemove and OS_Sched. The
-- current task is running again when OS_Sched returns.
pub record Kernel : Type 0 where
  pub event_wait_list_init : ℕ → Os → Os
  pub event_task_wait : ℕ → Os → Os
  pub event_task_rdy : ℕ → Os → Os
  pub event_task_remove : ℕ → Os → Os
  pub sched : Os → Os

abbrev pub no_event : Event
no_event = record { event_type = 0; event_cnt = 0; event_grp = 0 }

abbrev pub event_at : Os → ℕ → Event
event_at s e = get_or s.events e no_event

abbrev pub set_cnt : ℕ → ℕ → Os → Os
set_cnt e cnt s = record s { events = set s.events e (record (event_at s e) { event_cnt = cnt }) }

unfoldable pub os_sem_create : Kernel → ℕ → Os → Os × Option ℕ
os_sem_create k cnt s = if ltb 0 s.int_nesting then (s, none) else elim s.event_free_list [
  | [] ↦ (s, none)
  | e ∷ rest ↦ (
    k.event_wait_list_init e (record s {
      event_free_list = rest;
      events = set s.events e (record (event_at s e) { event_type = 3; event_cnt = cnt });
    }),
    some e,
  )
]

unfoldable pub os_sem_accept : Option ℕ → Os → Os × ℕ
os_sem_accept none s = (s, 0)
os_sem_accept (some e) s =
    let cnt = (event_at s e).event_cnt in
    if not ((event_at s e).event_type == 3)
    then (s, 0)
    else if ltb 0 cnt
    then (set_cnt e (cnt - 1) s, cnt)
    else (s, 0)

-- The task is awake again: the reason is in `OSTCBStatPend`.
unfoldable pub woken : Kernel → ℕ → Os → Os × Option ℕ
woken k e s =
    let removed = k.event_task_remove e s in
    if s.tcb_stat_pend == 0
    then (record s { tcb_stat = bit_and s.tcb_stat 200; tcb_stat_pend = 0 }, some 0)
    else (
      record removed { tcb_stat = bit_and removed.tcb_stat 200; tcb_stat_pend = 0 },
      some (if removed.tcb_stat_pend == 1 then 10 else 14),
    )

-- The error is `none` where `perr` is NULL.
unfoldable pub os_sem_pend : Kernel → Bool → Option ℕ → ℕ → Os → Os × Option ℕ
unfolding woken
os_sem_pend k false pevent timeout s = (s, none)
os_sem_pend k true none timeout s = (s, some 4)
os_sem_pend k true (some e) timeout s =
    let cnt = (event_at s e).event_cnt in
    let waiting = record s {
      tcb_stat = bit_or s.tcb_stat 1;
      tcb_stat_pend = 0;
      tcb_dly = timeout;
    } in
    if not ((event_at s e).event_type == 3)
    then (s, some 1)
    else if ltb 0 s.int_nesting
    then (s, some 2)
    else if ltb 0 cnt
    then (set_cnt e (cnt - 1) s, some 0)
    else woken k e (k.sched (k.event_task_wait e waiting))

unfoldable pub os_sem_post : Kernel → Option ℕ → Os → Os × ℕ
os_sem_post k none s = (s, 4)
os_sem_post k (some e) s =
    let cnt = (event_at s e).event_cnt in
    if not ((event_at s e).event_type == 3)
    then (s, 1)
    else if not ((event_at s e).event_grp == 0)
    then (k.sched (k.event_task_rdy e s), 0)
    else if ltb cnt 65535
    then (set_cnt e (u16 (cnt + 1)) s, 0)
    else (s, 51)
