-- ===== src/Sem/Tests.antt =====
-- A semaphore at work, and each theorem at an input that meets its hypotheses.
use ucosii_arm64_qemu.Prelude.{◌+◌, ◌<◌, ◌≡◌, refl, [], ◌∷◌, arith}
use ucosii_arm64_qemu.Sem.{Os, Kernel, event_at}
use ucosii_arm64_qemu.Sem.Count.{IsIdle, SemCall, sem_run, sem_run_balance}

-- One semaphore with two units.
abbrev two_units : Os
two_units = record {
  int_nesting = 0;
  event_free_list = [];
  events = record { event_type = 3; event_cnt = 2; event_grp = 0 } ∷ [];
  tcb_stat = 0;
  tcb_stat_pend = 0;
  tcb_dly = 0;
}

-- A kernel that has nothing else to run.
abbrev alone : Kernel
alone = record {
  event_wait_list_init = λ e s. s;
  event_task_wait = λ e s. s;
  event_task_rdy = λ e s. s;
  event_task_remove = λ e s. s;
  sched = λ s. s;
}

two_units-IsIdle : IsIdle 0 two_units
two_units-IsIdle = record {
  exists = omega arith;
  is_sem = refl;
  no_waiter = refl;
  cnt_in = omega arith;
}

sem_run_balance_example :
    let l =
      sem_run alone 0
        (SemCall.accept ∷ SemCall.post ∷ SemCall.accept ∷ [])
        (record { os = two_units; taken = 0; given = 0 }) in
    ((event_at l.os 0).event_cnt + l.taken ≡ 2 + l.given) × ((event_at l.os 0).event_cnt < 65536)
sem_run_balance_example =
    sem_run_balance alone 0 (SemCall.accept ∷ SemCall.post ∷ SemCall.accept ∷ []) two_units
      two_units-IsIdle
