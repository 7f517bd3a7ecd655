-- ===== src/Timer/Tests.antt =====
-- The tick of bsp/bsp_os.c and the delay of bsp/timer.c, run.
use ucosii_arm64_qemu.Prelude.{
  ℕ, suc, ◌+◌, ◌*◌, ◌%◌, ◌^◌, ◌≤◌, ◌<◌, ◌≡◌, refl, true, some, arith, replicate,
}
use ucosii_arm64_qemu.Timer.{timer_delay_ms, wait_count}
use ucosii_arm64_qemu.Timer.Delay.{Reads, timer_delay_ms-waits}
use ucosii_arm64_qemu.Timer.Ticks.{
  control, deadlines, masked_loads, ShowsSeconds, repeated, run, tmr_tick_run,
}

-- Each read of the counter is one tick after the last; two ticks are a millisecond.
abbrev steady : ℕ → ℕ
steady n = n % 2 ^ 64

steady-Reads : Reads (λ n. n) steady
steady-Reads = record { wraps = λ n. refl; forward = λ n. omega arith; gap = λ n. omega arith }

waited : timer_delay_ms 6 2000 steady 3 ≡ some 6
unfolding timer_delay_ms wait_count
waited = refl

timer_delay_ms-waits_example :
    (m : ℕ) × (m < 6)
    × (timer_delay_ms 6 2000 steady 3 ≡ some (suc m))
    × (m < 0 + 6)
    × (0 + 6 ≤ suc m)
timer_delay_ms-waits_example =
    timer_delay_ms-waits 6 2000 3 (λ n. n) steady steady-Reads (omega arith) (omega arith)
      (omega arith)

-- A second at 1000 Hz with a 62.5 MHz counter.
tmr_tick_run_example :
    let s = run suc 62500000 1000 1000 0 in
    (s.kernel ≡ repeated suc 1000 0)
    × ShowsSeconds 1 s.console
    × (control s.writes ≡ 1)
    × (masked_loads s.writes ≡ true)
    × ((reload : ℕ) × (deadlines s.writes ≡ replicate 1001 reload)
        × (reload * 1000 ≤ 62500000)
        × (62500000 < reload * 1000 + 1000))
tmr_tick_run_example =
    tmr_tick_run suc 62500000 1000 1000 0 (omega arith) (omega arith) (omega arith) (omega arith)
