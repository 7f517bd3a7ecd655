-- ===== src/Timer.antt =====
-- The timer: bsp/timer.c and the tick of bsp/bsp_os.c. The timer's registers are the writes to them,
-- newest first; the counter's reads are an argument.
pub mod Delay
pub mod Ticks
mod Tests
use ucosii_arm64_qemu.Prelude.{
  ℕ, zero, suc, ◌+◌, ◌-◌, ◌*◌, ◌/◌, ◌%◌, ◌^◌, Option, none, some, List, [], ◌∷◌, ◌++◌, ltb, ◌==◌,
  if◌then◌else◌, u32,
}
use ucosii_arm64_qemu.Uart.{uart_putc, uart_puts, uart_write_dec}

pub data TimerWrite : Type 0 where
  cntv_tval : ℕ → TimerWrite
  cntv_ctl : ℕ → TimerWrite

-- `g_timer_reload` and the registers.
pub record SystemTimer : Type 0 where
  pub timer_reload : ℕ
  pub writes : List TimerWrite

-- `freq` is what cntfrq_el0 holds. A rate of 0 Hz divides by zero and is not modelled.
unfoldable pub timer_init : ℕ → ℕ → SystemTimer → SystemTimer
timer_init freq tick_hz t =
    let quotient = freq / tick_hz in
    let reload = if quotient == 0 then 1 else quotient in
    record {
      timer_reload = reload;
      writes =
          TimerWrite.cntv_ctl 1 ∷ TimerWrite.cntv_tval reload ∷ TimerWrite.cntv_ctl 0 ∷ t.writes;
    }

unfoldable pub timer_ack : SystemTimer → SystemTimer
timer_ack t = record t { writes = TimerWrite.cntv_tval t.timer_reload ∷ t.writes }

-- `a - b` on uint64_t.
abbrev pub sub64 : ℕ → ℕ → ℕ
sub64 a b = (a + 2 ^ 64 - b) % 2 ^ 64

-- The loop, from the `n`-th read of the counter on: the read that ends it, or `none` without fuel.
unfoldable pub wait_count : ℕ → (ℕ → ℕ) → ℕ → ℕ → ℕ → Option ℕ
wait_count zero count start ticks n = none
wait_count (suc fuel) count start ticks n =
    let rest = wait_count fuel count start ticks (suc n) in
    if ltb (sub64 (count n) start) ticks then rest else some n

unfoldable pub timer_delay_ms : ℕ → ℕ → (ℕ → ℕ) → ℕ → Option ℕ
unfolding wait_count
timer_delay_ms fuel freq count ms =
    let ticks = (freq / 1000 * ms) % 2 ^ 64 in wait_count fuel count (count 0) ticks 1

-- `BSP_OS_TmrReload`, the static `tick_count`, the registers, the console and the kernel's state.
pub record BspOs {ℓ} (K : Type ℓ) : Type ℓ where
  pub tmr_reload : ℕ
  pub tick_count : ℕ
  pub writes : List TimerWrite
  pub console : List ℕ
  pub kernel : K

-- Masked, reloaded, and enabled again.
unfoldable pub virt_timer_reload : ℕ → List TimerWrite → List TimerWrite
virt_timer_reload reload writes =
    if reload == 0
    then writes
    else TimerWrite.cntv_ctl 1 ∷ TimerWrite.cntv_tval reload ∷ TimerWrite.cntv_ctl 3 ∷ writes

-- "[TICK] ", the seconds, and "s\n".
unfoldable pub tick_line : ℕ → List ℕ
tick_line seconds =
    uart_puts (91 ∷ 84 ∷ 73 ∷ 67 ∷ 75 ∷ 93 ∷ 32 ∷ [])
    ++ uart_write_dec seconds
    ++ uart_puts (115 ∷ 10 ∷ [])

-- The first argument is OSTimeTick.
unfoldable pub tmr_tick_handler {ℓ} : {K : Type ℓ} → (K → K) → BspOs K → BspOs K
unfolding virt_timer_reload tick_line
tmr_tick_handler os_time_tick s =
    let tick_count = u32 (s.tick_count + 1) in
    record s {
      kernel = os_time_tick s.kernel;
      tick_count = tick_count;
      console =
          if tick_count % 1000 == 0 then s.console ++ tick_line (tick_count / 1000) else s.console;
      writes = virt_timer_reload s.tmr_reload s.writes;
    }

-- The messages to the console are left out here. The frequency is narrowed to uint32_t.
unfoldable pub init_reload : ℕ → ℕ → ℕ
init_reload freq tick_rate =
    let eff_rate = if tick_rate == 0 then 1000 else tick_rate in
    let quotient = u32 freq / eff_rate in if quotient == 0 then 1 else quotient

unfoldable pub tmr_tick_init {ℓ} : {K : Type ℓ} → ℕ → ℕ → BspOs K → BspOs K
unfolding virt_timer_reload init_reload
tmr_tick_init freq tick_rate s =
    let reload = init_reload freq tick_rate in
    record s { tmr_reload = reload; writes = virt_timer_reload reload s.writes }
