-- ===== src/Timer/Ticks.antt =====
-- What the tick of bsp/bsp_os.c has done after any number of timer interrupts.
use native.Mathlib.Nat.{div-mul-le_self, lt-div-mul-add}
use ucosii_arm64_qemu.Prelude.{
  ℕ, zero, suc, ◌+◌, ◌*◌, ◌/◌, ◌%◌, ◌^◌, ◌≤◌, ◌<◌, ◌≡◌, refl, ap, Bool, true, false, List, [], ◌∷◌,
  ◌++◌, ◌==◌, if◌then◌else◌, arith, u32, sym, subst, replicate, Bool-cases, inl, inr,
}
use ucosii_arm64_qemu.Uart.{uart_putc, uart_puts, uart_write_dec}
use ucosii_arm64_qemu.Uart.Digits.{
  are_digits, read_number, uart_write_dec_value, uart_write_dec-digits,
}
use ucosii_arm64_qemu.Timer.{
  TimerWrite, BspOs, virt_timer_reload, tick_line, tmr_tick_handler, init_reload, tmr_tick_init,
}

-- The registers after the writes: the control register, and the deadlines that were set.
unfoldable pub control : List TimerWrite → ℕ
control [] = 0
control (TimerWrite.cntv_tval v ∷ w) = control w
control (TimerWrite.cntv_ctl v ∷ w) = v

unfoldable pub deadlines : List TimerWrite → List ℕ
deadlines [] = []
deadlines (TimerWrite.cntv_tval v ∷ w) = v ∷ deadlines w
deadlines (TimerWrite.cntv_ctl v ∷ w) = deadlines w

-- The timer's interrupt is masked (bit 1 of its control register) whenever a deadline is set.
unfoldable pub masked_loads : List TimerWrite → Bool
unfolding control
masked_loads [] = true
masked_loads (TimerWrite.cntv_tval v ∷ w) =
    let rest = masked_loads w in if control w == 3 then rest else false
masked_loads (TimerWrite.cntv_ctl v ∷ w) = masked_loads w

-- The lines for the first seconds.
unfoldable pub seconds_text : ℕ → List ℕ
seconds_text zero = []
seconds_text (suc k) = seconds_text k ++ tick_line (suc k)

-- The independent description of the console: one line for each second, "[TICK] ", the decimal digits
-- of its number, "s" and the line's end. The characters are given by their codes.
pub data ShowsSeconds : ℕ → List ℕ → Type 0 where
  nothing_yet : ShowsSeconds 0 []
  another :
      (k : ℕ) (text digits : List ℕ)
      → ShowsSeconds k text
      → are_digits digits ≡ true
      → read_number 10 0 digits ≡ suc k
      → ShowsSeconds
          (suc k)
          (text ++ (91 ∷ 84 ∷ 73 ∷ 67 ∷ 75 ∷ 93 ∷ 32 ∷ (digits ++ (115 ∷ 13 ∷ 10 ∷ []))))

seconds_text-ShowsSeconds : (k : ℕ) → k < 2 ^ 32 → ShowsSeconds k (seconds_text k)
unfolding seconds_text tick_line uart_puts uart_putc
seconds_text-ShowsSeconds zero small = ShowsSeconds.nothing_yet
seconds_text-ShowsSeconds (suc k) small =
    ShowsSeconds.another k _ (uart_write_dec (suc k)) (seconds_text-ShowsSeconds k (omega arith))
      (uart_write_dec-digits (suc k)) (uart_write_dec_value (suc k) small)

unfoldable pub repeated {ℓ} : {K : Type ℓ} → (K → K) → ℕ → K → K
repeated f zero k = k
repeated f (suc n) k = f (repeated f n k)

-- The static variables at the start.
abbrev pub at_reset {ℓ} : {K : Type ℓ} → K → BspOs K
at_reset k = record { tmr_reload = 0; tick_count = 0; writes = []; console = []; kernel = k }

seconds_text-step :
    (n : ℕ)
    → (if suc n % 1000 == 0
        then seconds_text (n / 1000) ++ tick_line (suc n / 1000)
        else seconds_text (n / 1000))
      ≡ seconds_text (suc n / 1000)
unfolding seconds_text
seconds_text-step n = elim (Bool-cases (suc n % 1000 == 0)) [
  | inl full ↦ let up : suc n / 1000 ≡ suc (n / 1000) = ground arith in rw (full, up) refl
  | inr not_yet ↦ let same : suc n / 1000 ≡ n / 1000 = ground arith in rw (not_yet, same) refl
]

init_reload_rate :
    (freq rate : ℕ)
    → 0 < rate
    → rate ≤ freq
    → freq < 2 ^ 32
    → (init_reload freq rate ≡ freq / rate) × (0 < freq / rate)
unfolding init_reload
init_reload_rate freq rate pos slow small =
    let word : u32 freq ≡ freq = omega arith in
    let given : (rate == 0) ≡ false = ground arith in
    let below = lt-div-mul-add {a = freq} pos in
    elim (Bool-cases (freq / rate == 0)) [
      | inl over ↦ absurd (
          let zero_is : freq / rate ≡ 0 = ground arith in
          let b = rw zero_is at below in omega arith)
      | inr left ↦ rw (word, given, left) (refl, ground arith)
    ]

module _ {ℓ} {K : Type ℓ} (os_time_tick : K → K) where
  -- After the set-up and `n` interrupts.
  abbrev pub run : ℕ → ℕ → ℕ → K → BspOs K
  run freq tick_rate n k =
      repeated (tmr_tick_handler os_time_tick) n (tmr_tick_init freq tick_rate (at_reset k))

  record Ran (reload n : ℕ) (k : K) (s : BspOs K) : Type ℓ where
    same : s.tmr_reload ≡ reload
    kernel : s.kernel ≡ repeated os_time_tick n k
    tick_count : s.tick_count ≡ n
    console : s.console ≡ seconds_text (n / 1000)
    enabled : control s.writes ≡ 1
    masked : masked_loads s.writes ≡ true
    loads : deadlines s.writes ≡ replicate (suc n) reload

  handler-Ran :
      (reload n : ℕ) (k : K) (s : BspOs K)
      → 0 < reload
      → suc n < 2 ^ 32
      → Ran reload n k s
      → Ran reload (suc n) k (tmr_tick_handler os_time_tick s)
  unfolding tmr_tick_handler virt_timer_reload control masked_loads deadlines repeated
  handler-Ran reload n k s pos small r =
      let counted : u32 (s.tick_count + 1) ≡ suc n = rw r.tick_count (omega arith) in
      let active : (s.tmr_reload == 0) ≡ false = rw r.same (ground arith) in
      rw (counted, active)
        (record {
          same = r.same;
          kernel = ap os_time_tick r.kernel;
          tick_count = refl;
          console = rw r.console (seconds_text-step n);
          enabled = refl;
          masked = r.masked;
          loads = rw (r.same, r.loads) refl;
        })

  run-Ran :
      (freq tick_rate n : ℕ) (k : K)
      → n < 2 ^ 32
      → 0 < init_reload freq tick_rate
      → Ran (init_reload freq tick_rate) n k (run freq tick_rate n k)
  unfolding repeated tmr_tick_init virt_timer_reload control masked_loads deadlines seconds_text
  run-Ran freq tick_rate zero k small pos =
      let active : (init_reload freq tick_rate == 0) ≡ false = ground arith in
      rw active (record {
        same = refl;
        kernel = refl;
        tick_count = refl;
        console = refl;
        enabled = refl;
        masked = refl;
        loads = refl;
      })
  run-Ran freq tick_rate (suc n) k small pos =
      handler-Ran _ n k _ pos small (run-Ran freq tick_rate n k (omega arith) pos)

  -- After BSP_OS_TmrTickInit and `n` timer interrupts: OSTimeTick ran `n` times; the console shows the
  -- seconds 1 to `n` / 1000, in order, each on a line with its decimal digits; the timer is enabled and
  -- not masked; a deadline was set `n` + 1 times, always the same and always with the interrupt
  -- masked, and `tick_rate` times it is at most the timer's frequency and less than one rate below it.
  -- The rate is at least 1 and at most the frequency, which fits a uint32_t, and `n` is below 2^32.
  pub tmr_tick_run :
      (freq tick_rate n : ℕ) (k : K)
      → n < 2 ^ 32
      → 0 < tick_rate
      → tick_rate ≤ freq
      → freq < 2 ^ 32
      → let s = run freq tick_rate n k in
        (s.kernel ≡ repeated os_time_tick n k)
        × ShowsSeconds (n / 1000) s.console
        × (control s.writes ≡ 1)
        × (masked_loads s.writes ≡ true)
        × ((reload : ℕ) × (deadlines s.writes ≡ replicate (suc n) reload)
            × (reload * tick_rate ≤ freq)
            × (freq < reload * tick_rate + tick_rate))
  tmr_tick_run freq tick_rate n k few pos slow small =
      let (reload, slowest) = init_reload_rate freq tick_rate pos slow small in
      let r = run-Ran freq tick_rate n k few (rw reload slowest) in
      (
        r.kernel,
        subst (ShowsSeconds (n / 1000)) (sym r.console)
            (seconds_text-ShowsSeconds (n / 1000) (omega arith)),
        r.enabled,
        r.masked,
        (
          init_reload freq tick_rate,
          r.loads,
          rw reload (div-mul-le_self freq tick_rate),
          rw reload (lt-div-mul-add pos),
        ),
      )
