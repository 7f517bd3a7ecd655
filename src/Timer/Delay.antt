-- ===== src/Timer/Delay.antt =====
-- How long timer_delay_ms of bsp/timer.c waits.
use ucosii_arm64_qemu.Prelude.{
  ℕ, zero, suc, ◌+◌, ◌-◌, ◌*◌, ◌/◌, ◌%◌, ◌^◌, ◌≤◌, ◌<◌, ◌≡◌, refl, some, ltb, arith, Bool-cases,
  inl, inr,
}
use ucosii_arm64_qemu.Timer.{sub64, wait_count, timer_delay_ms}

-- The counter's reads: the time in the counter's ticks at each, which the 64 bits may wrap, never goes
-- back, and advances by less than 2^63 from one read to the next.
pub record Reads (time : ℕ → ℕ) (count : ℕ → ℕ) : Type 0 where
  pub wraps : (n : ℕ) → count n ≡ time n % 2 ^ 64
  pub forward : (n : ℕ) → time n ≤ time (suc n)
  pub gap : (n : ℕ) → time (suc n) < time n + 2 ^ 63

later : (time count : ℕ → ℕ) → Reads time count → (n : ℕ) → time 0 ≤ time n
later time count r zero = omega arith
later time count r (suc n) = omega (arith, later time count r n, r.forward n)

-- A difference below 2^64 is read right.
elapsed : (t t0 : ℕ) → t0 ≤ t → t < t0 + 2 ^ 64 → sub64 (t % 2 ^ 64) (t0 % 2 ^ 64) ≡ t - t0
elapsed t t0 h k = omega arith

wait_count-ends :
    (fuel : ℕ) (time count : ℕ → ℕ) (ticks n : ℕ)
    → Reads time count
    → ticks ≤ 2 ^ 63
    → time n < time 0 + ticks
    → time 0 + ticks ≤ time (n + fuel)
    → (m : ℕ) × (n ≤ m)
      × (m < n + fuel)
      × (wait_count fuel count (count 0) ticks (suc n) ≡ some (suc m))
      × (time m < time 0 + ticks)
      × (time 0 + ticks ≤ time (suc m))
unfolding wait_count
wait_count-ends zero time count ticks n r small before over =
    absurd (let e : n + 0 ≡ n = omega arith in let over' = rw e at over in omega arith)
wait_count-ends (suc fuel) time count ticks n r small before over =
    let read =
      elapsed (time (suc n)) (time 0) (later time count r (suc n)) (omega (arith, r.gap n)) in
    let seen : sub64 (count (suc n)) (count 0) ≡ time (suc n) - time 0 =
      rw (r.wraps (suc n), r.wraps 0) read in
    let e : n + suc fuel ≡ suc n + fuel = omega arith in
    elim (Bool-cases (ltb (sub64 (count (suc n)) (count 0)) ticks)) [
      | inr done ↦
          rw done
            (n, omega arith, omega arith, refl, before, ground (arith, later time count r (suc n)))
      | inl more ↦
          let (m, from, to, e, early, late) =
            wait_count-ends fuel time count ticks (suc n) r small
              (ground (arith, later time count r (suc n))) (rw e at over) in
          rw more (m, omega arith, omega arith, e, early, late)
    ]

-- The delay ends at the first read that is at least `freq / 1000 * ms` counter ticks after the one at its
-- start. These ticks are between 1 and 2^63, the counter never goes back and is read at least every
-- 2^63 ticks, and the fuel is enough for a read that late.
pub timer_delay_ms-waits :
    (fuel freq ms : ℕ) (time count : ℕ → ℕ)
    → Reads time count
    → freq / 1000 * ms ≤ 2 ^ 63
    → 0 < freq / 1000 * ms
    → time 0 + freq / 1000 * ms ≤ time fuel
    → (m : ℕ) × (m < fuel)
      × (timer_delay_ms fuel freq count ms ≡ some (suc m))
      × (time m < time 0 + freq / 1000 * ms)
      × (time 0 + freq / 1000 * ms ≤ time (suc m))
unfolding timer_delay_ms
timer_delay_ms-waits fuel freq ms time count r small pos over =
    let ticks : (freq / 1000 * ms) % 2 ^ 64 ≡ freq / 1000 * ms = omega arith in
    let at_fuel : 0 + fuel ≡ fuel = omega arith in
    let (m, from, to, e, early, late) =
      wait_count-ends fuel time count (freq / 1000 * ms) 0 r small (omega arith)
        (rw at_fuel over) in
    rw ticks (m, omega arith, e, early, late)
