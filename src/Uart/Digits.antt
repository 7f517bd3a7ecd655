-- ===== src/Uart/Digits.antt =====
-- What bsp/uart.c prints for a number reads back as that number.
use native.Mathlib.Nat.{pow-suc, mod-eq-sub-div-mul, div-mul-le_self, div-div-eq-div-mul}
use ucosii_arm64_qemu.Prelude.{
  ℕ, zero, suc, ◌+◌, ◌-◌, ◌*◌, ◌/◌, ◌%◌, ◌^◌, ◌<◌, ◌≡◌, ◌∙◌, refl, sym, ap, true, false, List, [],
  ◌∷◌, ◌++◌, Bool, ltb, leb, ◌&&◌, ◌==◌, if◌then◌else◌, arith, Bool-cases, inl, inr,
}
use ucosii_arm64_qemu.Uart.{
  uart_putc, hex_digit, write_hex, uart_write_hex, fill_digits, put_back, uart_write_dec,
}

-- Reading a text: each character is a digit of the base behind what was read so far.
unfoldable pub digit_value : ℕ → ℕ
digit_value c = if ltb c 58 then c - 48 else c - 55

unfoldable pub read_number : ℕ → ℕ → List ℕ → ℕ
unfolding digit_value
read_number base sofar [] = sofar
read_number base sofar (c ∷ text) = read_number base (sofar * base + digit_value c) text

read_number-append :
    (base : ℕ) (s t : List ℕ) (sofar : ℕ)
    → read_number base sofar (s ++ t) ≡ read_number base (read_number base sofar s) t
unfolding read_number
read_number-append base [] t sofar = refl
read_number-append base (c ∷ s) t sofar = read_number-append base s t (sofar * base + digit_value c)

-- A digit is one character, and no line feed.
put_digit :
    (base sofar d : ℕ) → d < 10 → read_number base sofar (uart_putc (48 + d)) ≡ sofar * base + d
unfolding read_number digit_value uart_putc
put_digit base sofar d small =
    let plain : (48 + d == 10) ≡ false = ground arith in
    let low : ltb (48 + d) 58 ≡ true = ground arith in
    rw (plain, low) (ap (λ x. sofar * base + x) (omega arith))

fill_digits_value :
    (room value : ℕ)
    → value < 10 ^ room
    → read_number 10 0 (put_back (fill_digits room value)) ≡ value
unfolding fill_digits put_back read_number
fill_digits_value zero value small = omega arith
fill_digits_value (suc room) value small = elim (Bool-cases (ltb 0 value)) [
  | inr nothing ↦ rw nothing (ground arith)
  | inl more ↦ rw more (
      read_number-append 10 (put_back (fill_digits room (value / 10))) (uart_putc (48 + value % 10))
        0
      ∙ ap (λ x. read_number 10 x (uart_putc (48 + value % 10)))
          (fill_digits_value room (value / 10) (let step = pow-suc 10 room in omega arith))
      ∙ put_digit 10 (value / 10) (value % 10) (omega arith)
      ∙ omega arith)
]

-- Printed in decimal, a number below 2^32 reads back as itself: the sixteen bytes hold all its digits.
pub uart_write_dec_value :
    (value : ℕ) → value < 2 ^ 32 → read_number 10 0 (uart_write_dec value) ≡ value
unfolding uart_write_dec
uart_write_dec_value value small = elim (Bool-cases (value == 0)) [
  | inl nothing ↦ rw nothing (put_digit 10 0 0 (omega arith) ∙ ground arith)
  | inr more ↦ rw more (fill_digits_value 16 value (omega arith))
]

-- The characters 0 to 9.
abbrev pub are_digits : List ℕ → Bool
are_digits [] = true
are_digits (c ∷ text) = (leb 48 c && leb c 57) && are_digits text

are_digits-append :
    (s t : List ℕ) → are_digits s ≡ true → are_digits t ≡ true → are_digits (s ++ t) ≡ true
are_digits-append [] t a b = b
are_digits-append (c ∷ s) t a b = elim (Bool-cases (leb 48 c && leb c 57)) [
  | inl digit ↦ rw digit (are_digits-append s t (rw digit at a) b)
  | inr other ↦ absurd (let h = rw other at a in cc)
]

digit_is : (d : ℕ) → d < 10 → are_digits (uart_putc (48 + d)) ≡ true
unfolding uart_putc
digit_is d small =
    let plain : (48 + d == 10) ≡ false = ground arith in
    let low : leb 48 (48 + d) ≡ true = ground arith in
    let high : leb (48 + d) 57 ≡ true = ground arith in rw (plain, low, high) refl

fill_digits-digits : (room value : ℕ) → are_digits (put_back (fill_digits room value)) ≡ true
unfolding fill_digits put_back
fill_digits-digits zero value = refl
fill_digits-digits (suc room) value = elim (Bool-cases (ltb 0 value)) [
  | inr nothing ↦ rw nothing refl
  | inl more ↦ rw more (
      are_digits-append (put_back (fill_digits room (value / 10))) (uart_putc (48 + value % 10))
        (fill_digits-digits room (value / 10)) (digit_is (value % 10) (omega arith)))
]

-- What is printed in decimal is digits only.
pub uart_write_dec-digits : (value : ℕ) → are_digits (uart_write_dec value) ≡ true
unfolding uart_write_dec
uart_write_dec-digits value = elim (Bool-cases (value == 0)) [
  | inl nothing ↦ rw nothing (digit_is 0 (omega arith))
  | inr more ↦ rw more (fill_digits-digits 16 value)
]

put_hex : (sofar d : ℕ) → d < 16 → read_number 16 sofar (uart_putc (hex_digit d)) ≡ sofar * 16 + d
unfolding read_number digit_value uart_putc hex_digit
put_hex sofar d small = elim (Bool-cases (ltb d 10)) [
  | inl figure ↦
      let plain : (48 + d == 10) ≡ false = ground arith in
      let low : ltb (48 + d) 58 ≡ true = ground arith in
      rw (figure, plain, low) (ap (λ x. sofar * 16 + x) (omega arith))
  | inr letter ↦
      let plain : (55 + d == 10) ≡ false = ground arith in
      let high : ltb (55 + d) 58 ≡ false = ground arith in
      rw (letter, plain, high) (ap (λ x. sofar * 16 + x) (omega arith))
]

dist16 : (x y p : ℕ) → (x * 16 + y) * p ≡ x * (p * 16) + y * p
dist16 x y p = grind arith

-- A nibble more.
nibble_mod :
    (value p s : ℕ) → (s * 16 + value / p % 16) * p + value % p ≡ s * (p * 16) + value % (p * 16)
nibble_mod value p s =
    let whole = mod-eq-sub-div-mul value (p * 16) in
    let split = mod-eq-sub-div-mul value p in
    let within = div-mul-le_self value p in
    let within' = div-mul-le_self value (p * 16) in
    let quotient : value / (p * 16) ≡ value / p / 16 = sym (div-div-eq-div-mul value p 16) in
    let parts : value / p ≡ value / p / 16 * 16 + value / p % 16 = omega arith in
    let one = dist16 (value / p / 16) (value / p % 16) p in
    let two = dist16 s (value / p % 16) p in
    let spread : value / p * p ≡ (value / p / 16 * 16 + value / p % 16) * p =
      ap (λ x. x * p) parts in
    let same : value / (p * 16) * (p * 16) ≡ value / p / 16 * (p * 16) =
      ap (λ x. x * (p * 16)) quotient in
    omega arith

four_doublings : (n : ℕ) → 2 ^ (4 * n) * 16 ≡ 2 ^ (4 * suc n)
four_doublings n =
    let one = pow-suc 2 (4 * n) in
    let two = pow-suc 2 (suc (4 * n)) in
    let three = pow-suc 2 (suc (suc (4 * n))) in
    let four = pow-suc 2 (suc (suc (suc (4 * n)))) in
    let all : 2 ^ suc (suc (suc (suc (4 * n)))) ≡ 2 ^ (4 * suc n) = ap (λ k. 2 ^ k) (omega arith) in
    omega arith

write_hex_value :
    (n value sofar : ℕ)
    → read_number 16 sofar (write_hex n value) ≡ sofar * 2 ^ (4 * n) + value % 2 ^ (4 * n)
unfolding write_hex read_number
write_hex_value zero value sofar = omega arith
write_hex_value (suc n) value sofar =
    read_number-append 16 (uart_putc (hex_digit (value / 2 ^ (4 * n) % 16))) (write_hex n value)
      sofar
    ∙ ap (λ x. read_number 16 x (write_hex n value)) (put_hex sofar _ (omega arith))
    ∙ write_hex_value n value (sofar * 16 + value / 2 ^ (4 * n) % 16)
    ∙ nibble_mod value (2 ^ (4 * n)) sofar
    ∙ ap (λ p. sofar * p + value % p) (four_doublings n)

-- Printed in hexadecimal, a 64-bit number reads back as itself.
pub uart_write_hex_value :
    (value : ℕ) → value < 2 ^ 64 → read_number 16 0 (uart_write_hex value) ≡ value
unfolding uart_write_hex
uart_write_hex_value value small = write_hex_value 16 value 0 ∙ omega arith
