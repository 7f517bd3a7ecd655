-- ===== src/Uart.antt =====
-- The number printing of bsp/uart.c. A character that is sent is an element of the result; the wait
-- for the transmit buffer is left out.
pub mod Digits
mod Tests
use ucosii_arm64_qemu.Prelude.{
  ℕ, zero, suc, ◌+◌, ◌-◌, ◌*◌, ◌/◌, ◌%◌, ◌^◌, Bool, true, false, List, [], ◌∷◌, ◌++◌, ltb, ◌==◌,
  ◌&&◌, if◌then◌else◌,
}

-- A line feed is sent behind a carriage return.
unfoldable pub uart_putc : ℕ → List ℕ
uart_putc c = if c == 10 then 13 ∷ c ∷ [] else c ∷ []

-- A string up to its zero byte.
unfoldable pub uart_puts : List ℕ → List ℕ
uart_puts [] = []
uart_puts (c ∷ s) = let rest = uart_puts s in if c == 0 then [] else uart_putc c ++ rest

-- `digits[nibble]`
unfoldable pub hex_digit : ℕ → ℕ
hex_digit nibble = if ltb nibble 10 then 48 + nibble else 55 + nibble

-- The loop with `n` nibbles left; the shift is four times `n - 1`.
unfoldable pub write_hex : ℕ → ℕ → List ℕ
unfolding uart_putc hex_digit
write_hex zero value = []
write_hex (suc n) value = uart_putc (hex_digit (value / 2 ^ (4 * n) % 16)) ++ write_hex n value

unfoldable pub uart_write_hex : ℕ → List ℕ
uart_write_hex value = write_hex 16 value

-- The digits in `buffer`, the last one first. The room left in the sixteen bytes is the fuel.
unfoldable pub fill_digits : ℕ → ℕ → List ℕ
fill_digits zero value = []
fill_digits (suc room) value =
    let rest = fill_digits room (value / 10) in if ltb 0 value then (48 + value % 10) ∷ rest else []

-- The buffer from its end to its start.
unfoldable pub put_back : List ℕ → List ℕ
unfolding uart_putc
put_back [] = []
put_back (c ∷ buffer) = put_back buffer ++ uart_putc c

unfoldable pub uart_write_dec : ℕ → List ℕ
unfolding fill_digits put_back uart_putc
uart_write_dec value = if value == 0 then uart_putc 48 else put_back (fill_digits 16 value)
