-- ===== src/Uart/Tests.antt =====
-- The text for a number.
use ucosii_arm64_qemu.Prelude.{◌≡◌, refl, [], ◌∷◌}
use ucosii_arm64_qemu.Uart.{uart_write_dec, fill_digits, put_back, uart_putc}

written : uart_write_dec 507 ≡ 53 ∷ 48 ∷ 55 ∷ []
unfolding uart_write_dec fill_digits put_back uart_putc
written = refl
