-- ===== src/Prelude/Words.antt =====
-- Machine words as native numbers: every addition and subtraction writes out its wrap.
use Prim.Native.Nat.{
  ℕ, zero, suc, ◌+◌, ◌-◌, ◌*◌, ◌/◌, ◌%◌, ◌^◌, ◌≤◌, ◌<◌, min, max, bit_and, bit_or, digits,
  bit_and-bitwise, bit_or-bitwise,
}
use mathlib.Core.Path.{◌≡◌, refl}
use native.Mathlib.Omega.{arith}

abbrev pub u8 : ℕ → ℕ
u8 n = n % 256

abbrev pub u16 : ℕ → ℕ
u16 n = n % 65536

abbrev pub u32 : ℕ → ℕ
u32 n = n % 2 ^ 32

-- `a - b` on uint16_t and on uint32_t, for operands in range.
abbrev pub sub16 : ℕ → ℕ → ℕ
sub16 a b = (a + 65536 - b) % 65536

abbrev pub sub32 : ℕ → ℕ → ℕ
sub32 a b = (a + 2 ^ 32 - b) % 2 ^ 32

-- A mask of `k` ones, and the `k` lowest bits of a number, each built from the lowest bit up.
abbrev mask : ℕ → ℕ
mask zero = 0
mask (suc k) = mask k * 2 + 1

abbrev low : ℕ → ℕ → ℕ
low zero a = 0
low (suc k) a = low k (a / 2) * 2 + a % 2

-- The digit recursion under `&` takes the low bits, whatever larger count of digits it runs through.
digits-mask : (k count a : ℕ) → a ≤ count → digits (λ _. zero) min count a (mask k) ≡ low k a
digits-mask zero zero a h = refl
digits-mask zero (suc count) zero h = refl
digits-mask zero (suc count) (suc a) h =
    omega (arith, digits-mask zero count (suc a / 2) (omega arith))
digits-mask (suc k) zero zero h = omega (arith, digits-mask k zero zero h)
digits-mask (suc k) zero (suc a) h = absurd (omega arith)
digits-mask (suc k) (suc count) zero h = omega (arith, digits-mask k (suc count) zero h)
digits-mask (suc k) (suc count) (suc a) h =
    let half : (mask k * 2 + 1) / 2 ≡ mask k = omega arith in
    rw half (omega (arith, digits-mask k count (suc a / 2) (omega arith)))

-- `x & 15` and `x & 127` are the remainders by 16 and by 128.
pub bit_and_15 : (a : ℕ) → bit_and a 15 ≡ a % 16
bit_and_15 a = omega (arith, bit_and-bitwise a 15, digits-mask 4 a a (omega arith))

pub bit_and_127 : (a : ℕ) → bit_and a 127 ≡ a % 128
bit_and_127 a = omega (arith, bit_and-bitwise a 127, digits-mask 7 a a (omega arith))

pub bit_and_1023 : (a : ℕ) → bit_and a 1023 ≡ a % 1024
bit_and_1023 a = omega (arith, bit_and-bitwise a 1023, digits-mask 10 a a (omega arith))

-- A number moved up by `k` bits, and the space below it.
abbrev moved : ℕ → ℕ → ℕ
moved zero a = a
moved (suc k) a = moved k a * 2

abbrev space : ℕ → ℕ
space zero = 1
space (suc k) = space k * 2

digits_or_zero : (count a : ℕ) → a ≤ count → digits (λ b. b) max count a 0 ≡ a
digits_or_zero zero zero h = refl
digits_or_zero zero (suc a) h = absurd (omega arith)
digits_or_zero (suc count) zero h = refl
digits_or_zero (suc count) (suc a) h = omega (arith, digits_or_zero count (suc a / 2) (omega arith))

-- Where the bits do not meet, `|` is addition.
digits-moved :
    (k count a b : ℕ)
    → moved k a ≤ count
    → b < space k
    → digits (λ y. y) max count (moved k a) b ≡ moved k a + b
digits-moved zero count a zero h l = omega (arith, digits_or_zero count a h)
digits-moved zero count a (suc b) h l = absurd (omega arith)
digits-moved (suc k) count a b h l =
    digits_step count (moved k a) b h (λ n le. digits-moved k n a (b / 2) le (omega arith))
  where
    digits_step :
        (count x b : ℕ)
        → x * 2 ≤ count
        → ((n : ℕ) → x ≤ n → digits (λ y. y) max n x (b / 2) ≡ x + b / 2)
        → digits (λ y. y) max count (x * 2) b ≡ x * 2 + b
    digits_step zero zero b h rest = omega arith
    digits_step zero (suc x) b h rest = absurd (omega arith)
    digits_step (suc count) zero b h rest = omega arith
    digits_step (suc count) (suc x) b h rest =
        let peeled : suc x * 2 ≡ suc (x * 2 + 1) = omega arith in
        let half : suc (x * 2 + 1) / 2 ≡ suc x = omega arith in
        let even : suc (x * 2 + 1) % 2 ≡ 0 = omega arith in
        rw (peeled, half, even) (omega (arith, rest count (omega arith)))

pub bit_or_256 : (a b : ℕ) → b < 256 → bit_or (a * 256) b ≡ a * 256 + b
bit_or_256 a b h =
    let up : moved 8 a ≡ a * 256 = omega arith in
    rw (← up) (
      omega (
        arith,
        bit_or-bitwise (moved 8 a) b,
        digits-moved 8 (moved 8 a) a b (omega arith) (omega arith),
      ))
