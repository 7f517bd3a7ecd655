-- ===== src/Net/Halves.antt =====
-- The sums of the TCP and UDP checksum of src/net_demo.c: the little-endian words of a segment and of its
-- pseudo header.
use ucosii_arm64_qemu.Prelude.{
  ℕ, zero, suc, ◌+◌, ◌*◌, ◌/◌, ◌%◌, ◌^◌, ◌≤◌, ◌<◌, ◌≡◌, refl, ◌==◌, if◌then◌else◌, u16, u32, arith,
}
use ucosii_arm64_qemu.Bytes.{Memory, load16, store, store16}
use ucosii_arm64_qemu.Bytes.Laws.{util_htons_lem}
use ucosii_arm64_qemu.Net.Checksum.{sum_transport, pseudo_sum}
use ucosii_arm64_qemu.Net.Verify.{AreBytes}
use ucosii_arm64_qemu.Net.Header.{htons_bound}

-- The sum of the little-endian words of a region, without a wrap.
abbrev pub half_sum : Memory → ℕ → ℕ → ℕ
half_sum m i zero = 0
half_sum m i (suc zero) = m i
half_sum m i (suc (suc length)) = m i + m (suc i) * 256 + half_sum m (suc (suc i)) length

pub half_sum_bound : (m : Memory) (i n : ℕ) → AreBytes m → half_sum m i n ≤ n * 32768
half_sum_bound m i zero b = omega arith
half_sum_bound m i (suc zero) b = omega (arith, b i)
half_sum_bound m i (suc (suc n)) b =
    omega (arith, b i, b (suc i), half_sum_bound m (suc (suc i)) n b)

-- Below the wrap the loop adds the words up.
pub sum_transport-eq :
    (m : Memory) (i n sum : ℕ)
    → AreBytes m
    → sum + n * 32768 < 2 ^ 32
    → sum_transport m i n sum ≡ sum + half_sum m i n
unfolding sum_transport load16
sum_transport-eq m i zero sum b h = omega arith
sum_transport-eq m i (suc zero) sum b h =
    omega (arith, b i, util_htons_lem (u16 (m i * 256)) (omega arith))
sum_transport-eq m i (suc (suc n)) sum b h =
    let fits : u32 (sum + (m i + m (suc i) * 256)) ≡ sum + (m i + m (suc i) * 256) =
      omega (arith, b i, b (suc i)) in
    rw fits (
      omega (
        arith,
        b i,
        b (suc i),
        sum_transport-eq m (suc (suc i)) n (sum + (m i + m (suc i) * 256)) b
            (omega (arith, b i, b (suc i))),
      ))

-- A stored word, byte for byte.
pub store16_le :
    (m : Memory) (a v j : ℕ)
    → v < 65536
    → store16 m a v j ≡ (if a == j then v % 256 else if suc a == j then v / 256 else m j)
unfolding store16 store
store16_le m a v j h = ground arith

pub store16_zero : (m : Memory) (a : ℕ) → (store16 m a 0 a ≡ 0) × (store16 m a 0 (suc a) ≡ 0)
store16_zero m a = (
  ground (arith, store16_le m a 0 a (omega arith)),
  ground (arith, store16_le m a 0 (suc a) (omega arith)),
)

half_sum_after :
    (m : Memory) (i n a v : ℕ)
    → v < 65536
    → a + 2 ≤ i
    → half_sum (store16 m a v) i n ≡ half_sum m i n
half_sum_after m i zero a v h k = refl
half_sum_after m i (suc zero) a v h k = ground (arith, store16_le m a v i h)
half_sum_after m i (suc (suc n)) a v h k =
    let rest = half_sum_after m (suc (suc i)) n a v h (omega arith) in
    let low : store16 m a v i ≡ m i = ground (arith, store16_le m a v i h) in
    let high : store16 m a v (suc i) ≡ m (suc i) = ground (arith, store16_le m a v (suc i) h) in
    omega arith

-- A zero word that is replaced adds what was written.
pub half_sum-store :
    (m : Memory) (i n j a v : ℕ)
    → v < 65536
    → a ≡ i + j * 2
    → a + 2 ≤ i + n
    → m a ≡ 0
    → m (suc a) ≡ 0
    → half_sum (store16 m a v) i n ≡ half_sum m i n + v
half_sum-store m i zero j a v h e k z z' = absurd (omega arith)
half_sum-store m i (suc zero) j a v h e k z z' = absurd (omega arith)
half_sum-store m i (suc (suc n)) zero a v h e k z z' =
    let here : a ≡ i = omega arith in
    let rest = half_sum_after m (suc (suc i)) n a v h (omega arith) in
    let low : store16 m a v i ≡ v % 256 = ground (arith, store16_le m a v i h) in
    let high : store16 m a v (suc i) ≡ v / 256 = ground (arith, store16_le m a v (suc i) h) in
    let was : m i ≡ 0 = rw⁻¹ here z in let was' : m (suc i) ≡ 0 = rw⁻¹ here z' in omega arith
half_sum-store m i (suc (suc n)) (suc j) a v h e k z z' =
    let rest = half_sum-store m (suc (suc i)) n j a v h (omega arith) (omega arith) z z' in
    let low : store16 m a v i ≡ m i = ground (arith, store16_le m a v i h) in
    let high : store16 m a v (suc i) ≡ m (suc i) = ground (arith, store16_le m a v (suc i) h) in
    omega arith

-- The pseudo header stands before the transport header.
pub pseudo_sum-store :
    (m : Memory) (n a v : ℕ)
    → v < 65536
    → 34 ≤ a
    → pseudo_sum (store16 m a v) 14 n ≡ pseudo_sum m 14 n
unfolding pseudo_sum load16
pseudo_sum-store m n a v h k =
    let same = λ (j : ℕ). store16_le m a v j h in
    let e23 : store16 m a v 23 ≡ m 23 = ground (arith, same 23) in
    let e26 : store16 m a v 26 ≡ m 26 = ground (arith, same 26) in
    let e27 : store16 m a v 27 ≡ m 27 = ground (arith, same 27) in
    let e28 : store16 m a v 28 ≡ m 28 = ground (arith, same 28) in
    let e29 : store16 m a v 29 ≡ m 29 = ground (arith, same 29) in
    let e30 : store16 m a v 30 ≡ m 30 = ground (arith, same 30) in
    let e31 : store16 m a v 31 ≡ m 31 = ground (arith, same 31) in
    let e32 : store16 m a v 32 ≡ m 32 = ground (arith, same 32) in
    let e33 : store16 m a v 33 ≡ m 33 = ground (arith, same 33) in
    rw (e23, e26, e27, e28, e29, e30, e31, e32, e33) refl

pub pseudo_sum_bound : (m : Memory) (n : ℕ) → AreBytes m → pseudo_sum m 14 n ≤ 393210
unfolding pseudo_sum load16
pseudo_sum_bound m n b =
    omega (
      arith,
      b 26,
      b 27,
      b 28,
      b 29,
      b 30,
      b 31,
      b 32,
      b 33,
      htons_bound (m 23),
      htons_bound (u16 n),
    )
