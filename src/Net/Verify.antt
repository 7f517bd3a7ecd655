-- ===== src/Net/Verify.antt =====
-- What the checksums of src/net_demo.c guarantee.
use ucosii_arm64_qemu.Prelude.{
  ℕ, zero, suc, ◌+◌, ◌-◌, ◌*◌, ◌/◌, ◌%◌, ◌^◌, ◌≤◌, ◌<◌, ◌≡◌, refl, u32, arith, ◌∙◌,
}
use ucosii_arm64_qemu.Bytes.{Memory, util_htons, store16}
use ucosii_arm64_qemu.Bytes.Laws.{store16_be}
use ucosii_arm64_qemu.Net.Checksum.{sum_words, fold_sum, checksum16}

abbrev pub AreBytes : Memory → Type 0
AreBytes m = (i : ℕ) → m i < 256

-- The sum of the big-endian words of a region, without a wrap.
abbrev pub word_sum : Memory → ℕ → ℕ → ℕ
word_sum m i zero = 0
word_sum m i (suc zero) = m i * 256
word_sum m i (suc (suc length)) = m i * 256 + m (suc i) + word_sum m (suc (suc i)) length

word_sum_bound : (m : Memory) (i n : ℕ) → AreBytes m → word_sum m i n ≤ n * 65280
word_sum_bound m i zero b = omega arith
word_sum_bound m i (suc zero) b = omega (arith, b i)
word_sum_bound m i (suc (suc n)) b =
    omega (arith, b i, b (suc i), word_sum_bound m (suc (suc i)) n b)

-- RFC 1071: a region is accepted if the one's complement sum of its big-endian words is all ones. That
-- sum is the remainder by 65535, with 65535 in place of 0 for a sum that is not 0.
abbrev pub IsAllOnes : ℕ → Type 0
IsAllOnes sum = (sum % 65535 ≡ 0) × (0 < sum)

-- Below the wrap the loop adds the words up.
sum_words-eq :
    (m : Memory) (i n sum : ℕ)
    → AreBytes m
    → sum + n * 65280 < 2 ^ 32
    → sum_words m i n sum ≡ sum + word_sum m i n
unfolding sum_words
sum_words-eq m i zero sum b h = omega arith
sum_words-eq m i (suc zero) sum b h = omega (arith, b i)
sum_words-eq m i (suc (suc n)) sum b h =
    let fits : u32 (sum + (m i * 256 + m (suc i))) ≡ sum + (m i * 256 + m (suc i)) =
      omega (arith, b i, b (suc i)) in
    rw fits (
      omega (
        arith,
        b i,
        b (suc i),
        sum_words-eq m (suc (suc i)) n (sum + (m i * 256 + m (suc i))) b
            (omega (arith, b i, b (suc i))),
      ))

-- A fold ends below 2^16, keeps the residue by 65535, and is zero for zero only.
pub fold_sum_lem :
    (sum : ℕ)
    → sum < 2 ^ 32
    → (fold_sum 3 sum < 65536)
      × (fold_sum 3 sum % 65535 ≡ sum % 65535)
      × ((fold_sum 3 sum ≡ 0) → sum ≡ 0)
      × (fold_sum 3 sum ≤ sum)
unfolding fold_sum
fold_sum_lem sum h = (ground arith, ground arith, ground arith, ground arith)

word_sum_after :
    (m : Memory) (i n a v : ℕ)
    → v < 65536
    → a + 2 ≤ i
    → word_sum (store16 m a (util_htons v)) i n ≡ word_sum m i n
word_sum_after m i zero a v h k = refl
word_sum_after m i (suc zero) a v h k = ground (arith, store16_be m a v i h)
word_sum_after m i (suc (suc n)) a v h k =
    let rest = word_sum_after m (suc (suc i)) n a v h (omega arith) in
    let low = store16_be m a v i h in
    let high = store16_be m a v (suc i) h in
    let low' : store16 m a (util_htons v) i ≡ m i = ground arith in
    let high' : store16 m a (util_htons v) (suc i) ≡ m (suc i) = ground arith in omega arith

-- A zero word that is replaced adds what was written.
word_sum-store :
    (m : Memory) (i n j a v : ℕ)
    → v < 65536
    → a ≡ i + j * 2
    → a + 2 ≤ i + n
    → m a ≡ 0
    → m (suc a) ≡ 0
    → word_sum (store16 m a (util_htons v)) i n ≡ word_sum m i n + v
word_sum-store m i zero j a v h e k z z' = absurd (omega arith)
word_sum-store m i (suc zero) j a v h e k z z' = absurd (omega arith)
word_sum-store m i (suc (suc n)) zero a v h e k z z' =
    let here : a ≡ i = omega arith in
    let rest = word_sum_after m (suc (suc i)) n a v h (omega arith) in
    let low' : store16 m a (util_htons v) i ≡ v / 256 = ground (arith, store16_be m a v i h) in
    let high' : store16 m a (util_htons v) (suc i) ≡ v % 256 =
      ground (arith, store16_be m a v (suc i) h) in
    let was : m i ≡ 0 = rw⁻¹ here z in let was' : m (suc i) ≡ 0 = rw⁻¹ here z' in omega arith
word_sum-store m i (suc (suc n)) (suc j) a v h e k z z' =
    let rest = word_sum-store m (suc (suc i)) n j a v h (omega arith) (omega arith) z z' in
    let low' : store16 m a (util_htons v) i ≡ m i = ground (arith, store16_be m a v i h) in
    let high' : store16 m a (util_htons v) (suc i) ≡ m (suc i) =
      ground (arith, store16_be m a v (suc i) h) in
    omega arith

store16_be-AreBytes :
    (m : Memory) (a v : ℕ) → v < 65536 → AreBytes m → AreBytes (store16 m a (util_htons v))
store16_be-AreBytes m a v h b i = ground (arith, store16_be m a v i h, b i)

pub checksum16_bound : (m : Memory) (i n : ℕ) → checksum16 m i n < 65536
unfolding checksum16
checksum16_bound m i n = omega arith

pub complement_checks :
    (s f f' : ℕ)
    → f < 65536
    → f % 65535 ≡ s % 65535
    → (f ≡ 0 → s ≡ 0)
    → f ≤ s
    → f' < 65536
    → f' % 65535 ≡ (s + (65535 - f)) % 65535
    → (f' ≡ 0 → s + (65535 - f) ≡ 0)
    → 65535 - f' ≡ 0
complement_checks s f f' a b c d a' b' c' = ground arith

checksum16-fold :
    (m : Memory) (i n : ℕ)
    → AreBytes m
    → n ≤ 65535
    → checksum16 m i n ≡ 65535 - fold_sum 3 (word_sum m i n)
unfolding checksum16
checksum16-fold m i n b small =
    let total : sum_words m i n 0 ≡ word_sum m i n =
      omega (arith, sum_words-eq m i n 0 b (omega arith)) in
    rw total (omega (arith, fold_sum_lem (word_sum m i n) (omega (arith, word_sum_bound m i n b))))

pub fold-IsAllOnes : (sum : ℕ) → sum < 2 ^ 32 → 65535 - fold_sum 3 sum ≡ 0 → IsAllOnes sum
fold-IsAllOnes sum h z =
    let (a, b, c, d) = fold_sum_lem sum h in
    let ones : fold_sum 3 sum ≡ 65535 = omega arith in (omega arith, omega arith)

-- What the code's own check accepts, RFC 1071 accepts.
pub checksum16-IsAllOnes :
    (m : Memory) (i n : ℕ)
    → AreBytes m
    → n ≤ 65535
    → checksum16 m i n ≡ 0
    → IsAllOnes (word_sum m i n)
checksum16-IsAllOnes m i n b small z =
    fold-IsAllOnes (word_sum m i n) (omega (arith, word_sum_bound m i n b))
      (rw⁻¹ (checksum16-fold m i n b small) z)

-- A region of at most 65535 bytes whose checksum field, at an even offset inside it, is zero, has
-- checksum zero once the field holds its checksum in network order: a receiver accepts it.
pub checksum16-store :
    (m : Memory) (i n j : ℕ)
    → AreBytes m
    → n ≤ 65535
    → j * 2 + 2 ≤ n
    → m (i + j * 2) ≡ 0
    → m (suc (i + j * 2)) ≡ 0
    → checksum16 (store16 m (i + j * 2) (util_htons (checksum16 m i n))) i n ≡ 0
checksum16-store m i n j b small inside z z' =
    let c = checksum16 m i n in
    let sum = word_sum m i n in
    let m' = store16 m (i + j * 2) (util_htons c) in
    let sum_bound = word_sum_bound m i n b in
    let bound : c < 65536 = checksum16_bound m i n in
    let c_is : c ≡ 65535 - fold_sum 3 sum = checksum16-fold m i n b small in
    let added = word_sum-store m i n j (i + j * 2) c bound refl (omega arith) z z' in
    let grown : word_sum m' i n ≡ sum + (65535 - fold_sum 3 sum) = omega arith in
    let (a1, a2, a3, a4) = fold_sum_lem sum (omega arith) in
    let (b1, b2, b3, b4) = fold_sum_lem (sum + (65535 - fold_sum 3 sum)) (omega arith) in
    checksum16-fold m' i n (store16_be-AreBytes m (i + j * 2) c bound b) small
    ∙ (rw grown (complement_checks sum (fold_sum 3 sum) _ a1 a2 a3 a4 b1 b2 b3))
