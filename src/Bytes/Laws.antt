-- ===== src/Bytes/Laws.antt =====
-- What the byte routines of src/lib.c do.
use ucosii_arm64_qemu.Prelude.{
  ℕ, zero, suc, ◌+◌, ◌-◌, ◌*◌, ◌/◌, ◌%◌, ◌<◌, ◌≡◌, ◌↔◌, inl, inr, refl, true, ◌==◌, if◌then◌else◌,
  ltb, leb, ◌&&◌, u8, arith, Bool-cases, bit_or_256,
}
use ucosii_arm64_qemu.Bytes.{
  Memory, ℤ, difference, store, util_memcpy, util_memset, util_memcmp, util_htons, util_ntohs,
  load16, store16,
}

-- What every address holds after a copy.
pub util_memcpy_lem :
    (dest : Memory) (d : ℕ) (src : Memory) (s n j : ℕ)
    → util_memcpy dest d src s n j
      ≡ (if leb d j && ltb j (d + n) then src (s + (j - d)) else dest j)
unfolding util_memcpy store
util_memcpy_lem dest d src s zero j = ground arith
util_memcpy_lem dest d src s (suc n) j = elim (Bool-cases (d + n == j)) [
  | inl here ↦
      let at : s + (j - d) ≡ s + n = ground arith in
      let inside : (leb d j && ltb j (d + suc n)) ≡ true = ground arith in
      rw (here, inside, at) refl
  | inr other ↦
      let same : (leb d j && ltb j (d + suc n)) ≡ (leb d j && ltb j (d + n)) = ground arith in
      rw (other, same) (util_memcpy_lem dest d src s n j)
]

pub util_memset_lem :
    (dest : Memory) (d value n j : ℕ)
    → util_memset dest d value n j ≡ (if leb d j && ltb j (d + n) then u8 value else dest j)
unfolding util_memset store
util_memset_lem dest d value zero j = ground arith
util_memset_lem dest d value (suc n) j = elim (Bool-cases (d + n == j)) [
  | inl here ↦
      let inside : (leb d j && ltb j (d + suc n)) ≡ true = ground arith in rw (here, inside) refl
  | inr other ↦
      let same : (leb d j && ltb j (d + suc n)) ≡ (leb d j && ltb j (d + n)) = ground arith in
      rw (other, same) (util_memset_lem dest d value n j)
]

difference_zero : (a b : ℕ) → difference a b ≡ ℤ.pos 0 → a ≡ b
unfolding difference
difference_zero a b e = elim (Bool-cases (ltb a b)) [
  | inl less ↦ absurd (ground arith)
  | inr not_less ↦ ground arith
]

-- The comparison answers 0 exactly if the regions agree.
pub util_memcmp_iff :
    (lhs : Memory) (a : ℕ) (rhs : Memory) (b n : ℕ)
    → (util_memcmp lhs a rhs b n ≡ ℤ.pos 0) ↔ ((i : ℕ) → i < n → lhs (a + i) ≡ rhs (b + i))
unfolding util_memcmp difference
util_memcmp_iff lhs a rhs b zero = (λ e i h. absurd (omega arith), λ h. refl)
util_memcmp_iff lhs a rhs b (suc n) = elim (Bool-cases (lhs a == rhs b)) [
  | inl same ↦ rw same (
    λ e i h. agree same ((util_memcmp_iff lhs (suc a) rhs (suc b) n).0 e) i h,
    λ h. (util_memcmp_iff lhs (suc a) rhs (suc b) n).1 (λ i k. shifted h i k),
  )
  | inr differ ↦ rw differ (
    λ e. absurd (ground (arith, difference_zero (lhs a) (rhs b) e)),
    λ h. absurd (ground (arith, first h)),
  )
]
  where
    agree :
        (lhs a == rhs b) ≡ true
        → ((i : ℕ) → i < n → lhs (suc a + i) ≡ rhs (suc b + i))
        → (i : ℕ) → i < suc n
        → lhs (a + i) ≡ rhs (b + i)
    agree same rest zero h =
        let p : a + 0 ≡ a = omega arith in
        let q : b + 0 ≡ b = omega arith in rw (p, q) (ground arith)
    agree same rest (suc i) h =
        let p : a + suc i ≡ suc a + i = omega arith in
        let q : b + suc i ≡ suc b + i = omega arith in rw (p, q) (rest i (omega arith))

    shifted :
        ((i : ℕ) → i < suc n → lhs (a + i) ≡ rhs (b + i))
        → (i : ℕ) → i < n
        → lhs (suc a + i) ≡ rhs (suc b + i)
    shifted h i k =
        let p : a + suc i ≡ suc a + i = omega arith in
        let q : b + suc i ≡ suc b + i = omega arith in rw⁻¹ (p, q) (h (suc i) (omega arith))

    first : ((i : ℕ) → i < suc n → lhs (a + i) ≡ rhs (b + i)) → lhs a ≡ rhs b
    first h =
        let p : a + 0 ≡ a = omega arith in
        let q : b + 0 ≡ b = omega arith in rw (p, q) at (h 0 (omega arith))

pub util_htons_lem : (v : ℕ) → v < 65536 → util_htons v ≡ v % 256 * 256 + v / 256
unfolding util_htons
util_htons_lem v h = omega (arith, bit_or_256 v (v / 256) (omega arith))

-- A sixteen-bit value put through util_htons and then through util_ntohs is itself.
pub util_ntohs-htons : (v : ℕ) → v < 65536 → util_ntohs (util_htons v) ≡ v
unfolding util_ntohs
util_ntohs-htons v h =
    omega
      (arith, util_htons_lem v h, util_htons_lem (util_htons v) (omega (arith, util_htons_lem v h)))

pub load16_be :
    (m : Memory) (i : ℕ)
    → m i < 256
    → m (suc i) < 256
    → util_ntohs (load16 m i) ≡ m i * 256 + m (suc i)
unfolding load16 util_ntohs
load16_be m i h k = omega (arith, util_htons_lem (m i + m (suc i) * 256) (omega arith))

pub store16_be :
    (m : Memory) (i v j : ℕ)
    → v < 65536
    → store16 m i (util_htons v) j
      ≡ (if i == j then v / 256 else if suc i == j then v % 256 else m j)
unfolding store16 store
store16_be m i v j h =
    let swapped = util_htons_lem v h in
    let hi : u8 (util_htons v) ≡ v / 256 = omega arith in
    let lo : util_htons v / 256 ≡ v % 256 = omega arith in rw (hi, lo) (ground arith)
