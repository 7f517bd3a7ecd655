-- ===== src/Bytes.antt =====
-- The byte routines of src/lib.c over memory, a function from addresses to bytes: each pointer is a
-- memory and an offset in it. A routine with two pointers reads its source as it was at the call, so
-- the regions of a copy are taken not to overlap.
pub mod Laws
use ucosii_arm64_qemu.Prelude.{
  ℕ, zero, suc, ◌+◌, ◌-◌, ◌*◌, ◌/◌, ◌==◌, if◌then◌else◌, ltb, u8, u16, ◌^◌, bit_and, bit_or, List,
  [], ◌∷◌,
}
use ucosii_arm64_qemu.Addr.{Ip, Mac}

abbrev pub Memory : Type 0
Memory = ℕ → ℕ

-- A C int.
pub data ℤ : Type 0 where
  pos : ℕ → ℤ
  negsuc : ℕ → ℤ

-- `(int)a - (int)b`
unfoldable pub difference : ℕ → ℕ → ℤ
difference a b = if ltb a b then ℤ.negsuc (b - a - 1) else ℤ.pos (a - b)

unfoldable pub store : Memory → ℕ → ℕ → Memory
store m i v = λ j. if i == j then v else m j

unfoldable pub util_memcpy : Memory → ℕ → Memory → ℕ → ℕ → Memory
unfolding store
util_memcpy dest d src s zero = dest
util_memcpy dest d src s (suc n) = store (util_memcpy dest d src s n) (d + n) (src (s + n))

unfoldable pub util_memset : Memory → ℕ → ℕ → ℕ → Memory
unfolding store
util_memset dest d value zero = dest
util_memset dest d value (suc n) = store (util_memset dest d value n) (d + n) (u8 value)

unfoldable pub util_memcmp : Memory → ℕ → Memory → ℕ → ℕ → ℤ
unfolding difference
util_memcmp lhs a rhs b zero = ℤ.pos 0
util_memcmp lhs a rhs b (suc n) =
    let rest = util_memcmp lhs (suc a) rhs (suc b) n in
    if lhs a == rhs b then rest else difference (lhs a) (rhs b)

unfoldable pub util_htons : ℕ → ℕ
util_htons value = u16 (bit_or (value * 256) (value / 256))

unfoldable pub util_ntohs : ℕ → ℕ
unfolding util_htons
util_ntohs value = util_htons value

unfoldable pub util_htonl : ℕ → ℕ
util_htonl value =
    bit_or
      (bit_or (bit_or (bit_and value 255 * 2 ^ 24) (bit_and value 65280 * 2 ^ 8))
        (bit_and value 16711680 / 2 ^ 8))
      (bit_and value 4278190080 / 2 ^ 24)

unfoldable pub util_ntohl : ℕ → ℕ
unfolding util_htonl
util_ntohl value = util_htonl value

-- The processor's own byte order: a 16-bit field is stored low byte first.
unfoldable pub load16 : Memory → ℕ → ℕ
load16 m i = m i + m (suc i) * 256

unfoldable pub store16 : Memory → ℕ → ℕ → Memory
unfolding store
store16 m i v = store (store m i (u8 v)) (suc i) (v / 256)

-- Addresses in memory.
unfoldable pub load_ip : Memory → ℕ → Ip
load_ip m i = record { a = m i; b = m (i + 1); c = m (i + 2); d = m (i + 3) }

unfoldable pub load_mac : Memory → ℕ → Mac
load_mac m i = record {
  m0 = m i;
  m1 = m (i + 1);
  m2 = m (i + 2);
  m3 = m (i + 3);
  m4 = m (i + 4);
  m5 = m (i + 5);
}

-- The bytes of an address, as the source of a copy.
unfoldable pub ip_bytes : Ip → Memory
ip_bytes x i = if i == 0 then x.a else if i == 1 then x.b else if i == 2 then x.c else x.d

unfoldable pub mac_bytes : Mac → Memory
mac_bytes x i =
    if i == 0
    then x.m0
    else if i == 1
    then x.m1
    else if i == 2
    then x.m2
    else if i == 3
    then x.m3
    else if i == 4
    then x.m4
    else x.m5

-- The first bytes of a memory, the argument of a send.
unfoldable pub bytes : ℕ → Memory → ℕ → List ℕ
bytes zero m i = []
bytes (suc n) m i = m i ∷ bytes n m (suc i)
