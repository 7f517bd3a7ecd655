-- ===== src/Net/Header.antt =====
-- The headers that src/net_demo.c writes: their checksums, and that they hold bytes.
use ucosii_arm64_qemu.Prelude.{
  ℕ, zero, suc, ◌+◌, ◌-◌, ◌*◌, ◌%◌, ◌≤◌, ◌<◌, ◌≡◌, refl, ap, ◌==◌, false, u8, arith, bit_and_15,
}
use ucosii_arm64_qemu.Addr.{Ip, Mac}
use ucosii_arm64_qemu.Bytes.{Memory, store, store16, ip_bytes, mac_bytes, util_memcpy, util_htons}
use ucosii_arm64_qemu.Bytes.Laws.{util_memcpy_lem}
use ucosii_arm64_qemu.Net.Checksum.{sum_words, fold_sum, checksum16}
use ucosii_arm64_qemu.Net.Verify.{
  AreBytes, IsAllOnes, word_sum, checksum16-store, checksum16-IsAllOnes,
}
use ucosii_arm64_qemu.Net.Frame.{ip_header_len, put_checksum}
use ucosii_arm64_qemu.Net.Forward.{readdress}

pub store-AreBytes : (m : Memory) (i v : ℕ) → v < 256 → AreBytes m → AreBytes (store m i v)
unfolding store
store-AreBytes m i v h b j = ground (arith, b j)

pub store16-AreBytes : (m : Memory) (i v : ℕ) → v < 65536 → AreBytes m → AreBytes (store16 m i v)
unfolding store16 store
store16-AreBytes m i v h b j = ground (arith, b j)

pub util_memcpy-AreBytes :
    (dest : Memory) (d : ℕ) (src : Memory) (s n : ℕ)
    → AreBytes dest
    → AreBytes src
    → AreBytes (util_memcpy dest d src s n)
util_memcpy-AreBytes dest d src s n b c j =
    ground (arith, util_memcpy_lem dest d src s n j, b j, c (s + (j - d)))

pub htons_bound : (v : ℕ) → util_htons v < 65536
unfolding util_htons
htons_bound v = omega arith

pub put_checksum-AreBytes :
    (m : Memory) (start field len : ℕ) → AreBytes m → AreBytes (put_checksum m start field len)
unfolding put_checksum
put_checksum-AreBytes m start field len b =
    store16-AreBytes _ field _ (htons_bound _) (store16-AreBytes m field 0 (omega arith) b)

-- Writing a checksum field changes its two bytes only.
pub put_checksum_other :
    (m : Memory) (start field len j : ℕ)
    → (field == j) ≡ false
    → (suc field == j) ≡ false
    → put_checksum m start field len j ≡ m j
unfolding put_checksum store16 store
put_checksum_other m start field len j h k = rw (h, k) refl

pub put_checksum_checks :
    (m : Memory) (start j len : ℕ)
    → AreBytes m
    → len ≤ 65535
    → j * 2 + 2 ≤ len
    → checksum16 (put_checksum m start (start + j * 2) len) start len ≡ 0
unfolding put_checksum
put_checksum_checks m start j len b small inside =
    checksum16-store (store16 m (start + j * 2) 0) start len j
      (store16-AreBytes m (start + j * 2) 0 (omega arith) b) small inside zero_low zero_high
  where
    zero_low : store16 m (start + j * 2) 0 (start + j * 2) ≡ 0
    zero_low = unfold store16 in unfold store in ground arith

    zero_high : store16 m (start + j * 2) 0 (suc (start + j * 2)) ≡ 0
    zero_high = unfold store16 in unfold store in ground arith

pub header_bound : (m : Memory) → ip_header_len m ≤ 60
header_bound m = omega (arith, bit_and_15 (m 14))

-- In a forwarded packet of bytes whose header has at least five words, the big-endian words of the
-- IPv4 header, the checksum field included, have the one's complement sum of all ones that RFC 1071
-- asks for, whichever field the address was written to.
pub readdress_checks :
    (src dest : Mac) (field : ℕ) (ip : Ip) (m : Memory)
    → AreBytes m
    → AreBytes (mac_bytes src)
    → AreBytes (mac_bytes dest)
    → AreBytes (ip_bytes ip)
    → 20 ≤ ip_header_len m
    → IsAllOnes (word_sum (readdress src dest field ip m) 14 (ip_header_len m))
unfolding readdress
readdress_checks src dest field ip m b c d e h =
    checksum16-IsAllOnes _ 14 (ip_header_len m) (put_checksum-AreBytes _ 14 24 _ before) short
      (put_checksum_checks _ 14 5 (ip_header_len m) before short (omega arith))
  where
    short : ip_header_len m ≤ 65535
    short = omega (arith, header_bound m)

    m3 : Memory
    m3 =
        util_memcpy (util_memcpy (util_memcpy m 6 (mac_bytes src) 0 6) 0 (mac_bytes dest) 0 6) field
          (ip_bytes ip) 0 4

    before : AreBytes (store m3 22 (u8 (m3 22 + 255)))
    before = store-AreBytes _ 22 _ (omega arith) (
        util_memcpy-AreBytes _ field _ 0 4
          (util_memcpy-AreBytes _ 0 _ 0 6 (util_memcpy-AreBytes m 6 _ 0 6 b c) d) e)

sum_words_agree :
    (m m' : Memory) (i n sum : ℕ)
    → ((j : ℕ) → i ≤ j → j < i + n → m j ≡ m' j)
    → sum_words m i n sum ≡ sum_words m' i n sum
unfolding sum_words
sum_words_agree m m' i zero sum h = refl
sum_words_agree m m' i (suc zero) sum h = rw (h i (omega arith) (omega arith)) refl
sum_words_agree m m' i (suc (suc n)) sum h =
    rw (h i (omega arith) (omega arith), h (suc i) (omega arith) (omega arith))
      (sum_words_agree m m' (suc (suc i)) n _ (λ j k l. h j (omega arith) (omega arith)))

-- A checksum depends on its region only.
pub checksum16_agree :
    (m m' : Memory) (i n : ℕ)
    → ((j : ℕ) → i ≤ j → j < i + n → m j ≡ m' j)
    → checksum16 m i n ≡ checksum16 m' i n
unfolding checksum16
checksum16_agree m m' i n h = ap (λ s. 65535 - fold_sum 3 s % 65536) (sum_words_agree m m' i n 0 h)
