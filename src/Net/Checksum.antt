-- ===== src/Net/Checksum.antt =====
-- The checksums of src/net_demo.c: sums in uint32_t, folded to sixteen bits.
use ucosii_arm64_qemu.Prelude.{ℕ, zero, suc, ◌+◌, ◌-◌, ◌*◌, ◌/◌, ◌%◌, ◌==◌, if◌then◌else◌, u16, u32}
use ucosii_arm64_qemu.Bytes.{Memory, load16, util_htons}

-- `while (length > 1u)` and the odd byte behind it.
unfoldable pub sum_words : Memory → ℕ → ℕ → ℕ → ℕ
sum_words m i zero sum = sum
sum_words m i (suc zero) sum = u32 (sum + m i * 256)
sum_words m i (suc (suc length)) sum =
    sum_words m (suc (suc i)) length (u32 (sum + (m i * 256 + m (suc i))))

-- `while ((sum >> 16u) != 0u)`
unfoldable pub fold_sum : ℕ → ℕ → ℕ
fold_sum zero sum = sum
fold_sum (suc fuel) sum =
    let rest = fold_sum fuel (sum % 65536 + sum / 65536) in if sum / 65536 == 0 then sum else rest

-- `(uint16_t)~sum` of a sum below 2^16.
abbrev pub complement16 : ℕ → ℕ
complement16 sum = 65535 - sum % 65536

-- Three rounds fold any uint32_t.
unfoldable pub checksum16 : Memory → ℕ → ℕ → ℕ
checksum16 m i length = complement16 (fold_sum 3 (sum_words m i length 0))

-- `for (i = 0; i < transport_len; i += 2)`: words in the processor's byte order.
unfoldable pub sum_transport : Memory → ℕ → ℕ → ℕ → ℕ
sum_transport m i zero sum = sum
sum_transport m i (suc zero) sum = u32 (sum + util_htons (u16 (m i * 256)))
sum_transport m i (suc (suc length)) sum =
    sum_transport m (suc (suc i)) length (u32 (sum + load16 m i))

-- The pseudo header: both addresses, the protocol and the length.
unfoldable pub pseudo_sum : Memory → ℕ → ℕ → ℕ
unfolding load16
pseudo_sum m ip transport_len = u32 (
    load16 m (ip + 12)
    + load16 m (ip + 14)
    + load16 m (ip + 16)
    + load16 m (ip + 18)
    + util_htons (m (ip + 9))
    + util_htons (u16 transport_len))

unfoldable pub tcp_udp_checksum : Memory → ℕ → ℕ → ℕ → ℕ
unfolding pseudo_sum
tcp_udp_checksum m ip transport_hdr transport_len =
    complement16
      (fold_sum 3 (sum_transport m transport_hdr transport_len (pseudo_sum m ip transport_len)))
