-- ===== src/Net/Transport.antt =====
-- The TCP and UDP checksum of src/net_demo.c after a port was rewritten.
use ucosii_arm64_qemu.Prelude.{ℕ, ◌+◌, ◌<◌, arith}
use ucosii_arm64_qemu.Bytes.{Memory}
use ucosii_arm64_qemu.Net.Checksum.{tcp_udp_checksum}
use ucosii_arm64_qemu.Net.Verify.{word_sum}

pub tcp_udp_checksum_bound : (m : Memory) (hdr n : ℕ) → tcp_udp_checksum m 14 hdr n < 65536
unfolding tcp_udp_checksum
tcp_udp_checksum_bound m hdr n = omega arith

-- The pseudo header in network order: both addresses, the protocol and the length.
abbrev pub pseudo_words : Memory → ℕ → ℕ
pseudo_words m n = word_sum m 26 8 + m 23 + n
