-- ===== src/Nat/Types.antt =====
-- bsp/nat.h and the static variables of bsp/nat.c, with the operations that set them up. A pointer
-- into `nat_table` is an index, and NULL is `none`. The console is left out.
use ucosii_arm64_qemu.Prelude.{ℕ, Bool, false, ◌&&◌, List, ◌==◌, get_or, replicate}
use ucosii_arm64_qemu.Addr.{Ip, zero_ip, ip_equal}
use ucosii_arm64_qemu.Arp.{ArpEntry, unused_arp}

-- `struct nat_entry`
pub record NatEntry : Type 0 where
  pub active : Bool
  pub protocol : ℕ
  pub lan_ip : Ip
  pub lan_port : ℕ
  pub wan_port : ℕ
  pub dst_ip : Ip
  pub dst_port : ℕ
  pub last_activity : ℕ
  pub timeout_sec : ℕ

-- `struct nat_stats`
pub record NatStats : Type 0 where
  pub translations_out : ℕ
  pub translations_in : ℕ
  pub table_full : ℕ
  pub no_match : ℕ
  pub timeouts : ℕ

-- `struct nat_config`
pub record NatConfig : Type 0 where
  pub lan_ip : Ip
  pub wan_ip : Ip
  pub port_range_start : ℕ
  pub port_range_end : ℕ

-- The static variables of nat.c. A hash bucket is an int8_t, kept as its byte: -1 is 255.
pub record NatState : Type 0 where
  pub nat_table : List NatEntry
  pub nat_hash_table : List ℕ
  pub nat_outbound_hash_table : List ℕ
  pub nat_statistics : NatStats
  pub arp_table : List ArpEntry
  pub nat_cfg : NatConfig
  pub next_port : ℕ

-- What identifies a session to `nat_translate_outbound`, and a reply to `nat_translate_inbound`.
pub record Flow : Type 0 where
  pub protocol : ℕ
  pub lan_ip : Ip
  pub lan_port : ℕ
  pub dst_ip : Ip
  pub dst_port : ℕ

pub record Reply : Type 0 where
  pub protocol : ℕ
  pub wan_port : ℕ
  pub src_ip : Ip
  pub src_port : ℕ

abbrev pub unused_entry : NatEntry
unused_entry = record {
  active = false;
  protocol = 0;
  lan_ip = zero_ip;
  lan_port = 0;
  wan_port = 0;
  dst_ip = zero_ip;
  dst_port = 0;
  last_activity = 0;
  timeout_sec = 0;
}

abbrev pub zero_stats : NatStats
zero_stats = record {
  translations_out = 0;
  translations_in = 0;
  table_full = 0;
  no_match = 0;
  timeouts = 0;
}

abbrev pub empty_bucket : ℕ
empty_bucket = 255

abbrev pub entry_at : NatState → ℕ → NatEntry
entry_at s i = get_or s.nat_table i unused_entry

unfoldable pub nat_init : NatState → NatState
nat_init s = record {
  nat_table = replicate 64 unused_entry;
  nat_hash_table = replicate 128 empty_bucket;
  nat_outbound_hash_table = replicate 128 empty_bucket;
  nat_statistics = zero_stats;
  arp_table = replicate 32 unused_arp;
  nat_cfg = s.nat_cfg;
  next_port = s.nat_cfg.port_range_start;
}

unfoldable pub nat_configure : Ip → Ip → NatState → NatState
nat_configure lan wan s = record s { nat_cfg = record (s.nat_cfg) { lan_ip = lan; wan_ip = wan } }

unfoldable pub nat_reset_stats : NatState → NatState
nat_reset_stats s = record s { nat_statistics = zero_stats }

unfoldable pub nat_is_lan_ip : NatState → Ip → Bool
nat_is_lan_ip s ip = let cfg = s.nat_cfg.lan_ip in ip.a == cfg.a && (ip.b == cfg.b && ip.c == cfg.c)

unfoldable pub nat_is_wan_ip : NatState → Ip → Bool
unfolding ip_equal
nat_is_wan_ip s ip = ip_equal ip s.nat_cfg.wan_ip
