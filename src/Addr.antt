-- ===== src/Addr.antt =====
-- Addresses as bsp/nat.c compares them: the four bytes of an IPv4 address and the six of a MAC.
use ucosii_arm64_qemu.Prelude.{ℕ, ◌≡◌, ◌↔◌, Bool, true, ◌&&◌, ◌==◌, arith}

pub record Ip : Type 0 where
  pub a : ℕ
  pub b : ℕ
  pub c : ℕ
  pub d : ℕ

pub record Mac : Type 0 where
  pub m0 : ℕ
  pub m1 : ℕ
  pub m2 : ℕ
  pub m3 : ℕ
  pub m4 : ℕ
  pub m5 : ℕ

unfoldable pub ip_equal : Ip → Ip → Bool
ip_equal x y = x.a == y.a && (x.b == y.b && (x.c == y.c && x.d == y.d))

abbrev pub zero_ip : Ip
zero_ip = record { a = 0; b = 0; c = 0; d = 0 }

abbrev pub zero_mac : Mac
zero_mac = record { m0 = 0; m1 = 0; m2 = 0; m3 = 0; m4 = 0; m5 = 0 }

-- The comparison decides equality of addresses.
pub ip_equal_iff : (x y : Ip) → (ip_equal x y ≡ true) ↔ (x ≡ y)
unfolding ip_equal
ip_equal_iff x y = ground arith
