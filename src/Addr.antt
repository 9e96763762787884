-- ===== src/Addr.antt =====
-- `std::net::IpAddr` and `SocketAddr`, as far as the crate uses them: which addresses are
-- unspecified or loopback, and when two are equal.
use async_dpdk.Base.{ℕ, ◌≡◌, Bool, true, false, ◌&&◌, arith, ◌==◌}

-- Four octets, or the 128 bits of an IPv6 address as a number.
pub data IpAddr : Type 0 where
  v4 : ℕ → ℕ → ℕ → ℕ → IpAddr
  v6 : ℕ → IpAddr

pub record SocketAddr : Type 0 where
  pub ip : IpAddr
  pub port : ℕ

-- `IpAddr::is_unspecified`
abbrev pub is_unspecified : IpAddr → Bool
is_unspecified (v4 a b c d) = a == 0 && (b == 0 && (c == 0 && d == 0))
is_unspecified (v6 n) = n == 0

-- `IpAddr::is_loopback`
abbrev pub is_loopback : IpAddr → Bool
is_loopback (v4 a b c d) = a == 127
is_loopback (v6 n) = n == 1

-- `IpAddr::eq`
abbrev pub ip_eq : IpAddr → IpAddr → Bool
ip_eq (v4 a b c d) (v4 e f g h) = a == e && (b == f && (c == g && d == h))
ip_eq (v6 m) (v6 n) = m == n
ip_eq _ _ = false

pub ip_eq_refl : (a : IpAddr) → ip_eq a a ≡ true
ip_eq_refl (v4 a b c d) = ground arith
ip_eq_refl (v6 n) = ground arith

pub ip_eq-eq : (a b : IpAddr) → ip_eq a b ≡ true → a ≡ b
ip_eq-eq (v4 a b c d) (v4 e f g h) q = ground arith
ip_eq-eq (v6 m) (v6 n) q = ground arith
ip_eq-eq _ _ q = cc
