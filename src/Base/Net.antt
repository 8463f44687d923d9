-- ===== src/Base/Net.antt =====
-- `std::net`: addresses as the numbers that `u32::from` and `u128::from` read.
use Prim.Native.Nat.{ℕ}

pub data IpAddr : Type 0 where
  v4 : ℕ → IpAddr
  v6 : ℕ → IpAddr

pub record SocketAddr : Type 0 where
  pub ip : IpAddr
  pub port : ℕ
