-- ===== src/Tests/Objects.antt =====
-- Tests of the objects of a pool in src/mempool.rs.
use async_dpdk.Base.{
  ℕ, zero, suc, ◌+◌, ◌-◌, List, [], replicate, leb, if◌then◌else◌, ℤ, pos, negsuc,
}
use async_dpdk.Errno.{Result, ok}
use async_dpdk.Mempool.Generic.{RteMempool}

-- A pool as the numbers of its objects that are available and in use.
abbrev Pool : Type 0
Pool = ℕ × ℕ

abbrev take_one : Pool → ℤ × ℕ × Pool
take_one (zero, u) = (negsuc 1, 0, (0, u))
take_one (suc a, u) = (pos 0, a, (a, suc u))

abbrev take_some : ℕ → Pool → ℤ × List ℕ × Pool
take_some n (a, u) =
    if leb n a then (pos 0, replicate n 0, (a - n, u + n)) else (negsuc 1, [], (a, u))

abbrev counting : RteMempool Pool
counting = record {
  mempool_get = take_one;
  mempool_get_bulk = take_some;
  mempool_put = λ x s. (suc s.0, s.1 - 1);
  mempool_put_bulk = λ xs n s. (s.0 + n, s.1 - n);
  avail_count = λ s. s.0;
  in_use_count = λ s. s.1;
  size = λ s. s.0 + s.1;
}

-- Four objects are taken, and a `put_bulk` of two of them gives back one.
abbrev from_object : ℕ → Result ℕ
from_object p = ok p

abbrev full_pool : Pool
full_pool = (8, 0)
