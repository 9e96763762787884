-- ===== src/Tests/Pools.antt =====
-- Tests of src/mempool.rs.
use async_dpdk.Base.{◌<◌, ◌≡◌, refl, false, some, [], ◌∷◌, arith}
use async_dpdk.Errno.{ok}
use async_dpdk.Mempool.{Pools, create, new_ref, drop_arc}
use async_dpdk.Mempool.Handles.{IsValid}
use async_dpdk.Mempool.Lifecycle.{no_pools, Reached, start, creates, drops, Reached-IsValid}
use async_dpdk.Mempool.Objects.{put, put_twice}
use async_dpdk.Tests.Mbufs.{pktmbuf, pktmbuf-Frees, two_segments, two_segments-IsPacket}

-- One pool, at the address 7, and the same behind the drop of its handle.
abbrev one_pool : Pools
one_pool = (create (ok tt) (some 7) (no_pools false)).1

one_pool-Reached : Reached one_pool
one_pool-Reached = creates (start false) (ok tt) 7 refl

one_handle : 0 < one_pool.strong 0
unfolding create new_ref
one_handle = omega arith

Reached-IsValid_example : IsValid (drop_arc 0 one_pool)
Reached-IsValid_example =
    Reached-IsValid (drop_arc 0 one_pool) (drops one_pool-Reached 0 one_handle)

put_twice_example : (put pktmbuf 1 two_segments).freed ≡ 1 ∷ 2 ∷ 1 ∷ []
put_twice_example =
    put_twice pktmbuf pktmbuf-Frees 1 (2 ∷ []) two_segments two_segments-IsPacket (refl, (refl, tt))
