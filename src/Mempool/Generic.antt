-- ===== src/Mempool/Generic.antt =====
-- src/mempool.rs: `GenericMempool`, the objects that go out of a pool and come back. The pool of DPDK is a state
-- `S`, its calls are parameters, and so are the two conversions that a `MempoolObj` has.
pub mod Balance
use async_dpdk.Base.{
  ℕ, suc, ◌+◌, ◌≤◌, ◌<◌, ◌≡◌, Bool, Option, none, some, List, length, map, ltb, if◌then◌else◌, ℤ,
}
use async_dpdk.Errno.{Error, Result, ok, err, Libc, from_ret}
use async_dpdk.Mempool.Objects.{empty, full, get, get_bulk}

-- `rte_mempool_get` and `rte_mempool_get_bulk` with what they return and what they give, `rte_mempool_put` and
-- `rte_mempool_put_bulk`, the two counts, and the size of a pool.
pub record RteMempool (S : Type 0) : Type 0 where
  pub mempool_get : S → ℤ × ℕ × S
  pub mempool_get_bulk : ℕ → S → ℤ × List ℕ × S
  pub mempool_put : ℕ → S → S
  pub mempool_put_bulk : List ℕ → ℕ → S → S
  pub avail_count : S → ℕ
  pub in_use_count : S → ℕ
  pub size : S → ℕ

module _ {S T : Type 0} (lib : RteMempool S) (libc : Libc) where
  -- `GenericMempool::get`
  unfoldable pub get_object : (ℕ → Result T) → S → Result T × S
  get_object from_raw s =
      let (errno, ptr, s') = lib.mempool_get s in (get libc from_raw errno ptr, s')

  -- `GenericMempool::put`
  abbrev pub put_object : (T → ℕ) → T → S → S
  put_object into_raw x s = lib.mempool_put (into_raw x) s

  -- `GenericMempool::put_bulk`, which takes the number of objects from its caller; `none` is a read behind the
  -- vector.
  unfoldable pub put_objects : (T → ℕ) → List T → ℕ → S → Option S
  put_objects into_raw xs n s =
      if ltb (length xs) n then none else some (lib.mempool_put_bulk (map into_raw xs) n s)

module _ {S : Type 0} (lib : RteMempool S) where
  -- `GenericMempool::get_bulk`
  unfoldable pub get_objects : Libc → ℕ → S → Result (List ℕ) × S
  get_objects libc n s =
      let (errno, ptrs, s') = lib.mempool_get_bulk n s in (get_bulk libc errno ptrs, s')

  -- `available`, `in_use`, `is_empty` and `is_full`
  abbrev pub available : S → ℕ
  available s = lib.avail_count s

  abbrev pub in_use : S → ℕ
  in_use s = lib.in_use_count s

  abbrev pub is_empty : S → Bool
  is_empty s = empty (lib.avail_count s)

  abbrev pub is_full : S → Bool
  is_full s = full (lib.avail_count s) (lib.size s)
