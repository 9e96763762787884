-- ===== src/Mempool.antt =====
-- src/mempool.rs: the handles of memory pools, which share an `Arc<MpRef>`, and the table `MEMPOOLS` of
-- `Weak` pointers by the address of the pool. An `Arc` is a number; the counts of `Weak` pointers are
-- left out, since they keep no pool alive.
pub mod Handles
pub mod Lifecycle
pub mod Objects
pub mod Generic
use async_dpdk.Base.{
  ℕ, suc, ◌+◌, ◌-◌, Bool, true, false, not, ◌||◌, Option, none, some, Dict, lookup, insert, ◌==◌,
  if◌then◌else◌, update,
}
use async_dpdk.Errno.{
  Error, no_mem, not_exist, poisoned, invalid_arg, Result, ok, err, panicked, ◌>>=◌, ◌>>◌, fail_if,
}

-- `MEMPOOLS`, the `Arc`s with the pool and the number of handles of each, and what DPDK has: the pools
-- that are there, and whether one was freed that was not there.
pub record Pools : Type 0 where
  pub is_poisoned : Bool
  pub weaks : Dict ℕ
  pub next_arc : ℕ
  pub target : ℕ → ℕ
  pub strong : ℕ → ℕ
  pub live : ℕ → Bool
  pub misfreed : Bool

-- `rte_mempool_free`
abbrev pub mempool_free : ℕ → Pools → Pools
mempool_free p s = record s {
  live = update s.live p false;
  misfreed = s.misfreed || not (s.live p);
}

-- `rte_mempool_create` and `rte_pktmbuf_pool_create`, which give null or the address of a new pool.
abbrev pub mempool_create : Option ℕ → Pools → Pools
mempool_create none s = s
mempool_create (some p) s = record s { live = update s.live p true }

-- The drop of a handle, and `<MpRef as Drop>::drop` with the last one.
unfoldable pub drop_arc : ℕ → Pools → Pools
drop_arc a s =
    let s' : Pools = record s { strong = update s.strong a (s.strong a - 1) } in
    if s.strong a == 1 then mempool_free (s.target a) s' else s'

-- `Arc::new`
abbrev pub new_arc : ℕ → Pools → Pools
new_arc p s = record s {
  next_arc = suc s.next_arc;
  target = update s.target s.next_arc p;
  strong = update s.strong s.next_arc 1;
}

-- `MpRef::new`, which drops the pool where it cannot note it.
unfoldable pub new_ref : Option ℕ → Pools → Result ℕ × Pools
new_ref none s = (err no_mem, s)
new_ref (some p) s =
    if s.is_poisoned
    then (err poisoned, drop_arc s.next_arc (new_arc p s))
    else (ok s.next_arc, record (new_arc p s) { weaks = insert p s.next_arc s.weaks })

-- `Weak::upgrade`
abbrev pub upgrade : ℕ → Pools → Result ℕ × Pools
upgrade a s =
    if s.strong a == 0
    then (err not_exist, s)
    else (ok a, record s { strong = update s.strong a (suc (s.strong a)) })

-- `MpRef::lookup`, with what `rte_mempool_lookup` gives, and `Error::from_errno`.
unfoldable pub lookup_ref : Option ℕ → Error → Pools → Result ℕ × Pools
lookup_ref none errno s = (err errno, s)
lookup_ref (some p) errno s =
    if s.is_poisoned
    then (err poisoned, s)
    else elim (lookup p s.weaks) [ none ↦ (err not_exist, s) | some a ↦ upgrade a s ]

-- `PktMempool::create` and `GenericMempool::new`. The name, or the size of the objects, may be refused.
unfoldable pub create : Result (Unit {0}) → Option ℕ → Pools → Result ℕ × Pools
create (ok _) made s = new_ref made (mempool_create made s)
create (err e) made s = (err e, s)
create panicked made s = (panicked, s)

-- `PktMempool::lookup` and `GenericMempool::lookup`
unfoldable pub find_pool : Bool → Option ℕ → Error → Pools → Result ℕ × Pools
find_pool nul found errno s = if nul then (err invalid_arg, s) else lookup_ref found errno s
