-- ===== src/Mbuf.antt =====
-- src/mbuf.rs: `Mbuf`, a pointer to a `rte_mbuf`. The memory is a function from pointers, the field
-- `content` is what `data_slice` shows, so `data_len` is its length; the log `freed` lists the segments
-- in the order in which they were given back to their pools. The functions of DPDK are parameters.
pub mod Chains
pub mod Areas
pub mod IterMut
pub mod Reading
use async_dpdk.Base.{
  ℕ, zero, suc, ◌+◌, ◌-◌, ◌≤◌, ◌<◌, ◌≡◌, Bool, true, false, Option, none, some, List, [], ◌∷◌, ◌++◌,
  map, length, take, drop, ◌==◌, if◌then◌else◌, update, ℤ, pos, negsuc, Distinct,
}
use async_dpdk.Errno.{
  Error, no_mem, invalid_arg, Result, ok, err, panicked, ◌>>=◌, ◌>>◌, ok_or, fail_if, try_u16, Libc,
  from_ret,
}

-- `tx_offload_struct`
pub record Offload : Type 0 where
  pub l2_len : ℕ
  pub l3_len : ℕ
  pub l4_len : ℕ

-- The fields of `rte_mbuf` that the crate reads or writes.
pub record RteMbuf : Type 0 where
  pub next : Option ℕ
  pub content : List ℕ
  pub nb_segs : ℕ
  pub pkt_len : ℕ
  pub refcnt : ℕ
  pub ol_flags : ℕ
  pub packet_type : ℕ
  pub tx_offload : Offload

abbrev pub Mem : Type 0
Mem = ℕ → RteMbuf

pub record Store : Type 0 where
  pub mem : Mem
  pub freed : List ℕ

-- The functions of DPDK on packets. Each that fails leaves the memory alone. `free_segs` lists the
-- segments that `rte_pktmbuf_free` gives back, and `after_free` is the memory behind it.
pub record Pktmbuf : Type 0 where
  pub alloc : Mem → Option (ℕ × Mem)
  pub alloc_bulk : ℕ → Mem → ℤ × List (Option ℕ) × Mem
  pub clone_of : ℕ → Mem → Option (ℕ × Mem)
  pub adj_data : ℕ → ℕ → Mem → Option Mem
  pub trim_data : ℕ → ℕ → Mem → Option Mem
  pub prepend_data : ℕ → ℕ → Mem → Option Mem
  pub append_data : ℕ → ℕ → Mem → Option Mem
  pub chain_segs : ℕ → ℕ → Mem → ℤ × Mem
  pub free_segs : Mem → ℕ → List ℕ
  pub after_free : ℕ → Mem → Mem
  pub headroom : Mem → ℕ → ℕ
  pub tailroom : Mem → ℕ → ℕ

-- `Mbuf::new_with_ptr`
abbrev pub new_with_ptr : Option ℕ → Result ℕ
new_with_ptr p = ok_or p no_mem

-- `data_len`, `pkt_len`, `num_segs`, `is_contiguous`
abbrev pub data_len : Mem → ℕ → ℕ
data_len mem m = length (mem m).content

abbrev pub num_segs : Mem → ℕ → ℕ
num_segs mem m = (mem m).nb_segs

abbrev pub is_contiguous : Mem → ℕ → Bool
is_contiguous mem m = (mem m).nb_segs == 1

-- `MbufIter::next`: the item and the iterator's pointer behind it.
abbrev pub iter_next : Mem → Option ℕ → Option (ℕ × Option ℕ)
iter_next mem none = none
iter_next mem (some p) = some (p, (mem p).next)

-- The items of `iter`, for at most `fuel` calls of `next`.
unfoldable pub iter : ℕ → Mem → Option ℕ → List ℕ
iter zero mem cur = []
iter (suc fuel) mem none = []
iter (suc fuel) mem (some p) = p ∷ iter fuel mem (mem p).next

-- The fields that `pop_mbuf` hands on from `prev` to the segment behind it.
abbrev pub inherit : RteMbuf → RteMbuf → RteMbuf
inherit prev m = record m {
  refcnt = prev.refcnt;
  nb_segs = prev.nb_segs - 1;
  ol_flags = prev.ol_flags;
  pkt_len = prev.pkt_len - length prev.content;
  packet_type = prev.packet_type;
  tx_offload = prev.tx_offload;
}

-- The memory with `prev` cut off the chain, and then the fields of the next segment set.
abbrev pub unlink : ℕ → Mem → Mem
unlink prev mem = update mem prev (record (mem prev) { next = none })

module _ (lib : Pktmbuf) where
  -- `<Mbuf as Drop>::drop`
  abbrev pub drop_mbuf : ℕ → Store → Store
  drop_mbuf m st = record {
    mem = lib.after_free m st.mem;
    freed = st.freed ++ lib.free_segs st.mem m;
  }

  -- `Mbuf::new` and `PktMempool::get`
  unfoldable pub new : Store → Result ℕ × Store
  new st = elim (lib.alloc st.mem) [
    | none ↦ (err no_mem, st)
    | some (m, mem) ↦ (ok m, record st { mem = mem })
  ]

  -- The loop of `new_bulk` over the pointers; the mbufs that it made are dropped when one is null.
  abbrev pub wrap_all : List (Option ℕ) → List ℕ → Store → Result (List ℕ) × Store
  wrap_all [] ms st = (ok ms, st)
  wrap_all (none ∷ ps) [] st = (err no_mem, st)
  wrap_all (none ∷ ps) (m ∷ ms) st = wrap_all (none ∷ ps) ms (drop_mbuf m st)
  wrap_all (some p ∷ ps) ms st = wrap_all ps (ms ++ p ∷ []) st

  -- `Mbuf::new_bulk`
  unfoldable pub new_bulk : Libc → ℕ → Store → Result (List ℕ) × Store
  new_bulk libc n st =
      let (errno, ptrs, mem) = lib.alloc_bulk n st.mem in
      elim (from_ret libc errno) [
        | ok _ ↦ wrap_all ptrs [] (record st { mem = mem })
        | err e ↦ (err e, st)
        | panicked ↦ (panicked, st)
      ]

  -- `Mbuf::clone`
  unfoldable pub clone : ℕ → Store → Result ℕ × Store
  clone m st = elim (lib.clone_of m st.mem) [
    | none ↦ (err no_mem, st)
    | some (c, mem) ↦ (ok c, record st { mem = mem })
  ]

  -- A call that returns null, or another sign of failure, is `e`.
  abbrev pub checked : Error → Option Mem → Store → Result (Unit {0}) × Store
  checked e none st = (err e, st)
  checked e (some mem) st = (ok tt, record st { mem = mem })

  -- A call on a length that must fit a `u16`.
  abbrev pub on_u16 : ℕ → (ℕ → Result (Unit {0}) × Store) → Store → Result (Unit {0}) × Store
  on_u16 len f st = elim (try_u16 len) [
    | ok n ↦ f n
    | err e ↦ (err e, st)
    | panicked ↦ (panicked, st)
  ]

  -- `Mbuf::prepend` and `Mbuf::append`, without the slice of the new area.
  unfoldable pub prepend : ℕ → ℕ → Store → Result (Unit {0}) × Store
  prepend m len st = on_u16 len (λ n. checked no_mem (lib.prepend_data m n st.mem) st) st

  unfoldable pub append : ℕ → ℕ → Store → Result (Unit {0}) × Store
  append m len st = on_u16 len (λ n. checked no_mem (lib.append_data m n st.mem) st) st

  -- `Mbuf::adj` and `Mbuf::trim`
  unfoldable pub adj : ℕ → ℕ → Store → Result (Unit {0}) × Store
  adj m len st = on_u16 len (λ n. checked invalid_arg (lib.adj_data m n st.mem) st) st

  unfoldable pub trim : ℕ → ℕ → Store → Result (Unit {0}) × Store
  trim m len st = on_u16 len (λ n. checked invalid_arg (lib.trim_data m n st.mem) st) st

  -- `Mbuf::pop_mbuf`, which drops the mbuf that it was called on.
  unfoldable pub pop_mbuf : ℕ → Store → Option ℕ × Store
  pop_mbuf prev st =
      let cut = unlink prev st.mem in
      elim (st.mem prev).next [
        | none ↦ (none, drop_mbuf prev (record st { mem = cut }))
        | some p ↦
            (some p, drop_mbuf prev (record st { mem = update cut p (inherit (cut prev) (cut p)) }))
      ]

  -- `Mbuf::chain_mbuf`; a tail that could not be chained goes back to the caller.
  unfoldable pub chain_mbuf : Libc → ℕ → ℕ → Store → (Result (Unit {0}) × Option ℕ) × Store
  chain_mbuf libc head tail st =
      let (errno, mem) = lib.chain_segs head tail st.mem in
      let st' : Store = record st { mem = mem } in
      elim (from_ret libc errno) [
        | ok _ ↦ ((ok tt, none), st')
        | err e ↦ ((err e, some tail), st')
        | panicked ↦ ((panicked, none), st')
      ]
