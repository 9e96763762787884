-- ===== src/Mempool/Objects.antt =====
-- src/mempool.rs: the objects of a pool. Each call of DPDK that gives a number has it as an argument.
use async_dpdk.Base.{ℕ, ◌≡◌, ap₂, All, Bool, List, [], ◌∷◌, ◌++◌, ◌==◌, ℤ, arith}
use async_dpdk.Errno.{Result, ok, ◌>>=◌, Libc, from_ret}
use async_dpdk.Mbuf.{Store, Pktmbuf, drop_mbuf}
use async_dpdk.Mbuf.Chains.{Frees, IsPacket}

-- `MpRef::empty` and `MpRef::full`
abbrev pub empty : ℕ → Bool
empty avail_count = avail_count == 0

abbrev pub full : ℕ → ℕ → Bool
full avail_count size = avail_count == size

-- `GenericMempool::get`, with the return of `rte_mempool_get`, the object that it gives and `from_raw`.
unfoldable pub get : {T : Type 0} → Libc → (ℕ → Result T) → ℤ → ℕ → Result T
get libc from_raw errno ptr = from_ret libc errno >>= λ _. from_raw ptr

-- `GenericMempool::get_bulk`, whose boxes are the objects themselves.
unfoldable pub get_bulk : Libc → ℤ → List ℕ → Result (List ℕ)
get_bulk libc errno ptrs = from_ret libc errno >>= λ _. ok ptrs

module _ (lib : Pktmbuf) where
  -- `PktMempool::put`, which calls `rte_pktmbuf_free`, owns its argument and drops it at the end.
  unfoldable pub put : ℕ → Store → Store
  put object st = drop_mbuf lib object (record {
    mem = lib.after_free object st.mem;
    freed = st.freed ++ lib.free_segs st.mem object;
  })

  -- `put` of a well-formed packet whose segments each have a single reference: the call of
  -- `rte_pktmbuf_free` gives every segment back, and the drop of the argument then gives the first
  -- segment, which stands alone by then, back a second time.
  pub put_twice :
      (doc : Frees lib) (m : ℕ) (ps : List ℕ) (st : Store)
      → IsPacket st.mem m ps
      → All (λ q. (st.mem q).refcnt ≡ 1) (m ∷ ps)
      → (put m st).freed ≡ (st.freed ++ m ∷ ps) ++ m ∷ []
  unfolding put
  put_twice doc m ps st v r =
      let c = doc.cleared st.mem m ps v.linked v.bounded r in
      ap₂ (λ xs ys. (st.freed ++ xs) ++ ys) (doc.frees st.mem m ps v.linked v.bounded)
        (doc.frees (lib.after_free m st.mem) m [] (c.0, tt) (omega arith))
