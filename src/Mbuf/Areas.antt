-- ===== src/Mbuf/Areas.antt =====
-- src/mbuf.rs: shrinking and growing the data of the first segment.
use mathlib.Core.Path.{fun_ext}
use async_dpdk.Base.{
  ℕ, ◌+◌, ◌-◌, ◌≤◌, ◌<◌, ◌≡◌, ◌≢◌, refl, sym, ap, ap₂, ◌∙◌, none, some, List, ◌∷◌, ◌++◌, length,
  drop, length-drop, length-append, drop-append_length, update, All, arith,
}
use async_dpdk.Errno.{no_mem, invalid_arg, ok, err}
use async_dpdk.Mbuf.{RteMbuf, Mem, Store, Pktmbuf, data_len, adj, prepend}
use async_dpdk.Mbuf.Chains.{
  contents, total, IsPacket, All-map, Linked-same, contents-same, total-same,
}

-- The memory with other data in a segment, and another length of the packet.
abbrev pub with_data : ℕ → List ℕ → ℕ → Mem → Mem
with_data m xs n mem = update mem m (record (mem m) { content = xs; pkt_len = n })

-- What DPDK documents: `rte_pktmbuf_adj` removes bytes at the start of the first segment, which must
-- have as many; `rte_pktmbuf_prepend` adds bytes there, for which there must be room.
pub record AreaDocs (lib : Pktmbuf) : Type 0 where
  pub adj_fits :
      (m len : ℕ) (mem : Mem)
      → len ≤ data_len mem m
      → lib.adj_data m len mem
        ≡ some (with_data m (drop len (mem m).content) ((mem m).pkt_len - len) mem)
  pub adj_long : (m len : ℕ) (mem : Mem) → data_len mem m < len → lib.adj_data m len mem ≡ none
  pub prepend_fits :
      (m len : ℕ) (mem : Mem)
      → len ≤ lib.headroom mem m
      → (xs : List ℕ) × (length xs ≡ len)
        × (lib.prepend_data m len mem
            ≡ some (with_data m (xs ++ (mem m).content) ((mem m).pkt_len + len) mem))
  pub prepend_long :
      (m len : ℕ) (mem : Mem) → lib.headroom mem m < len → lib.prepend_data m len mem ≡ none

with_data_other : (m x n : ℕ) (xs : List ℕ) (mem : Mem) → m ≢ x → with_data m xs n mem x ≡ mem x
with_data_other m x n xs mem h = ground arith

with_data_self :
    (m n : ℕ) (xs : List ℕ) (mem : Mem)
    → with_data m xs n mem m ≡ record (mem m) { content = xs; pkt_len = n }
with_data_self m n xs mem = ground arith

-- Other data in the first segment, and the length that fits them, leave a packet.
pub with_data-IsPacket :
    (m n : ℕ) (xs : List ℕ) (mem : Mem) (ps : List ℕ)
    → IsPacket mem m ps
    → n ≡ length xs + total mem ps
    → IsPacket (with_data m xs n mem) m ps
      × (contents (with_data m xs n mem) (m ∷ ps) ≡ xs ∷ contents mem ps)
with_data-IsPacket m n xs mem ps v e =
    let mem' = with_data m xs n mem in
    let self = with_data_self m n xs mem in
    let same : All (λ x. mem' x ≡ mem x) ps =
      All-map ps (λ x h. with_data_other m x n xs mem h) v.distinct.0 in
    let links =
      All-map {Q = λ x. (mem' x).next ≡ (mem x).next} ps (λ x q. ap (λ (r : RteMbuf). r.next) q)
        same in
    let bytes =
      All-map {Q = λ x. (mem' x).content ≡ (mem x).content} ps
        (λ x q. ap (λ (r : RteMbuf). r.content) q) same in
    let here : (mem' m).content ≡ xs = ap (λ (r : RteMbuf). r.content) self in
    (
      record {
        linked = (
          ap (λ (r : RteMbuf). r.next) self ∙ v.linked.0,
          Linked-same ps mem mem' links v.linked.1,
        );
        bounded = v.bounded;
        distinct = v.distinct;
        counted = ap (λ (r : RteMbuf). r.nb_segs) self ∙ v.counted;
        measured =
            ap (λ (r : RteMbuf). r.pkt_len) self
            ∙ e
            ∙ sym (ap₂ ◌+◌ (ap length here) (total-same ps mem mem' bytes));
      },
      ap₂ ◌∷◌ here (contents-same ps mem mem' bytes),
    )

add-minus : (a b : ℕ) → a + b - b ≡ a
add-minus a b = omega arith

module _ (lib : Pktmbuf) (doc : AreaDocs lib) where
  pub adj-ok :
      (m len : ℕ) (st : Store)
      → len < 65536
      → len ≤ data_len st.mem m
      → adj lib m len st ≡ (
        ok tt,
        record st {
          mem = with_data m (drop len (st.mem m).content) ((st.mem m).pkt_len - len) st.mem;
        },
      )
  unfolding adj
  adj-ok m len st k h = ground (arith, doc.adj_fits m len st.mem h)

  -- `adj` of a packet, by a length that fits a `u16`: with at least as many bytes in the first segment
  -- it takes them off and leaves a packet, whose other segments keep their bytes; with fewer it
  -- fails with `InvalidArg` and changes nothing.
  pub adj_lem :
      (m len : ℕ) (ps : List ℕ) (st : Store)
      → IsPacket st.mem m ps
      → len < 65536
      → (len ≤ data_len st.mem m
          → (st' : Store) × (adj lib m len st ≡ (ok tt, st'))
            × IsPacket st'.mem m ps
            × (contents st'.mem (m ∷ ps) ≡ drop len (st.mem m).content ∷ contents st.mem ps)
            × (st'.freed ≡ st.freed))
        × (data_len st.mem m < len → adj lib m len st ≡ (err invalid_arg, st))
  unfolding adj
  adj_lem m len ps st v k = (
    λ h.
        let xs = drop len (st.mem m).content in
        let n = (st.mem m).pkt_len - len in
        let (w, c) =
          with_data-IsPacket m n xs st.mem ps v
            (omega (arith, v.measured, length-drop len (st.mem m).content)) in
        (record st { mem = with_data m xs n st.mem }, adj-ok m len st k h, w, c, refl),
    λ h. ground (arith, doc.adj_long m len st.mem h),
  )

  prepend-ok :
      (m len : ℕ) (xs : List ℕ) (st : Store)
      → len < 65536
      → lib.prepend_data m len st.mem
        ≡ some (with_data m (xs ++ (st.mem m).content) ((st.mem m).pkt_len + len) st.mem)
      → prepend lib m len st ≡ (
        ok tt,
        record st {
          mem = with_data m (xs ++ (st.mem m).content) ((st.mem m).pkt_len + len) st.mem;
        },
      )
  unfolding prepend
  prepend-ok m len xs st k e = ground arith

  -- The record of a segment with its own data.
  with_data_back :
      (m n n' : ℕ) (xs ys : List ℕ) (mem : Mem)
      → ys ≡ (mem m).content
      → n' ≡ (mem m).pkt_len
      → with_data m ys n' (with_data m xs n mem) ≡ mem
  with_data_back m n n' xs ys mem e q = fun_ext λ x. ground arith

  -- `prepend` of a length that fits a `u16`, where there is room, succeeds, and `adj` by the same length
  -- then brings back the memory as it was. Without room it fails with `NoMem` and changes nothing.
  pub adj-prepend :
      (m len : ℕ) (st : Store)
      → len < 65536
      → (len ≤ lib.headroom st.mem m
          → (st' : Store) × (prepend lib m len st ≡ (ok tt, st'))
            × (data_len st'.mem m ≡ len + data_len st.mem m)
            × (adj lib m len st' ≡ (ok tt, st)))
        × (lib.headroom st.mem m < len → prepend lib m len st ≡ (err no_mem, st))
  unfolding prepend
  adj-prepend m len st k = (
    λ h.
        let (xs, l, e) = doc.prepend_fits m len st.mem h in
        let old = (st.mem m).content in
        let n = (st.mem m).pkt_len + len in
        let mem' = with_data m (xs ++ old) n st.mem in
        let self = with_data_self m n (xs ++ old) st.mem in
        let bytes : (mem' m).content ≡ xs ++ old = ap (λ (r : RteMbuf). r.content) self in
        let size : data_len mem' m ≡ len + length old =
          ap length bytes ∙ length-append xs old ∙ ap (λ (j : ℕ). j + length old) l in
        let back : drop len (mem' m).content ≡ old =
          ap (drop len) bytes
          ∙ ap (λ (j : ℕ). drop j (xs ++ old)) (sym l)
          ∙ drop-append_length xs old in
        let count : (mem' m).pkt_len - len ≡ (st.mem m).pkt_len =
          ap (λ (r : RteMbuf). r.pkt_len - len) self ∙ add-minus (st.mem m).pkt_len len in
        (
          record st { mem = mem' },
          prepend-ok m len xs st k e,
          size,
          adj-ok m len (record st { mem = mem' }) k (omega (arith, size))
              ∙ ap (λ (mem : Mem). (ok tt, record st { mem = mem }))
                  (with_data_back m n ((mem' m).pkt_len - len) (xs ++ old)
                    (drop len (mem' m).content) st.mem back count),
        ),
    λ h. ground (arith, doc.prepend_long m len st.mem h),
  )
