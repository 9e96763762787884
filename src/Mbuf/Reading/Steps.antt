-- ===== src/Mbuf/Reading/Steps.antt =====
-- src/agent.rs and src/proto/udp.rs: the steps of the receive functions on a segment that is long enough.
use async_dpdk.Base.{ℕ, ◌-◌, ◌≤◌, ◌<◌, ◌≡◌, ap, List, [], ◌∷◌, ◌++◌, drop, length-drop, arith}
use async_dpdk.Mbuf.{RteMbuf, Store, Pktmbuf, data_len}
use async_dpdk.Mbuf.Chains.{Elsewhere, Frees, IsPacket, contents, pop_mbuf_lem}
use async_dpdk.Mbuf.Areas.{with_data, AreaDocs, adj-ok, with_data-IsPacket}
use async_dpdk.Mbuf.Reading.{
  parsed, ignored, out_of_bounds, header, adj_or_drop, pop_or_end, skip_empty, skip_end,
}

-- The store with `len` bytes taken off a segment.
abbrev pub shortened : ℕ → ℕ → Store → Store
shortened m len st = record st {
  mem = with_data m (drop len (st.mem m).content) ((st.mem m).pkt_len - len) st.mem;
}

pub shortened_self :
    (m len : ℕ) (st : Store)
    → (shortened m len st).mem m ≡ record (st.mem m) {
      content = drop len (st.mem m).content;
      pkt_len = (st.mem m).pkt_len - len;
    }
shortened_self m len st = ground arith

pub shortened-Elsewhere : (m len : ℕ) (st : Store) → Elsewhere m st.mem (shortened m len st).mem
shortened-Elsewhere m len st x n = ground arith

pub content-shortened :
    (m len : ℕ) (st : Store) → ((shortened m len st).mem m).content ≡ drop len (st.mem m).content
content-shortened m len st = ap (λ (r : RteMbuf). r.content) (shortened_self m len st)

pub shortened-IsPacket :
    (m len : ℕ) (ps : List ℕ) (st : Store)
    → IsPacket st.mem m ps
    → len ≤ data_len st.mem m
    → IsPacket (shortened m len st).mem m ps
      × (contents (shortened m len st).mem (m ∷ ps)
          ≡ drop len (st.mem m).content ∷ contents st.mem ps)
shortened-IsPacket m len ps st v h =
    with_data-IsPacket m ((st.mem m).pkt_len - len) (drop len (st.mem m).content) st.mem ps v
      (omega (arith, v.measured, length-drop len (st.mem m).content))

pub header-fits :
    (size m : ℕ) (st : Store)
    → size ≤ data_len st.mem m
    → header size m st ≡ (parsed (st.mem m).content, st)
unfolding header
header-fits size m st h = ground arith

pub header-short :
    (size m : ℕ) (st : Store) → data_len st.mem m < size → header size m st ≡ (out_of_bounds, st)
unfolding header
header-short size m st h = ground arith

module _ (lib : Pktmbuf) where
  pub skip_empty-fits :
      (size m : ℕ) (st : Store)
      → size ≤ data_len st.mem m
      → skip_empty lib size m st ≡ (parsed m, st)
  unfolding skip_empty
  skip_empty-fits size m st h = ground arith

  pub skip_end-fits :
      (m : ℕ) (st : Store) → 1 ≤ data_len st.mem m → skip_end lib m st ≡ (parsed m, st)
  unfolding skip_end
  skip_end-fits m st h = ground arith

  pub adj_or_drop-fits :
      (areas : AreaDocs lib) (m len : ℕ) (st : Store)
      → len < 65536
      → len ≤ data_len st.mem m
      → adj_or_drop lib m len st ≡ (parsed tt, shortened m len st)
  unfolding adj_or_drop
  adj_or_drop-fits areas m len st k h = ground (arith, adj-ok lib areas m len st k h)

  -- An mbuf of one empty segment is used up.
  pub pop_or_end-last :
      (frees : Frees lib) (m : ℕ) (st : Store)
      → IsPacket st.mem m []
      → (st' : Store) × (pop_or_end lib m st ≡ (ignored, st'))
        × (st'.freed ≡ st.freed ++ m ∷ [])
        × Elsewhere m st.mem st'.mem
  unfolding pop_or_end
  pop_or_end-last frees m st v =
      let (st', e, f, o) = (pop_mbuf_lem lib frees m st).0 v in (st', ground arith, f, o)

  pub skip_end-last :
      (frees : Frees lib) (m : ℕ) (st : Store)
      → IsPacket st.mem m []
      → data_len st.mem m ≡ 0
      → (st' : Store) × (skip_end lib m st ≡ (ignored, st'))
        × (st'.freed ≡ st.freed ++ m ∷ [])
        × Elsewhere m st.mem st'.mem
  unfolding skip_end
  skip_end-last frees m st v h =
      let (st', e, f, o) = pop_or_end-last frees m st v in (st', ground arith, f, o)

  -- An empty segment with another one behind it.
  pub skip_empty-next :
      (frees : Frees lib) (size m q : ℕ) (ps : List ℕ) (st : Store)
      → IsPacket st.mem m (q ∷ ps)
      → 0 < size
      → data_len st.mem m ≡ 0
      → (st' : Store) × (skip_empty lib size m st ≡ (parsed q, st'))
        × IsPacket st'.mem q ps
        × (contents st'.mem (q ∷ ps) ≡ contents st.mem (q ∷ ps))
        × (st'.freed ≡ st.freed ++ m ∷ [])
  unfolding skip_empty pop_or_end
  skip_empty-next frees size m q ps st v k h =
      let (st', e, w, c, f) = (pop_mbuf_lem lib frees m st).1 q ps v in (st', ground arith, w, c, f)
