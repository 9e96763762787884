-- ===== src/Tests/Mbufs.antt =====
-- Tests of src/mbuf.rs, on mbufs with a headroom of 128 bytes.
use async_dpdk.Base.{
  ℕ, ◌+◌, ◌-◌, ◌≡◌, ◌≢◌, All, refl, Option, none, some, List, [], ◌∷◌, ◌++◌, length, drop,
  replicate, length-replicate, leb, if◌then◌else◌, pos, update, update_ne, ap, ◌∙◌, subst, sym,
  arith,
}
use async_dpdk.Errno.{ok}
use async_dpdk.Mbuf.{RteMbuf, Mem, Store, Pktmbuf, data_len, iter, adj, prepend, pop_mbuf}
use async_dpdk.Mbuf.Chains.{Frees, IsPacket, contents, iter-Linked, pop_mbuf_lem}
use async_dpdk.Mbuf.IterMut.{for_each_mut, for_each_mut-IsPacket}
use async_dpdk.Mbuf.Areas.{AreaDocs, with_data, adj-prepend}

-- A segment by its data and what is behind it.
abbrev pub segment : List ℕ → Option ℕ → ℕ → ℕ → RteMbuf
segment xs next n len = record {
  next = next;
  content = xs;
  nb_segs = n;
  pkt_len = len;
  refcnt = 1;
  ol_flags = 0;
  packet_type = 529;
  tx_offload = record { l2_len = 0; l3_len = 0; l4_len = 0 };
}

-- What the calls make of a segment's data.
abbrev cut : ℕ → ℕ → Mem → Mem
cut m len mem = with_data m (drop len (mem m).content) ((mem m).pkt_len - len) mem

abbrev grown : ℕ → ℕ → Mem → Mem
grown m len mem = with_data m (replicate len 0 ++ (mem m).content) ((mem m).pkt_len + len) mem

-- A freed segment stands alone.
abbrev reset : List ℕ → Mem → Mem
reset [] mem = mem
reset (p ∷ ps) mem =
    let rest = reset ps mem in update rest p (record (rest p) { next = none; nb_segs = 1 })

reset_same : (ps : List ℕ) (mem : Mem) (x : ℕ) → All (λ q. q ≢ x) ps → reset ps mem x ≡ mem x
reset_same [] mem x h = refl
reset_same (p ∷ ps) mem x (n, h) = update_ne (reset ps mem) p _ x n ∙ reset_same ps mem x h

reset_next :
    (ps qs : List ℕ) (mem : Mem)
    → All (λ q. (reset qs mem q).next ≡ none) ps
    → (p : ℕ) → All (λ q. (reset (p ∷ qs) mem q).next ≡ none) ps
reset_next [] qs mem h p = tt
reset_next (q ∷ ps) qs mem (e, h) p = (ground arith, reset_next ps qs mem h p)

reset_cleared : (ps : List ℕ) (mem : Mem) → All (λ q. (reset ps mem q).next ≡ none) ps
reset_cleared [] mem = tt
reset_cleared (p ∷ ps) mem = (ground arith, reset_next ps ps mem (reset_cleared ps mem) p)

abbrev pub pktmbuf : Pktmbuf
pktmbuf = record {
  alloc = λ mem. none;
  alloc_bulk = λ n mem. (pos 0, [], mem);
  clone_of = λ m mem. none;
  adj_data = λ m len mem. if leb len (data_len mem m) then some (cut m len mem) else none;
  trim_data = λ m len mem. none;
  prepend_data = λ m len mem. if leb len 128 then some (grown m len mem) else none;
  append_data = λ m len mem. none;
  chain_segs = λ m n mem. (pos 0, mem);
  free_segs = λ mem p. iter 65535 mem (some p);
  after_free = λ p mem. reset (iter 65535 mem (some p)) mem;
  headroom = λ mem m. 128;
  tailroom = λ mem m. 0;
}

pub pktmbuf-Frees : Frees pktmbuf
pktmbuf-Frees = record {
  frees = λ mem p ps l h. iter-Linked (p ∷ ps) mem 65535 l (omega arith);
  kept = λ mem p ps l h x n.
      ap (λ (qs : List ℕ). reset qs mem x) (iter-Linked (p ∷ ps) mem 65535 l (omega arith))
      ∙ reset_same (p ∷ ps) mem x n;
  cleared = λ mem p ps l h r.
      subst (λ (qs : List ℕ). All (λ q. (reset qs mem q).next ≡ none) (p ∷ ps))
        (sym (iter-Linked (p ∷ ps) mem 65535 l (omega arith))) (reset_cleared (p ∷ ps) mem);
}

pub pktmbuf-AreaDocs : AreaDocs pktmbuf
pktmbuf-AreaDocs = record {
  adj_fits = λ m len mem h. ground arith;
  adj_long = λ m len mem h. ground arith;
  prepend_fits = λ m len mem h. (replicate len 0, length-replicate len 0, ground arith);
  prepend_long = λ m len mem h. ground arith;
}

-- Two segments, of two bytes and of three, and a store of one segment with other data.
abbrev pub two_segments : Store
two_segments = record {
  mem =
      update (update (λ p. segment [] none 1 0) 1 (segment (1 ∷ 2 ∷ []) (some 2) 2 5)) 2
        (segment (3 ∷ 4 ∷ 5 ∷ []) none 1 3);
  freed = [];
}

pub two_segments-IsPacket : IsPacket two_segments.mem 1 (2 ∷ [])
two_segments-IsPacket = record {
  linked = (refl, (refl, tt));
  bounded = omega arith;
  distinct = ((omega arith, tt), (tt, tt));
  counted = refl;
  measured = refl;
}

abbrev pub one_segment : List ℕ → Store
one_segment xs = record { mem = λ p. segment xs none 1 (length xs); freed = [] }

pub one_segment-IsPacket : (xs : List ℕ) → IsPacket (one_segment xs).mem 1 []
one_segment-IsPacket xs = record {
  linked = (refl, tt);
  bounded = omega arith;
  distinct = (tt, tt);
  counted = refl;
  measured = omega arith;
}

pop_mbuf_lem_example :
    (st' : Store) × (pop_mbuf pktmbuf 1 two_segments ≡ (some 2, st'))
    × IsPacket st'.mem 2 []
    × (contents st'.mem (2 ∷ []) ≡ (3 ∷ 4 ∷ 5 ∷ []) ∷ [])
    × (st'.freed ≡ 1 ∷ [])
pop_mbuf_lem_example =
    (pop_mbuf_lem pktmbuf pktmbuf-Frees 1 two_segments).1 2 [] two_segments-IsPacket

adj-prepend_example :
    (st' : Store) × (prepend pktmbuf 1 14 two_segments ≡ (ok tt, st'))
    × (data_len st'.mem 1 ≡ 16)
    × (adj pktmbuf 1 14 st' ≡ (ok tt, two_segments))
adj-prepend_example =
    (adj-prepend pktmbuf pktmbuf-AreaDocs 1 14 two_segments (omega arith)).0 (omega arith)

-- Every byte of the two segments is set to zero.
abbrev zeroed : List ℕ → List ℕ
zeroed xs = replicate (length xs) 0

for_each_mut-IsPacket_example :
    (contents (for_each_mut 2 zeroed (some 1) two_segments.mem) (1 ∷ 2 ∷ [])
      ≡ (0 ∷ 0 ∷ []) ∷ (0 ∷ 0 ∷ 0 ∷ []) ∷ [])
    × IsPacket (for_each_mut 2 zeroed (some 1) two_segments.mem) 1 (2 ∷ [])
    × ((x : ℕ)
        → All (λ q. q ≢ x) (1 ∷ 2 ∷ [])
        → for_each_mut 2 zeroed (some 1) two_segments.mem x ≡ two_segments.mem x)
for_each_mut-IsPacket_example =
    for_each_mut-IsPacket zeroed 2 1 (2 ∷ []) two_segments.mem two_segments-IsPacket
      (λ xs. length-replicate (length xs) 0) (omega arith)
