-- ===== src/Mbuf/Chains.antt =====
-- src/mbuf.rs: chains of segments, and what `pop_mbuf` and `iter` make of them.
use async_dpdk.Base.{
  ℕ, zero, suc, ◌+◌, ◌≤◌, ◌<◌, ◌≡◌, ◌≢◌, refl, sym, ap, ap₂, ◌∙◌, Option, none, some, List, [], ◌∷◌,
  ◌++◌, map, length, update, All, Distinct, arith,
}
use async_dpdk.Mbuf.{RteMbuf, Mem, Store, Pktmbuf, iter, drop_mbuf, inherit, unlink, pop_mbuf}

-- The pointer to the first of the segments.
abbrev pub first : List ℕ → Option ℕ
first [] = none
first (p ∷ ps) = some p

-- The segments `ps` are linked in this order, and the last has no `next`.
abbrev pub Linked : Mem → List ℕ → Type 0
Linked mem [] = Unit {0}
Linked mem (p ∷ ps) = ((mem p).next ≡ first ps) × Linked mem ps

abbrev pub contents : Mem → List ℕ → List (List ℕ)
contents mem = map (λ p. (mem p).content)

abbrev pub total : Mem → List ℕ → ℕ
total mem [] = 0
total mem (p ∷ ps) = length (mem p).content + total mem ps

-- A packet whose first segment is `p`: the segments are distinct and linked, and the first one has
-- their number, a `u16`, and the length of all their bytes.
pub record IsPacket (mem : Mem) (p : ℕ) (ps : List ℕ) : Type 0 where
  pub linked : Linked mem (p ∷ ps)
  pub bounded : length ps < 65535
  pub distinct : Distinct (p ∷ ps)
  pub counted : (mem p).nb_segs ≡ suc (length ps)
  pub measured : (mem p).pkt_len ≡ total mem (p ∷ ps)

-- Memory that differs at these mbufs only.
abbrev pub Outside : List ℕ → Mem → Mem → Type 0
Outside ms mem mem' = (x : ℕ) → All (λ m. m ≢ x) ms → mem' x ≡ mem x

-- `rte_pktmbuf_free` gives back every segment of the chain, in order, and writes to no other mbuf; each segment
-- that had a single reference has no `next` then. A chain has at most 65535 segments, and none of them is
-- attached to the data of another mbuf.
pub record Frees (lib : Pktmbuf) : Type 0 where
  pub frees :
      (mem : Mem) (p : ℕ) (ps : List ℕ)
      → Linked mem (p ∷ ps)
      → length ps < 65535
      → lib.free_segs mem p ≡ p ∷ ps
  pub kept :
      (mem : Mem) (p : ℕ) (ps : List ℕ)
      → Linked mem (p ∷ ps)
      → length ps < 65535
      → Outside (p ∷ ps) mem (lib.after_free p mem)
  pub cleared :
      (mem : Mem) (p : ℕ) (ps : List ℕ)
      → Linked mem (p ∷ ps)
      → length ps < 65535
      → All (λ q. (mem q).refcnt ≡ 1) (p ∷ ps)
      → All (λ q. (lib.after_free p mem q).next ≡ none) (p ∷ ps)

-- `iter` visits the segments in their order, and ends behind the last: more calls of `next` than there
-- are segments give no more items.
pub iter-Linked :
    (ps : List ℕ) (mem : Mem) (fuel : ℕ)
    → Linked mem ps
    → length ps ≤ fuel
    → iter fuel mem (first ps) ≡ ps
unfolding iter
iter-Linked [] mem zero l h = refl
iter-Linked [] mem (suc fuel) l h = refl
iter-Linked (p ∷ ps) mem zero l h = absurd (omega arith)
iter-Linked (p ∷ ps) mem (suc fuel) l h =
    ap (λ (n : Option ℕ). p ∷ iter fuel mem n) l.0
    ∙ ap (◌∷◌ p) (iter-Linked ps mem fuel l.1 (omega arith))

-- A change of memory that keeps the links of these segments, or their bytes.
pub Linked-same :
    (ps : List ℕ) (mem mem' : Mem)
    → All (λ p. (mem' p).next ≡ (mem p).next) ps
    → Linked mem ps
    → Linked mem' ps
Linked-same [] mem mem' h l = tt
Linked-same (p ∷ ps) mem mem' h l = (h.0 ∙ l.0, Linked-same ps mem mem' h.1 l.1)

pub contents-same :
    (ps : List ℕ) (mem mem' : Mem)
    → All (λ p. (mem' p).content ≡ (mem p).content) ps
    → contents mem' ps ≡ contents mem ps
contents-same [] mem mem' h = refl
contents-same (p ∷ ps) mem mem' h = ap₂ ◌∷◌ h.0 (contents-same ps mem mem' h.1)

pub total-same :
    (ps : List ℕ) (mem mem' : Mem)
    → All (λ p. (mem' p).content ≡ (mem p).content) ps
    → total mem' ps ≡ total mem ps
total-same [] mem mem' h = refl
total-same (p ∷ ps) mem mem' h = ap₂ ◌+◌ (ap length h.0) (total-same ps mem mem' h.1)

pub All-map {ℓ κ} :
    {P : ℕ → Type ℓ} {Q : ℕ → Type κ} (xs : List ℕ) → ((x : ℕ) → P x → Q x) → All P xs → All Q xs
All-map [] f h = tt
All-map (x ∷ xs) f h = (f x h.0, All-map xs f h.1)

pub All-both {ℓ κ} :
    (P : ℕ → Type ℓ) (Q : ℕ → Type κ) (xs : List ℕ) → All P xs → All Q xs → All (λ x. P x × Q x) xs
All-both P Q [] h g = tt
All-both P Q (x ∷ xs) h g = ((h.0, g.0), All-both P Q xs h.1 g.1)

-- Memory that differs at one mbuf only.
abbrev pub Elsewhere : ℕ → Mem → Mem → Type 0
Elsewhere m mem mem' = (x : ℕ) → m ≢ x → mem' x ≡ mem x

pub Elsewhere-trans :
    (m : ℕ) (mem1 mem2 mem3 : Mem)
    → Elsewhere m mem1 mem2
    → Elsewhere m mem2 mem3
    → Elsewhere m mem1 mem3
Elsewhere-trans m mem1 mem2 mem3 f g x n = g x n ∙ f x n

-- A packet whose segments did not change.
pub IsPacket-same :
    (p : ℕ) (ps : List ℕ) (mem mem' : Mem)
    → IsPacket mem p ps
    → All (λ x. mem' x ≡ mem x) (p ∷ ps)
    → IsPacket mem' p ps × (contents mem' (p ∷ ps) ≡ contents mem (p ∷ ps))
IsPacket-same p ps mem mem' v same =
    let links =
      All-map {Q = λ x. (mem' x).next ≡ (mem x).next} (p ∷ ps)
        (λ x e. ap (λ (m : RteMbuf). m.next) e) same in
    let bytes =
      All-map {Q = λ x. (mem' x).content ≡ (mem x).content} (p ∷ ps)
        (λ x e. ap (λ (m : RteMbuf). m.content) e) same in
    (
      record {
        linked = Linked-same (p ∷ ps) mem mem' links v.linked;
        bounded = v.bounded;
        distinct = v.distinct;
        counted = ap (λ (m : RteMbuf). m.nb_segs) same.0 ∙ v.counted;
        measured =
            ap (λ (m : RteMbuf). m.pkt_len) same.0
            ∙ v.measured
            ∙ sym (total-same (p ∷ ps) mem mem' bytes);
      },
      contents-same (p ∷ ps) mem mem' bytes,
    )

-- The memory behind `pop_mbuf` of `p`, whose next segment is `q`.
abbrev pub popped : ℕ → ℕ → Mem → Mem
popped p q mem = let cut = unlink p mem in update cut q (inherit (cut p) (cut q))

popped_other : (p q x : ℕ) (mem : Mem) → (p ≢ x) × (q ≢ x) → popped p q mem x ≡ mem x
popped_other p q x mem h = ground arith

module _ (p q : ℕ) (mem : Mem) (ne : p ≢ q) where
  popped_self : popped p q mem p ≡ record (mem p) { next = none }
  popped_self = ground arith

  popped-next : popped p q mem q ≡ inherit (mem p) (mem q)
  popped-next = ground arith

  popped-IsPacket :
      (ps : List ℕ)
      → IsPacket mem p (q ∷ ps)
      → IsPacket (popped p q mem) q ps
        × (contents (popped p q mem) (q ∷ ps) ≡ contents mem (q ∷ ps))
  popped-IsPacket ps v =
      let mem' = popped p q mem in
      let same : All (λ x. mem' x ≡ mem x) ps =
        All-map ps (λ x h. popped_other p q x mem h)
          (All-both (λ x. p ≢ x) (λ x. q ≢ x) ps v.distinct.0.1 v.distinct.1.0) in
      let links =
        All-map {Q = λ x. (mem' x).next ≡ (mem x).next} ps (λ x e. ap (λ (m : RteMbuf). m.next) e)
          same in
      let bytes =
        All-map {Q = λ x. (mem' x).content ≡ (mem x).content} ps
          (λ x e. ap (λ (m : RteMbuf). m.content) e) same in
      let here : (mem' q).content ≡ (mem q).content = ap (λ (m : RteMbuf). m.content) popped-next in
      (
        record {
          linked = (
            ap (λ (m : RteMbuf). m.next) popped-next ∙ v.linked.1.0,
            Linked-same ps mem mem' links v.linked.1.1,
          );
          bounded = omega (arith, v.bounded);
          distinct = v.distinct.1;
          counted = ap (λ (m : RteMbuf). m.nb_segs) popped-next ∙ omega (arith, v.counted);
          measured =
              ap (λ (m : RteMbuf). m.pkt_len) popped-next
              ∙ omega (arith, v.measured)
              ∙ sym (total-same (q ∷ ps) mem mem' (here, bytes));
        },
        contents-same (q ∷ ps) mem mem' (here, bytes),
      )

module _ (lib : Pktmbuf) (doc : Frees lib) where
  -- `pop_mbuf` of a packet with more segments gives the packet of the segments behind the first one,
  -- with the same bytes, and gives the first segment alone back to its pool. Of a packet with one segment
  -- it gives nothing, the segment goes back too, and no other changes.
  pub pop_mbuf_lem :
      (p : ℕ) (st : Store)
      → (IsPacket st.mem p []
          → (st' : Store) × (pop_mbuf lib p st ≡ (none, st'))
            × (st'.freed ≡ st.freed ++ p ∷ [])
            × Elsewhere p st.mem st'.mem)
        × ((q : ℕ) (ps : List ℕ)
            → IsPacket st.mem p (q ∷ ps)
            → (st' : Store) × (pop_mbuf lib p st ≡ (some q, st'))
              × IsPacket st'.mem q ps
              × (contents st'.mem (q ∷ ps) ≡ contents st.mem (q ∷ ps))
              × (st'.freed ≡ st.freed ++ p ∷ []))
  unfolding pop_mbuf
  pop_mbuf_lem p st = (
    λ v. (
      drop_mbuf lib p (record st { mem = unlink p st.mem }),
      ground (arith, v.linked.0),
      ap (λ (xs : List ℕ). st.freed ++ xs)
          (doc.frees (unlink p st.mem) p [] (ground arith, tt) (omega arith)),
      λ x n.
          doc.kept (unlink p st.mem) p [] (ground arith, tt) (omega arith) x (n, tt) ∙ ground arith,
    ),
    λ q ps v.
        let mem' = popped p q st.mem in
        let ne : p ≢ q = v.distinct.0.0 in
        let (w', c') = popped-IsPacket p q st.mem ne ps v in
        let alone : Linked mem' (p ∷ []) =
          (ap (λ (m : RteMbuf). m.next) (popped_self p q st.mem ne), tt) in
        let (w, c) = IsPacket-same q ps mem' (lib.after_free p mem') w' (
          All-map {P = λ x. p ≢ x} (q ∷ ps)
            (λ x n. doc.kept mem' p [] alone (omega arith) x (n, tt)) v.distinct.0) in
        (
          drop_mbuf lib p (record st { mem = mem' }),
          ground (arith, v.linked.0),
          w,
          c ∙ c',
          ap (λ (xs : List ℕ). st.freed ++ xs) (doc.frees mem' p [] alone (omega arith)),
        ),
  )
