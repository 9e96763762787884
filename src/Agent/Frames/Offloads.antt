-- ===== src/Agent/Frames/Offloads.antt =====
-- src/agent.rs: the lengths that `parse_ether_proto` notes in an mbuf leave the packet as it is.
use async_dpdk.Base.{ℕ, ◌≡◌, sym, ap, ◌∙◌, List, [], ◌∷◌, update, All, arith}
use async_dpdk.Mbuf.{Offload, RteMbuf, Mem}
use async_dpdk.Mbuf.Chains.{IsPacket, contents, Linked-same, contents-same, total-same}

-- The memory with other offload lengths in one segment.
abbrev pub with_offload : ℕ → Offload → Mem → Mem
with_offload m o mem = update mem m (record (mem m) { tx_offload = o })

pub with_offload_self :
    (m : ℕ) (o : Offload) (mem : Mem) → with_offload m o mem m ≡ record (mem m) { tx_offload = o }
with_offload_self m o mem = ground arith

pub with_offload-content :
    (m x : ℕ) (o : Offload) (mem : Mem) → (with_offload m o mem x).content ≡ (mem x).content
with_offload-content m x o mem = ground arith

with_offload-next :
    (m x : ℕ) (o : Offload) (mem : Mem) → (with_offload m o mem x).next ≡ (mem x).next
with_offload-next m x o mem = ground arith

All-always {κ} : {P : ℕ → Type κ} (xs : List ℕ) → ((x : ℕ) → P x) → All P xs
All-always [] f = tt
All-always (x ∷ xs) f = (f x, All-always xs f)

pub with_offload-IsPacket :
    (m : ℕ) (o : Offload) (mem : Mem) (ps : List ℕ)
    → IsPacket mem m ps
    → IsPacket (with_offload m o mem) m ps
      × (contents (with_offload m o mem) (m ∷ ps) ≡ contents mem (m ∷ ps))
with_offload-IsPacket m o mem ps v =
    let mem' = with_offload m o mem in
    let self = with_offload_self m o mem in
    let bytes =
      All-always {P = λ x. (mem' x).content ≡ (mem x).content} (m ∷ ps)
        (λ x. with_offload-content m x o mem) in
    let links =
      All-always {P = λ x. (mem' x).next ≡ (mem x).next} (m ∷ ps)
        (λ x. with_offload-next m x o mem) in
    (
      record {
        linked = Linked-same (m ∷ ps) mem mem' links v.linked;
        bounded = v.bounded;
        distinct = v.distinct;
        counted = ap (λ (r : RteMbuf). r.nb_segs) self ∙ v.counted;
        measured =
            ap (λ (r : RteMbuf). r.pkt_len) self
            ∙ v.measured
            ∙ sym (total-same (m ∷ ps) mem mem' bytes);
      },
      contents-same (m ∷ ps) mem mem' bytes,
    )
