-- ===== src/Agent/Frames/Single.antt =====
-- src/agent.rs: what `handle_ether` makes of a frame of one segment.
use async_dpdk.Base.{
  ℕ, ◌≤◌, ◌<◌, ◌≡◌, ◌≢◌, refl, sym, ap, ◌∙◌, ◌⊎◌, subst, false, List, [], ◌∷◌, ◌++◌, length, drop,
  ◌==◌, inl, inr, Bool-cases, arith,
}
use async_dpdk.Proto.{Ptypes}
use async_dpdk.Socket.{PortTable}
use async_dpdk.Mbuf.{Store, Pktmbuf}
use async_dpdk.Mbuf.Chains.{Elsewhere, Elsewhere-trans, Frees, IsPacket}
use async_dpdk.Mbuf.Areas.{AreaDocs}
use async_dpdk.Mbuf.Reading.{Parsed, parsed, ignored, out_of_bounds, bind-parsed, give_up}
use async_dpdk.Udp.Datagram.{Datagram}
use async_dpdk.Udp.Datagram.Single.{handle_ipv4_udp-single}
use async_dpdk.Agent.Frames.{
  EtherTypes, Reassembly, ether_proto, parse_ether_proto, handle_l3, handle_ether,
}
use async_dpdk.Agent.Frames.Dispatch.{at_l3, at_l3-IsPacket, whole_packet_lem, handle_ether-l3}

Parsed-cases :
    (P : Type 0) (x : Parsed (ℕ × ℕ))
    → x ≢ out_of_bounds
    → ((t p : ℕ) → x ≡ parsed (t, p) → P)
    → (x ≡ ignored) ⊎ ((t : ℕ) × (p : ℕ) × (x ≡ parsed (t, p)) × P)
Parsed-cases P ignored n h = inl refl
Parsed-cases P (parsed (t, p)) n h = inr (t, p, refl, h t p refl)
Parsed-cases P out_of_bounds n h = absurd (n refl)

module _ {Bytes : Type 0} (types : EtherTypes) (frag : Reassembly) (lib : Pktmbuf)
    (frees : Frees lib) (areas : AreaDocs lib) (c : Ptypes) (to_bytes : List ℕ → Bytes) (fuel : ℕ)
    (ports : PortTable) where
  open types use {ether_ipv4, ether_ipv6}

  -- The outcome of a function that owns an mbuf of one segment.
  abbrev pub Consumes : ℕ → Store → Parsed (Datagram Bytes) × Store → Type 0
  Consumes m st (r, st') =
      (r ≢ out_of_bounds) × (st'.freed ≡ st.freed ++ m ∷ []) × Elsewhere m st.mem st'.mem

  give_up-Consumes : (m : ℕ) (st : Store) → IsPacket st.mem m [] → Consumes m st (give_up lib m st)
  give_up-Consumes m st v = (
    λ q. cc,
    ap (λ (xs : List ℕ). st.freed ++ xs) (frees.frees st.mem m [] v.linked v.bounded),
    λ x n. frees.kept st.mem m [] v.linked v.bounded x (n, tt),
  )

  handle_l3-Consumes :
      (t proto m : ℕ) (st : Store)
      → IsPacket st.mem m []
      → frag.is_fragmented (st.mem m).content ≡ false
      → 0 < fuel
      → Consumes m st (handle_l3 types lib frag c to_bytes fuel ports m (t, proto) st)
  unfolding handle_l3
  handle_l3-Consumes t proto m st v f k = elim (Bool-cases (t == ether_ipv4)) [
    | inr e ↦ rw e (give_up-Consumes m st v)
    | inl e ↦ elim (Bool-cases (proto == 17)) [
      | inr u ↦
          rw (e, u)
            (subst (Consumes m st)
              (sym (
                bind-parsed _ _
                  (whole_packet_lem types frag lib frees areas c to_bytes fuel ports m st f) refl))
              (give_up-Consumes m st v))
      | inl u ↦
          let (n, g, _, o) =
            handle_ipv4_udp-single lib frees areas c to_bytes fuel ports m st v k in
          rw (e, u)
            (subst (Consumes m st)
              (sym (
                bind-parsed _ _
                  (whole_packet_lem types frag lib frees areas c to_bytes fuel ports m st f) refl))
              (n, g, o))
    ]
  ]

  ether_proto-ne : (frame : List ℕ) → ether_proto types frame ≢ out_of_bounds
  unfolding ether_proto
  ether_proto-ne frame q = ground arith

  ether_proto-long :
      (frame : List ℕ) (t proto : ℕ)
      → ether_proto types frame ≡ parsed (t, proto)
      → 14 ≤ length frame
  unfolding ether_proto
  ether_proto-long frame t proto q = ground arith

  ether_proto-cases :
      (frame : List ℕ)
      → (ether_proto types frame ≡ ignored)
        ⊎ ((t : ℕ) × (proto : ℕ) × (ether_proto types frame ≡ parsed (t, proto))
            × (14 ≤ length frame))
  ether_proto-cases frame =
      Parsed-cases (14 ≤ length frame) (ether_proto types frame) (ether_proto-ne frame)
        (ether_proto-long frame)

  handle_ether-ignored :
      (m : ℕ) (st : Store)
      → ether_proto types (st.mem m).content ≡ ignored
      → handle_ether types lib frag c to_bytes fuel ports m st ≡ give_up lib m st
  unfolding handle_ether parse_ether_proto
  handle_ether-ignored m st e = ground arith

  -- A frame of one segment that is no fragment, whatever its bytes: `handle_ether` never reads behind
  -- the segment's data, gives the segment back exactly once, on every path, and changes no other mbuf.
  pub handle_ether-single :
      (m : ℕ) (st : Store)
      → IsPacket st.mem m []
      → frag.is_fragmented (drop 14 (st.mem m).content) ≡ false
      → 0 < fuel
      → let (r, st') = handle_ether types lib frag c to_bytes fuel ports m st in
        (r ≢ out_of_bounds) × (st'.freed ≡ st.freed ++ m ∷ []) × Elsewhere m st.mem st'.mem
  handle_ether-single m st v f k = elim (ether_proto-cases (st.mem m).content) [
    | inl e ↦ subst (Consumes m st) (sym (handle_ether-ignored m st e)) (give_up-Consumes m st v)
    | inr (t, proto, e, n) ↦
        let (v1, e1, _, _, o1) =
          at_l3-IsPacket types frag lib frees areas c to_bytes fuel ports t proto m [] st v n in
        let st1 = at_l3 types frag lib frees areas c to_bytes fuel ports t proto m st in
        let (w, g, o) = handle_l3-Consumes t proto m st1 v1 (ap frag.is_fragmented e1 ∙ f) k in
        let st2 = (handle_l3 types lib frag c to_bytes fuel ports m (t, proto) st1).1 in
        subst (Consumes m st)
          (sym (handle_ether-l3 types frag lib frees areas c to_bytes fuel ports t proto m st e n))
          (w, g, Elsewhere-trans m st.mem st1.mem st2.mem o1 o)
  ]
