-- ===== src/Agent/Frames/Dispatch.antt =====
-- src/agent.rs: which frames `handle_ether` delivers, and which mbufs it gives back.
use async_dpdk.Base.{
  ℕ, ◌-◌, ◌≤◌, ◌<◌, ◌≡◌, refl, ap, ap₂, ◌∙◌, false, List, ◌∷◌, ◌++◌, length, drop, length-drop,
  ==-refl, arith,
}
use async_dpdk.Proto.{Ptypes}
use async_dpdk.Packet.{from_segments}
use async_dpdk.Socket.{PortTable}
use async_dpdk.Mbuf.{RteMbuf, Store, Pktmbuf, data_len}
use async_dpdk.Mbuf.Chains.{Elsewhere, Elsewhere-trans, Outside, Frees, IsPacket, contents}
use async_dpdk.Mbuf.Areas.{AreaDocs}
use async_dpdk.Mbuf.Reading.{
  Parsed, parsed, ignored, out_of_bounds, ◌>>=◌, bind-parsed, byte, u16_be, give_up, adj_or_drop,
}
use async_dpdk.Mbuf.Reading.Steps.{
  shortened, shortened_self, shortened-Elsewhere, content-shortened, shortened-IsPacket,
  adj_or_drop-fits,
}
use async_dpdk.Udp.Receive.{drop-drop}
use async_dpdk.Udp.Datagram.{handle_ipv4_udp}
use async_dpdk.Udp.Datagram.Parsing.{delivered, handle_ipv4_udp_lem}
use async_dpdk.Agent.Frames.Offloads.{
  with_offload_self, with_offload-content, with_offload-IsPacket,
}
use async_dpdk.Agent.Frames.{
  EtherTypes, Reassembly, ether_proto, offload_of, note_lengths, parse_ether_proto, whole_packet,
  handle_l3, handle_ether,
}

module _ {Bytes : Type 0} (types : EtherTypes) (frag : Reassembly) (lib : Pktmbuf)
    (frees : Frees lib) (areas : AreaDocs lib) (c : Ptypes) (to_bytes : List ℕ → Bytes) (fuel : ℕ)
    (ports : PortTable) where
  open types use {ether_ipv4, ether_ipv6}

  -- The mbuf behind the Ethernet header.
  abbrev pub at_l3 : ℕ → ℕ → ℕ → Store → Store
  at_l3 ether_type proto m st = shortened m 14 (note_lengths types ether_type proto m st)

  pub at_l3-IsPacket :
      (t proto m : ℕ) (ps : List ℕ) (st : Store)
      → IsPacket st.mem m ps
      → 14 ≤ data_len st.mem m
      → let st1 = at_l3 t proto m st in
        IsPacket st1.mem m ps
        × ((st1.mem m).content ≡ drop 14 (st.mem m).content)
        × (contents st1.mem ps ≡ contents st.mem ps)
        × ((st1.mem m).packet_type ≡ (st.mem m).packet_type)
        × Elsewhere m st.mem st1.mem
  at_l3-IsPacket t proto m ps st v h =
      let o = offload_of types t proto (st.mem m).tx_offload in
      let st0 = note_lengths types t proto m st in
      let self = with_offload_self m o st.mem in
      let (v0, e0) = with_offload-IsPacket m o st.mem ps v in
      let same : (st0.mem m).content ≡ (st.mem m).content = with_offload-content m m o st.mem in
      let (v1, e1) = shortened-IsPacket m 14 ps st0 v0 (omega (arith, ap length same)) in
      (
        v1,
        content-shortened m 14 st0 ∙ ap (drop 14) same,
        cc,
        ap (λ (r : RteMbuf). r.packet_type) (shortened_self m 14 st0)
            ∙ ap (λ (r : RteMbuf). r.packet_type) self,
        Elsewhere-trans m st.mem st0.mem (shortened m 14 st0).mem (λ x n. ground arith)
            (shortened-Elsewhere m 14 st0),
      )

  parse_lem :
      (t proto m : ℕ) (st : Store)
      → ether_proto types (st.mem m).content ≡ parsed (t, proto)
      → parse_ether_proto types m st ≡ (parsed (t, proto), note_lengths types t proto m st)
  unfolding parse_ether_proto
  parse_lem t proto m st e = ground arith

  -- A frame whose headers name its protocols, behind the Ethernet header.
  pub handle_ether-l3 :
      (t proto m : ℕ) (st : Store)
      → ether_proto types (st.mem m).content ≡ parsed (t, proto)
      → 14 ≤ data_len st.mem m
      → handle_ether types lib frag c to_bytes fuel ports m st
        ≡ handle_l3 types lib frag c to_bytes fuel ports m (t, proto) (at_l3 t proto m st)
  unfolding handle_ether
  handle_ether-l3 t proto m st e h =
      let st0 = note_lengths types t proto m st in
      let same : (st0.mem m).content ≡ (st.mem m).content =
        with_offload-content m m (offload_of types t proto (st.mem m).tx_offload) st.mem in
      ap
        (λ (x : Parsed (ℕ × ℕ) × Store). elim x.0 [
          | parsed tp ↦
              ◌>>=◌ (adj_or_drop lib m 14)
                (λ _. handle_l3 types lib frag c to_bytes fuel ports m tp) x.1
          | ignored ↦ give_up lib m x.1
          | out_of_bounds ↦ (out_of_bounds, x.1)
        ])
        (parse_lem t proto m st e)
      ∙ bind-parsed _ _
          (adj_or_drop-fits lib areas m 14 st0 (omega arith) (omega (arith, ap length same))) refl

  pub whole_packet_lem :
      (m : ℕ) (st : Store)
      → frag.is_fragmented (st.mem m).content ≡ false
      → whole_packet types lib frag c to_bytes fuel ports m st ≡ (parsed m, st)
  unfolding whole_packet
  whole_packet_lem m st e = ground arith

  handle_l3-udp :
      (m : ℕ) (st : Store)
      → frag.is_fragmented (st.mem m).content ≡ false
      → handle_l3 types lib frag c to_bytes fuel ports m (ether_ipv4, 17) st
        ≡ handle_ipv4_udp lib c to_bytes fuel ports m st
  unfolding handle_l3
  handle_l3-udp m st e = rw (==-refl ether_ipv4) (bind-parsed _ _ (whole_packet_lem m st e) refl)

  ether_proto-udp :
      (frame : List ℕ)
      → 34 ≤ length frame
      → u16_be 12 frame ≡ ether_ipv4
      → byte 23 frame ≡ 17
      → ether_proto types frame ≡ parsed (ether_ipv4, 17)
  unfolding ether_proto
  ether_proto-udp frame n t p = ground arith

  -- A frame that is marked as IPv4 and UDP, is no fragment, and whose first segment holds the three
  -- headers and at least one byte more, with fuel for its segments: it goes to the socket that
  -- `addr_2_sockfd` finds for the destination in the headers, with all bytes behind the headers, and is
  -- ignored where there is none. Every segment is given back, in order, and once, and no other mbuf
  -- changes.
  pub handle_ether-udp :
      (m : ℕ) (ps : List ℕ) (st : Store)
      → IsPacket st.mem m ps
      → let frame = (st.mem m).content in
        42 < length frame
        → u16_be 12 frame ≡ ether_ipv4
        → byte 23 frame ≡ 17
        → frag.is_fragmented (drop 14 frame) ≡ false
        → length ps < fuel
        → (st' : Store) × (handle_ether types lib frag c to_bytes fuel ports m st ≡ (
          delivered ports (drop 14 frame) (drop 34 frame) (
              from_segments c to_bytes (st.mem m).packet_type (drop 42 frame ∷ contents st.mem ps)),
          st',
        ))
          × (st'.freed ≡ st.freed ++ m ∷ ps)
          × Outside (m ∷ ps) st.mem st'.mem
  handle_ether-udp m ps st v n t p f k =
      let frame = (st.mem m).content in
      let st1 = at_l3 ether_ipv4 17 m st in
      let (v1, e1, r1, k1, o1) = at_l3-IsPacket ether_ipv4 17 m ps st v (omega arith) in
      let n1 : data_len st1.mem m ≡ length frame - 14 = ap length e1 ∙ length-drop 14 frame in
      let (st', q, g, o) =
        handle_ipv4_udp_lem lib frees areas c to_bytes fuel ports m ps st1 v1 (omega arith) k in
      (
        st',
        handle_ether-l3 ether_ipv4 17 m st (ether_proto-udp frame (omega arith) t p) (omega arith)
            ∙ handle_l3-udp m st1 (ap frag.is_fragmented e1 ∙ f)
            ∙ q
            ∙ ap
                (λ (h : List ℕ). (
                  delivered ports h (drop 20 h) (
                      from_segments c to_bytes (st1.mem m).packet_type
                        (drop 28 h ∷ contents st1.mem ps)),
                  st',
                ))
                e1
            ∙ ap
                (λ (u : List ℕ). (
                  delivered ports (drop 14 frame) u (
                      from_segments c to_bytes (st1.mem m).packet_type
                        (drop 28 (drop 14 frame) ∷ contents st1.mem ps)),
                  st',
                ))
                (drop-drop 14 20 frame)
            ∙ ap₂
                (λ (p : ℕ) (ss : List (List ℕ)). (
                  delivered ports (drop 14 frame) (drop 34 frame) (from_segments c to_bytes p ss),
                  st',
                ))
                k1 (ap₂ ◌∷◌ (drop-drop 14 28 frame) r1),
        g,
        λ x n. o x n ∙ o1 x n.0,
      )
