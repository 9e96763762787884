-- ===== src/Udp/Datagram/Parsing.antt =====
-- src/proto/udp.rs: what `handle_ipv4_udp` makes of a packet, and which mbufs it gives back.
use async_dpdk.Base.{
  ℕ, ◌-◌, ◌≤◌, ◌<◌, ◌≡◌, ◌≢◌, ap, ap₂, ◌∙◌, none, some, List, ◌∷◌, ◌++◌, length, drop, length-drop,
  Option-cases, inl, inr, arith,
}
use async_dpdk.Proto.{Ptypes}
use async_dpdk.Packet.{Packet, from_segments}
use async_dpdk.Socket.{PortTable, addr_2_sockfd}
use async_dpdk.Mbuf.{RteMbuf, Store, Pktmbuf, data_len, drop_mbuf}
use async_dpdk.Mbuf.Chains.{
  Elsewhere, Elsewhere-trans, Outside, Frees, IsPacket, contents, iter-Linked,
}
use async_dpdk.Mbuf.Areas.{AreaDocs}
use async_dpdk.Mbuf.Reading.{
  Parsed, Handler, parsed, ignored, out_of_bounds, skip_end, ◌>>=◌, bind-parsed, bind-out_of_bounds,
}
use async_dpdk.Mbuf.Reading.Steps.{
  shortened, shortened_self, shortened-Elsewhere, content-shortened, shortened-IsPacket,
  header-fits, skip_empty-fits, skip_end-fits, adj_or_drop-fits, skip_empty-next, header-short,
}
use async_dpdk.Udp.Receive.{drop-drop}
use async_dpdk.Udp.Datagram.{
  Datagram, src_ip, dst_ip, src_port, dst_port, long_enough, take_packet, find_socket,
  handle_ipv4_udp,
}

-- What the headers `ip` and `udp` and the packet behind them are delivered as.
abbrev pub delivered :
    {Bytes : Type 0} → PortTable → List ℕ → List ℕ → Packet Bytes → Parsed (Datagram Bytes)
delivered ports ip udp packet = elim (addr_2_sockfd (dst_port udp) (dst_ip ip) ports) [
  | none ↦ ignored
  | some fd ↦ parsed (record {
    sockfd = fd;
    src = record { ip = src_ip ip; port = src_port udp };
    packet = packet;
  })
]

pub delivered-ne :
    {Bytes : Type 0} (ports : PortTable) (ip udp : List ℕ) (packet : Packet Bytes)
    → delivered ports ip udp packet ≢ out_of_bounds
delivered-ne ports ip udp packet q =
    elim (Option-cases (addr_2_sockfd (dst_port udp) (dst_ip ip) ports)) [
      | inl e ↦ ground arith
      | inr (fd, e) ↦ ground arith
    ]

module _ {Bytes : Type 0} (lib : Pktmbuf) (frees : Frees lib) (areas : AreaDocs lib) (c : Ptypes)
    (to_bytes : List ℕ → Bytes) (fuel : ℕ) (ports : PortTable) where
  pub twice_Elsewhere :
      (m : ℕ) (st : Store) → Elsewhere m st.mem (shortened m 8 (shortened m 20 st)).mem
  twice_Elsewhere m st =
      let st1 = shortened m 20 st in
      Elsewhere-trans m st.mem st1.mem (shortened m 8 st1).mem (shortened-Elsewhere m 20 st)
        (shortened-Elsewhere m 8 st1)

  long_enough-fits :
      (m : ℕ) (st : Store)
      → 28 ≤ (st.mem m).pkt_len
      → long_enough lib c to_bytes fuel ports m st ≡ (parsed tt, st)
  unfolding long_enough
  long_enough-fits m st h = ground arith

  take_packet_lem :
      (m : ℕ) (ps : List ℕ) (st : Store)
      → IsPacket st.mem m ps
      → length ps < fuel
      → (st' : Store) × (take_packet lib c to_bytes fuel ports m st ≡ (
        parsed (from_segments c to_bytes (st.mem m).packet_type (contents st.mem (m ∷ ps))),
        st',
      ))
        × (st'.freed ≡ st.freed ++ m ∷ ps)
        × Outside (m ∷ ps) st.mem st'.mem
  unfolding take_packet
  take_packet_lem m ps st v h = (
    drop_mbuf lib m st,
    ap
        (λ (qs : List ℕ). (
          parsed (from_segments c to_bytes (st.mem m).packet_type (contents st.mem qs)),
          drop_mbuf lib m st,
        ))
        (iter-Linked (m ∷ ps) st.mem fuel v.linked (omega arith)),
    ap (λ (xs : List ℕ). st.freed ++ xs) (frees.frees st.mem m ps v.linked v.bounded),
    frees.kept st.mem m ps v.linked v.bounded,
  )

  -- The end of `handle_ipv4_udp`, behind the headers.
  abbrev pub finish : List ℕ → List ℕ → ℕ → Handler (Datagram Bytes)
  finish ip udp m = do
    m3 ← skip_end lib m
    packet ← take_packet lib c to_bytes fuel ports m3
    find_socket lib c to_bytes fuel ports ip udp packet

  -- The steps up to there, for a first segment that holds both headers.
  pub handle_ipv4_udp-finish :
      (m : ℕ) (st : Store)
      → 28 ≤ (st.mem m).pkt_len
      → 28 ≤ data_len st.mem m
      → let st2 = shortened m 8 (shortened m 20 st) in
        (data_len st2.mem m ≡ data_len st.mem m - 28)
        × (handle_ipv4_udp lib c to_bytes fuel ports m st
            ≡ finish (st.mem m).content (drop 20 (st.mem m).content) m st2)
  unfolding handle_ipv4_udp
  handle_ipv4_udp-finish m st k h =
      let st1 = shortened m 20 st in
      let st2 = shortened m 8 st1 in
      let c1 = content-shortened m 20 st in
      let n1 : data_len st1.mem m ≡ data_len st.mem m - 20 =
        ap length c1 ∙ length-drop 20 (st.mem m).content in
      let n2 : data_len st2.mem m ≡ data_len st1.mem m - 8 =
        ap length (content-shortened m 8 st1) ∙ length-drop 8 (st1.mem m).content in
      (
        omega arith,
        bind-parsed _ _ (long_enough-fits m st k) (
            bind-parsed _ _ (skip_empty-fits lib 20 m st (omega arith)) (
              bind-parsed _ _ (header-fits 20 m st (omega arith)) (
                bind-parsed _ _ (adj_or_drop-fits lib areas m 20 st (omega arith) (omega arith)) (
                  bind-parsed _ _ (skip_empty-fits lib 8 m st1 (omega arith)) (
                    bind-parsed _ _ (header-fits 8 m st1 (omega arith)) (
                      bind-parsed _ _
                        (adj_or_drop-fits lib areas m 8 st1 (omega arith) (omega arith))
                        (ap (λ (xs : List ℕ). finish (st.mem m).content xs m st2) c1))))))),
      )

  find_socket_lem :
      (ip udp : List ℕ) (packet : Packet Bytes) (st : Store)
      → find_socket lib c to_bytes fuel ports ip udp packet st ≡ (delivered ports ip udp packet, st)
  unfolding find_socket
  find_socket_lem ip udp packet st = ground arith

  -- A packet whose first segment holds the IPv4 header, the UDP header and at least one byte more, with
  -- fuel for its segments: it goes to the socket that `addr_2_sockfd` finds for the destination in the
  -- headers, with the source in them and all bytes behind them, whatever length the UDP header claims;
  -- with no such socket it is ignored. Every segment of it is given back, in order, and once,
  -- and no other mbuf changes.
  pub handle_ipv4_udp_lem :
      (m : ℕ) (ps : List ℕ) (st : Store)
      → IsPacket st.mem m ps
      → 28 < data_len st.mem m
      → length ps < fuel
      → let h = (st.mem m).content in
        let slices = drop 28 h ∷ contents st.mem ps in
        (st' : Store) × (handle_ipv4_udp lib c to_bytes fuel ports m st ≡ (
          delivered ports h (drop 20 h) (from_segments c to_bytes (st.mem m).packet_type slices),
          st',
        ))
        × (st'.freed ≡ st.freed ++ m ∷ ps)
        × Outside (m ∷ ps) st.mem st'.mem
  handle_ipv4_udp_lem m ps st v h k =
      let xs = (st.mem m).content in
      let st1 = shortened m 20 st in
      let st2 = shortened m 8 st1 in
      let c1 = content-shortened m 20 st in
      let n1 : data_len st1.mem m ≡ data_len st.mem m - 20 = ap length c1 ∙ length-drop 20 xs in
      let (v1, e1) = shortened-IsPacket m 20 ps st v (omega arith) in
      let (v2, e2) = shortened-IsPacket m 8 ps st1 v1 (omega arith) in
      let (st', t, f, o) = take_packet_lem m ps st2 v2 k in
      let kind : (st2.mem m).packet_type ≡ (st.mem m).packet_type =
        ap (λ (r : RteMbuf). r.packet_type) (shortened_self m 8 st1)
        ∙ ap (λ (r : RteMbuf). r.packet_type) (shortened_self m 20 st) in
      let rest : contents st1.mem ps ≡ contents st.mem ps = cc in
      let bytes : contents st2.mem (m ∷ ps) ≡ drop 28 xs ∷ contents st.mem ps =
        e2 ∙ ap₂ ◌∷◌ (ap (drop 8) c1 ∙ drop-drop 20 8 xs) rest in
      let (n2, e) = handle_ipv4_udp-finish m st (omega (arith, v.measured)) (omega arith) in
      (
        st',
        e
            ∙ bind-parsed _ _ (skip_end-fits lib m st2 (omega arith))
                (bind-parsed _ _ t (find_socket_lem xs (drop 20 xs) _ st'))
            ∙ ap₂
                (λ (p : ℕ) (ss : List (List ℕ)).
                  (delivered ports xs (drop 20 xs) (from_segments c to_bytes p ss), st'))
                kind bytes,
        f,
        λ x n. o x n ∙ twice_Elsewhere m st x n.0,
      )

  -- A well-formed packet of two or more segments and at least 28 bytes, whose first segment ends with
  -- the IPv4 header and whose second segment is shorter than a UDP header, so that it has three
  -- segments or more: the cast to the UDP header reads behind the data of the second segment.
  pub short_second_segment :
      (m q : ℕ) (ps : List ℕ) (st : Store)
      → IsPacket st.mem m (q ∷ ps)
      → 28 ≤ (st.mem m).pkt_len
      → data_len st.mem m ≡ 20
      → data_len st.mem q < 8
      → (handle_ipv4_udp lib c to_bytes fuel ports m st).0 ≡ out_of_bounds
  unfolding handle_ipv4_udp
  short_second_segment m q ps st v k h n =
      let st1 = shortened m 20 st in
      let (v1, e1) = shortened-IsPacket m 20 (q ∷ ps) st v (omega arith) in
      let n1 : data_len st1.mem m ≡ 0 =
        ap length (content-shortened m 20 st) ∙ length-drop 20 (st.mem m).content ∙ omega arith in
      let (st', e, v', c', f) = skip_empty-next lib frees 8 m q ps st1 v1 (omega arith) n1 in
      let same : (st'.mem q).content ≡ (st.mem q).content = cc in
      let n' : data_len st'.mem q < 8 = omega (arith, ap length same) in
      ap (λ (x : Parsed (Datagram Bytes) × Store). x.0)
        (bind-parsed _ _ (long_enough-fits m st k) (
          bind-parsed _ _ (skip_empty-fits lib 20 m st (omega arith)) (
            bind-parsed _ _ (header-fits 20 m st (omega arith)) (
              bind-parsed _ _ (adj_or_drop-fits lib areas m 20 st (omega arith) (omega arith))
                (bind-parsed _ _ e (bind-out_of_bounds _ _ (header-short 8 q st' n')))))))
