-- ===== src/Udp/Datagram/Single.antt =====
-- src/proto/udp.rs: what `handle_ipv4_udp` makes of a packet of one segment.
use native.Mathlib.Decide.{dec_lt}
use async_dpdk.Base.{
  ℕ, ◌-◌, ◌≤◌, ◌<◌, ◌≡◌, ◌≢◌, refl, ap, ◌∙◌, List, [], ◌∷◌, ◌++◌, length, drop, length-drop, arith,
}
use async_dpdk.Proto.{Ptypes}
use async_dpdk.Socket.{PortTable}
use async_dpdk.Mbuf.{Store, Pktmbuf, data_len, drop_mbuf}
use async_dpdk.Mbuf.Chains.{Elsewhere, Elsewhere-trans, Frees, IsPacket}
use async_dpdk.Mbuf.Areas.{AreaDocs}
use async_dpdk.Mbuf.Reading.{ignored, out_of_bounds, bind-ignored}
use async_dpdk.Mbuf.Reading.Steps.{shortened, content-shortened, shortened-IsPacket, skip_end-last}
use async_dpdk.Udp.Datagram.{long_enough, handle_ipv4_udp}
use async_dpdk.Udp.Datagram.Parsing.{
  delivered-ne, twice_Elsewhere, handle_ipv4_udp-finish, handle_ipv4_udp_lem,
}

module _ {Bytes : Type 0} (lib : Pktmbuf) (frees : Frees lib) (areas : AreaDocs lib) (c : Ptypes)
    (to_bytes : List ℕ → Bytes) (fuel : ℕ) (ports : PortTable) where
  long_enough-short :
      (m : ℕ) (st : Store)
      → (st.mem m).pkt_len < 28
      → long_enough lib c to_bytes fuel ports m st ≡ (ignored, drop_mbuf lib m st)
  unfolding long_enough
  long_enough-short m st h = ground arith

  short_ignored :
      (m : ℕ) (st : Store)
      → (st.mem m).pkt_len < 28
      → handle_ipv4_udp lib c to_bytes fuel ports m st ≡ (ignored, drop_mbuf lib m st)
  unfolding handle_ipv4_udp
  short_ignored m st h = bind-ignored _ _ (long_enough-short m st h)

  -- A datagram with no byte behind the headers.
  empty_ignored :
      (m : ℕ) (st : Store)
      → IsPacket st.mem m []
      → data_len st.mem m ≡ 28
      → (st' : Store) × (handle_ipv4_udp lib c to_bytes fuel ports m st ≡ (ignored, st'))
        × (st'.freed ≡ st.freed ++ m ∷ [])
        × Elsewhere m st.mem st'.mem
  unfolding handle_ipv4_udp
  empty_ignored m st v h =
      let st1 = shortened m 20 st in
      let st2 = shortened m 8 st1 in
      let n1 : data_len st1.mem m ≡ data_len st.mem m - 20 =
        ap length (content-shortened m 20 st) ∙ length-drop 20 (st.mem m).content in
      let (v1, _) = shortened-IsPacket m 20 [] st v (omega arith) in
      let (v2, _) = shortened-IsPacket m 8 [] st1 v1 (omega arith) in
      let (n2, e) =
        handle_ipv4_udp-finish lib frees areas c to_bytes fuel ports m st
          (omega (arith, v.measured)) (omega arith) in
      let (st', q, f, o) = skip_end-last lib frees m st2 v2 (omega arith) in
      (
        st',
        e ∙ bind-ignored _ _ q,
        f,
        Elsewhere-trans m st.mem st2.mem st'.mem
            (twice_Elsewhere lib frees areas c to_bytes fuel ports m st) o,
      )

  -- A packet of one segment, whatever its bytes: `handle_ipv4_udp` never reads behind the segment's
  -- data, and gives the segment back exactly once. It is ignored unless there is at least one byte
  -- behind the headers, so an empty datagram never reaches its socket. No other mbuf changes.
  pub handle_ipv4_udp-single :
      (m : ℕ) (st : Store)
      → IsPacket st.mem m []
      → 0 < fuel
      → let (r, st') = handle_ipv4_udp lib c to_bytes fuel ports m st in
        (r ≢ out_of_bounds)
        × (st'.freed ≡ st.freed ++ m ∷ [])
        × (data_len st.mem m ≤ 28 → r ≡ ignored)
        × Elsewhere m st.mem st'.mem
  handle_ipv4_udp-single m st v k = elim (dec_lt 28 (data_len st.mem m)) [
    | yes h ↦
        let xs = (st.mem m).content in
        let (st', e, f, o) =
          handle_ipv4_udp_lem lib frees areas c to_bytes fuel ports m [] st v h k in
        rw e
          (delivered-ne ports xs (drop 20 xs) _, f, λ n. absurd (omega arith), λ x q. o x (q, tt))
    | no h ↦ elim (dec_lt (data_len st.mem m) 28) [
      | yes n ↦ rw (short_ignored m st (omega (arith, v.measured))) (
        λ q. cc,
        ap (λ (ys : List ℕ). st.freed ++ ys) (frees.frees st.mem m [] v.linked v.bounded),
        λ _. refl,
        λ x q. frees.kept st.mem m [] v.linked v.bounded x (q, tt),
      )
      | no n ↦
          let (st', e, f, o) = empty_ignored m st v (omega arith) in rw e (λ q. cc, f, λ _. refl, o)
    ]
  ]
