-- ===== src/Agent/Frames.antt =====
-- src/agent.rs: `parse_ether_proto` and `handle_ether`, which take a received Ethernet frame apart. The
-- Ethernet types and the reassembly of fragments are DPDK's, and parameters; a packet that is given to
-- the reassembly belongs to its table until the reassembly gives a packet back.
pub mod Offloads
pub mod Dispatch
pub mod Single
use async_dpdk.Base.{
  ℕ, ◌+◌, ◌-◌, Bool, true, false, Option, none, some, List, [], ◌∷◌, length, drop, ltb, ◌==◌,
  if◌then◌else◌, update,
}
use async_dpdk.Proto.{
  L3Protocol, L4Protocol, Ptypes, ip_next_proto_udp, ether_hdr_len, l3_length, l4_length,
}
use async_dpdk.Socket.{PortTable}
use async_dpdk.Mbuf.{Offload, RteMbuf, Mem, Store, Pktmbuf}
use async_dpdk.Mbuf.Reading.{
  Parsed, parsed, ignored, out_of_bounds, Handler, ◌>>=◌, ◌>>◌, byte, u16_be, give_up, adj_or_drop,
}
use async_dpdk.Udp.Datagram.{Datagram, handle_ipv4_udp}

-- `RTE_ETHER_TYPE_IPV4` and `RTE_ETHER_TYPE_IPV6`, two numbers.
pub record EtherTypes : Type 0 where
  pub ether_ipv4 : ℕ
  pub ether_ipv6 : ℕ

-- `rte_ipv4_frag_pkt_is_fragmented` on the bytes from the IPv4 header on, and
-- `rte_ipv4_frag_reassemble_packet`, which gives null while fragments are missing.
pub record Reassembly : Type 0 where
  pub is_fragmented : List ℕ → Bool
  pub reassemble : ℕ → Store → Option ℕ × Store

-- A read of headers that end at `size`, through a cast of the frame's address: it stays within the frame, or is
-- out of bounds.
abbrev pub cast_to {ℓ} : {A : Type ℓ} → ℕ → List ℕ → Parsed A → Parsed A
cast_to size frame r = if ltb (length frame) size then out_of_bounds else r

module _ (types : EtherTypes) where
  open types use {ether_ipv4, ether_ipv6}

  -- The L3 and L4 protocols in the frame's headers, where the headers are there.
  unfoldable pub ether_proto : List ℕ → Parsed (ℕ × ℕ)
  ether_proto frame =
      if ltb (length frame) ether_hdr_len
      then ignored
      else cast_to 14 frame (
          let remain = length frame - ether_hdr_len in
          let ether_type = u16_be 12 frame in
          if ether_type == ether_ipv4
          then (if ltb remain (l3_length L3Protocol.ipv4)
              then ignored
              else cast_to 34 frame (parsed (ether_type, byte 23 frame)))
          else (if ether_type == ether_ipv6
              then (if ltb remain (l3_length L3Protocol.ipv6)
                  then ignored
                  else cast_to 54 frame (parsed (ether_type, byte 20 frame)))
              else ignored))

  -- The lengths of the headers, as they are noted in the mbuf.
  abbrev pub offload_of : ℕ → ℕ → Offload → Offload
  offload_of ether_type proto o = record o {
    l3_len = l3_length (if ether_type == ether_ipv4 then L3Protocol.ipv4 else L3Protocol.ipv6);
    l4_len = if proto == ip_next_proto_udp then l4_length L4Protocol.udp else o.l4_len;
  }

  abbrev pub note_lengths : ℕ → ℕ → ℕ → Store → Store
  note_lengths ether_type proto m st = record st {
    mem =
        update st.mem m
          (record (st.mem m) { tx_offload = offload_of ether_type proto (st.mem m).tx_offload });
  }

  -- `parse_ether_proto`, which borrows the mbuf.
  unfoldable pub parse_ether_proto : ℕ → Handler (ℕ × ℕ)
  parse_ether_proto m st = elim (ether_proto (st.mem m).content) [
    | parsed (ether_type, proto) ↦ (parsed (ether_type, proto), note_lengths ether_type proto m st)
    | ignored ↦ (ignored, st)
    | out_of_bounds ↦ (out_of_bounds, st)
  ]

  module _ {Bytes : Type 0} (lib : Pktmbuf) (frag : Reassembly) (c : Ptypes)
      (to_bytes : List ℕ → Bytes) (fuel : ℕ) (ports : PortTable) where
    -- The packet itself, or what the reassembly makes of a fragment.
    unfoldable pub whole_packet : ℕ → Handler ℕ
    whole_packet m st =
        if frag.is_fragmented (st.mem m).content
        then elim (frag.reassemble m st).0 [
          | none ↦ (ignored, (frag.reassemble m st).1)
          | some mo ↦ (parsed mo, (frag.reassemble m st).1)
        ]
        else (parsed m, st)

    -- `handle_ether` behind the Ethernet header.
    unfoldable pub handle_l3 : ℕ → ℕ × ℕ → Handler (Datagram Bytes)
    handle_l3 m (ether_type, proto) =
        if ether_type == ether_ipv4
        then (whole_packet m >>= λ m'.
            if proto == ip_next_proto_udp
            then handle_ipv4_udp lib c to_bytes fuel ports m'
            else give_up lib m')
        else give_up lib m

    -- `handle_ether`
    unfoldable pub handle_ether : ℕ → Handler (Datagram Bytes)
    handle_ether m st = elim (parse_ether_proto m st).0 [
      | parsed tp ↦
          ◌>>◌ (adj_or_drop lib m ether_hdr_len) (handle_l3 m tp) (parse_ether_proto m st).1
      | ignored ↦ give_up lib m (parse_ether_proto m st).1
      | out_of_bounds ↦ (out_of_bounds, (parse_ether_proto m st).1)
    ]
