-- ===== src/Udp/Datagram.antt =====
-- src/proto/udp.rs: `handle_ipv4_udp`, which takes a received IPv4 packet apart and finds its socket.
-- The machine keeps the low byte of a `u16` first.
pub mod Parsing
pub mod Single
use async_dpdk.Base.{
  ℕ, ◌+◌, Bool, true, false, Option, none, some, List, [], ◌∷◌, map, length, ltb, if◌then◌else◌,
}
use async_dpdk.Addr.{IpAddr, v4, SocketAddr}
use async_dpdk.Proto.{L3Protocol, L4Protocol, Ptypes, l3_length, l4_length}
use async_dpdk.Packet.{Packet, from_segments}
use async_dpdk.Socket.{PortTable, addr_2_sockfd}
use async_dpdk.Mbuf.{RteMbuf, Mem, Store, Pktmbuf, iter, drop_mbuf}
use async_dpdk.Mbuf.Reading.{
  Parsed, parsed, ignored, out_of_bounds, Handler, ◌>>=◌, ◌>>◌, byte, u16_le, header, give_up,
  adj_or_drop, skip_empty, skip_end,
}

-- `ipv4_hdr_len` and `udp_hdr_len`
abbrev pub ipv4_hdr_len : ℕ
ipv4_hdr_len = l3_length L3Protocol.ipv4

abbrev pub udp_hdr_len : ℕ
udp_hdr_len = l4_length L4Protocol.udp

-- What goes to a mailbox: the descriptor of the socket, and the `RecvResult`.
pub record Datagram (Bytes : Type 0) : Type 0 where
  pub sockfd : ℕ
  pub src : SocketAddr
  pub packet : Packet Bytes

-- The addresses in an IPv4 header, whose bytes stand in memory in the order of the octets.
abbrev pub src_ip : List ℕ → IpAddr
src_ip h = v4 (byte 12 h) (byte 13 h) (byte 14 h) (byte 15 h)

abbrev pub dst_ip : List ℕ → IpAddr
dst_ip h = v4 (byte 16 h) (byte 17 h) (byte 18 h) (byte 19 h)

-- The ports in a UDP header, which the code reads without a conversion.
abbrev pub src_port : List ℕ → ℕ
src_port h = u16_le 0 h

abbrev pub dst_port : List ℕ → ℕ
dst_port h = u16_le 2 h

module _ {Bytes : Type 0} (lib : Pktmbuf) (c : Ptypes) (to_bytes : List ℕ → Bytes) (fuel : ℕ)
    (ports : PortTable) where
  -- The test of the packet's length.
  unfoldable pub long_enough : ℕ → Handler (Unit {0})
  long_enough m st =
      if ltb (st.mem m).pkt_len (ipv4_hdr_len + udp_hdr_len)
      then give_up lib m st
      else (parsed tt, st)

  -- `Packet::from_mbuf`, which drops the mbuf behind the copy. `fuel` is for its loop.
  unfoldable pub take_packet : ℕ → Handler (Packet Bytes)
  take_packet m st =
      let slices = map (λ p. (st.mem p).content) (iter fuel st.mem (some m)) in
      (parsed (from_segments c to_bytes (st.mem m).packet_type slices), drop_mbuf lib m st)

  -- `addr_2_sockfd` and the result.
  unfoldable pub find_socket : List ℕ → List ℕ → Packet Bytes → Handler (Datagram Bytes)
  find_socket ip udp packet st = elim (addr_2_sockfd (dst_port udp) (dst_ip ip) ports) [
    | none ↦ (ignored, st)
    | some fd ↦ (
      parsed (record {
        sockfd = fd;
        src = record { ip = src_ip ip; port = src_port udp };
        packet = packet;
      }),
      st,
    )
  ]

  -- `handle_ipv4_udp`
  unfoldable pub handle_ipv4_udp : ℕ → Handler (Datagram Bytes)
  handle_ipv4_udp m = do
    long_enough m
    m1 ← skip_empty lib ipv4_hdr_len m
    ip ← header ipv4_hdr_len m1
    adj_or_drop lib m1 ipv4_hdr_len
    m2 ← skip_empty lib udp_hdr_len m1
    udp ← header udp_hdr_len m2
    adj_or_drop lib m2 udp_hdr_len
    m3 ← skip_end lib m2
    packet ← take_packet m3
    find_socket ip udp packet
