-- ===== src/Udp/Sending.antt =====
-- src/proto/udp.rs: `send_to`, which puts the headers before the data. The machine keeps the low byte of
-- a `u16` first, so a number that the code stores as it is has its low byte first, and one that it
-- converts by `to_be` its high byte.
pub mod Delivery
use async_dpdk.Base.{
  ℕ, ◌+◌, ◌/◌, ◌%◌, Bool, true, false, Option, none, some, List, [], ◌∷◌, ◌++◌, length, ltb,
  if◌then◌else◌, add_u16,
}
use async_dpdk.Errno.{
  invalid_arg, broken_pipe, Result, ok, err, panicked, ◌>>=◌, ◌>>◌, fail_if, try_u16,
}
use async_dpdk.Addr.{IpAddr, v4, v6, SocketAddr}
use async_dpdk.Proto.{L3Protocol, L4Protocol, Ptypes, ip_next_proto_udp, l3_length, l4_length}
use async_dpdk.Packet.{Buffers, Packet, new_packet, append, Outgoing, into_mbuf}
use async_dpdk.Agent.Frames.{EtherTypes}

-- The six bytes of an Ethernet address.
pub record Mac : Type 0 where
  pub m0 : ℕ
  pub m1 : ℕ
  pub m2 : ℕ
  pub m3 : ℕ
  pub m4 : ℕ
  pub m5 : ℕ

abbrev pub le16 : ℕ → List ℕ
le16 n = n % 256 ∷ n / 256 ∷ []

abbrev pub be16 : ℕ → List ℕ
be16 n = n / 256 ∷ n % 256 ∷ []

-- The octets of an IPv4 address, in memory in their order.
abbrev pub octets : IpAddr → List ℕ
octets (v4 a b c d) = a ∷ b ∷ c ∷ d ∷ []
octets (v6 n) = []

-- What `send_to` uses of the socket.
pub record Source : Type 0 where
  pub eth_addr : Mac
  pub ip : IpAddr
  pub port : ℕ

-- The L2 header: to every station, from the socket's device.
abbrev pub ether_hdr : EtherTypes → Mac → List ℕ
ether_hdr types mac =
    255
    ∷ 255
    ∷ 255
    ∷ 255
    ∷ 255
    ∷ 255
    ∷ mac.m0
    ∷ mac.m1
    ∷ mac.m2
    ∷ mac.m3
    ∷ mac.m4
    ∷ mac.m5
    ∷ be16 types.ether_ipv4

-- The L3 header with the two bytes of its checksum.
abbrev pub ipv4_hdr : ℕ → ℕ → List ℕ → IpAddr → IpAddr → List ℕ
ipv4_hdr total_len packet_id checksum src dst =
    (0x45 ∷ 0 ∷ be16 total_len)
    ++ be16 packet_id
    ++ (0 ∷ 0 ∷ 64 ∷ ip_next_proto_udp ∷ checksum)
    ++ octets src
    ++ octets dst

-- The L4 header: the ports as they are, the length converted.
abbrev pub udp_hdr : ℕ → ℕ → ℕ → List ℕ
udp_hdr src_port dst_port dgram_len =
    le16 src_port ++ le16 dst_port ++ be16 dgram_len ++ (0 ∷ 0 ∷ [])

-- The length of the IPv4 packet, or an error where it is no `u16`.
abbrev pub total_length : ℕ → Result ℕ
total_length n = do
  payload_len ← try_u16 n
  fail_if (ltb 65535 (payload_len + l3_length L3Protocol.ipv4)) invalid_arg
  fail_if (ltb 65535 (payload_len + l3_length L3Protocol.ipv4 + l4_length L4Protocol.udp))
      invalid_arg
  ok (payload_len + l3_length L3Protocol.ipv4 + l4_length L4Protocol.udp)

-- `addr.to_socket_addrs().map_err(…)?.next().ok_or(…)?`
abbrev pub first_addr : Result (List SocketAddr) → Result SocketAddr
first_addr (ok []) = err invalid_arg
first_addr (ok (a ∷ more)) = ok a
first_addr (err _) = err invalid_arg
first_addr panicked = panicked

-- The tests before the headers are written: the address, and the packet's length.
abbrev pub admit : List ℕ → Result (List SocketAddr) → Result (SocketAddr × ℕ)
admit buf resolved = do dst ← first_addr resolved; n ← total_length (length buf); ok (dst, n)

-- `rte_ipv4_cksum` is given the header with two bytes that nothing has set yet, `stale`.
module _ (types : EtherTypes) (ipv4_cksum : List ℕ → ℕ) (stale : ℕ × ℕ) where
  abbrev pub checksum_bytes : ℕ → ℕ → IpAddr → IpAddr → List ℕ
  checksum_bytes total_len packet_id src dst =
      be16 (ipv4_cksum (ipv4_hdr total_len packet_id (stale.0 ∷ stale.1 ∷ []) src dst))

  -- The 42 bytes of the three headers.
  abbrev pub headers : Source → ℕ → SocketAddr → ℕ → ℕ → List ℕ
  headers src packet_id dst payload_len total_len =
      ether_hdr types src.eth_addr
      ++ ipv4_hdr total_len packet_id (checksum_bytes total_len packet_id src.ip dst.ip) src.ip
          dst.ip
      ++ udp_hdr src.port dst.port (add_u16 payload_len (l4_length L4Protocol.udp))

  module _ {Bytes : Type 0} (to_bytes : List ℕ → Bytes) where
    -- The packet for an address and a length that passed the tests. An IPv6 address is
    -- `unimplemented!`, behind the change of `IPID`.
    abbrev pub write_headers :
        Source → List ℕ → ℕ → Result (SocketAddr × ℕ) → Result (Packet Bytes) × ℕ
    write_headers src buf ipid (err e) = (err e, ipid)
    write_headers src buf ipid panicked = (panicked, ipid)
    write_headers src buf ipid (ok (dst, total_len)) = elim dst.ip [
      | v4 a b c d ↦ (
        ok (
            append (to_bytes buf) (
              append (to_bytes (headers src ipid dst (length buf) total_len))
                (new_packet L3Protocol.ipv4 L4Protocol.udp))),
        add_u16 ipid 1,
      )
      | v6 n ↦ (panicked, add_u16 ipid 1)
    ]

    -- The packet of `send_to`, from the value that `IPID` had, with the value it has then.
    unfoldable pub build_packet :
        Source → List ℕ → Result (List SocketAddr) → ℕ → Result (Packet Bytes) × ℕ
    build_packet src buf resolved ipid = write_headers src buf ipid (admit buf resolved)

    -- `TxSender::send`: the mbuf that goes into the queue's channel, or an error, also when the channel is
    -- closed.
    abbrev pub send :
        {Mbuf : Type 0}
        → Buffers Mbuf Bytes
        → Ptypes
        → ℕ
        → Bool
        → List Mbuf
        → Packet Bytes
        → Result (Outgoing Mbuf)
    send lib c fuel closed pool p = do
      m ← into_mbuf lib c fuel p pool
      fail_if closed broken_pipe
      ok m

    -- `UdpSocket::send_to`: what it returns, the mbuf that went to the queue, and `IPID`.
    unfoldable pub send_to :
        {Mbuf : Type 0}
        → Buffers Mbuf Bytes
        → Ptypes
        → ℕ
        → Bool
        → List Mbuf
        → Source
        → List ℕ
        → Result (List SocketAddr)
        → ℕ
        → Result (ℕ × Outgoing Mbuf) × ℕ
    unfolding build_packet
    send_to lib c fuel closed pool src buf resolved ipid =
        let (r, ipid') = build_packet src buf resolved ipid in
        (r >>= λ p. send lib c fuel closed pool p >>= λ m. ok (length buf, m), ipid')
