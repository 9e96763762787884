-- ===== src/Udp/Sending/Delivery.antt =====
-- src/proto/udp.rs with src/packet.rs and src/agent.rs: a datagram from `send_to` to its socket.
use async_dpdk.Base.{
  ℕ, suc, ◌+◌, ◌*◌, ◌/◌, ◌%◌, ◌≤◌, ◌<◌, ◌≡◌, refl, ap, ap₂, ◌∙◌, false, Option, none, some, List,
  [], ◌∷◌, ◌++◌, length, drop, All, length-append, append-nil, add_u16, arith,
}
use async_dpdk.Errno.{Result, ok, ◌>>=◌}
use async_dpdk.Addr.{IpAddr, v4, SocketAddr}
use async_dpdk.Proto.{L3Protocol, L4Protocol, Ptypes}
use async_dpdk.Packet.{Buffers, Documented, Packet, Outgoing, from_segments}
use async_dpdk.Packet.RoundTrip.{bytes_of, into_mbuf-ok, into_mbuf_fits}
use async_dpdk.Socket.{PortTable, addr_2_sockfd}
use async_dpdk.Mbuf.{Store, Pktmbuf}
use async_dpdk.Mbuf.Chains.{Elsewhere, Frees, IsPacket}
use async_dpdk.Mbuf.Areas.{AreaDocs}
use async_dpdk.Mbuf.Reading.{Parsed, parsed, ignored, byte, u16_be}
use async_dpdk.Udp.Datagram.{Datagram, src_ip, dst_ip, src_port, dst_port}
use async_dpdk.Udp.Datagram.Parsing.{delivered}
use async_dpdk.Agent.Frames.{EtherTypes, Reassembly, handle_ether}
use async_dpdk.Agent.Frames.Dispatch.{handle_ether-udp}
use async_dpdk.Udp.Sending.{
  Mac, Source, headers, admit, total_length, write_headers, build_packet, send_to,
}

le16_lem : (n : ℕ) → n % 256 + 256 * (n / 256) ≡ n
le16_lem n = omega arith

be16_lem : (n : ℕ) → 256 * (n / 256) + n % 256 ≡ n
be16_lem n = omega arith

delivered-found :
    {Bytes : Type 0} (ports : PortTable) (ip udp : List ℕ) (packet : Packet Bytes) (dp sp fd : ℕ)
    (a : IpAddr)
    → dst_port udp ≡ dp
    → src_port udp ≡ sp
    → dst_ip ip ≡ a
    → addr_2_sockfd dp a ports ≡ some fd
    → delivered ports ip udp packet
      ≡ parsed (record { sockfd = fd; src = record { ip = src_ip ip; port = sp }; packet = packet })
delivered-found {Bytes} ports ip udp packet dp sp fd a d s i found =
    ap₂
      (λ (n : Option ℕ) (p : ℕ). elim n [
        | none ↦ ignored
        | some fd ↦
            parsed
              (record { sockfd = fd; src = record { ip = src_ip ip; port = p }; packet = packet })
      ])
      (ap₂ (λ p x. addr_2_sockfd p x ports) d i ∙ found) s

-- An IPv4 address and a port.
pub record Endpoint : Type 0 where
  pub i0 : ℕ
  pub i1 : ℕ
  pub i2 : ℕ
  pub i3 : ℕ
  pub port : ℕ

abbrev pub ip_of : Endpoint → IpAddr
ip_of e = v4 e.i0 e.i1 e.i2 e.i3

abbrev pub address : Endpoint → SocketAddr
address e = record { ip = ip_of e; port = e.port }

abbrev pub source : Mac → Endpoint → Source
source mac e = record { eth_addr = mac; ip = ip_of e; port = e.port }

total_length-ok : (n : ℕ) → n ≤ 65507 → total_length n ≡ ok (n + 20 + 8)
total_length-ok n h = ground arith

admit-ok :
    (buf : List ℕ) (dst : SocketAddr) (more : List SocketAddr)
    → length buf ≤ 65507
    → admit buf (ok (dst ∷ more)) ≡ ok (dst, length buf + 20 + 8)
admit-ok buf dst more h =
    ap (λ (r : Result ℕ). r >>= λ n. ok (dst, n)) (total_length-ok (length buf) h)

module _ (types : EtherTypes) (ipv4_cksum : List ℕ → ℕ) (stale : ℕ × ℕ) where
  module _ {Bytes : Type 0} (to_bytes : List ℕ → Bytes) where
    build_packet-ok :
        (src : Source) (buf : List ℕ) (to : Endpoint) (more : List SocketAddr) (ipid : ℕ)
        → length buf ≤ 65507
        → build_packet types ipv4_cksum stale to_bytes src buf (ok (address to ∷ more)) ipid ≡ (
          ok (record {
            l3protocol = L3Protocol.ipv4;
            l4protocol = L4Protocol.udp;
            frags =
                to_bytes (
                  headers types ipv4_cksum stale src ipid
                    (address to)
                    (length buf)
                    (length buf + 20 + 8))
                ∷ to_bytes buf
                ∷ [];
          }),
          add_u16 ipid 1,
        )
    unfolding build_packet
    build_packet-ok src buf to more ipid h =
        ap (write_headers types ipv4_cksum stale to_bytes src buf ipid)
          (admit-ok buf (address to) more h)

    -- The frame of a datagram.
    abbrev pub frame_of : Mac → Endpoint → Endpoint → List ℕ → ℕ → List ℕ
    frame_of mac from to buf ipid =
        headers types ipv4_cksum stale (source mac from) ipid (address to) (length buf)
          (length buf + 20 + 8)
        ++ buf

    module _ {Mbuf : Type 0} (mb : Buffers Mbuf Bytes) (fresh : Mbuf → Type 0) (room : ℕ)
        (doc : Documented mb fresh room) (c : Ptypes) where
      -- A call of `send_to` on an open channel, whose destination resolves to an IPv4 address and port
      -- first, with data that together with the 42 bytes of the headers fit one fresh mbuf, of room
      -- less than 65536, and a pool of fresh mbufs that is not empty; `to_bytes` keeps the bytes of
      -- what fits an mbuf. It returns the length of the data, takes one number of `IPID`, and what
      -- goes to the queue is one segment: the 42 bytes of the headers and then the data.
      pub send_to-frame :
          (mac : Mac) (from to : Endpoint) (buf : List ℕ) (more : List SocketAddr) (ipid fuel : ℕ)
          (m : Mbuf) (pool : List Mbuf)
          → ((xs : List ℕ) → length xs ≤ room → mb.content (to_bytes xs) ≡ xs)
          → All fresh (m ∷ pool)
          → room < 65536
          → 42 + length buf ≤ room
          → (o : Outgoing Mbuf) × (send_to types ipv4_cksum stale to_bytes mb c
                (suc fuel)
                false
                (m ∷ pool)
                (source mac from)
                buf
                (ok (address to ∷ more))
                ipid
              ≡ (ok (length buf, o), add_u16 ipid 1))
            × (mb.segments o.mbuf ≡ frame_of mac from to buf ipid ∷ [])
      unfolding send_to
      send_to-frame mac from to buf more ipid fuel m pool same all r h =
          let hdr =
            headers types ipv4_cksum stale (source mac from) ipid (address to) (length buf)
              (length buf + 20 + 8) in
          let p : Packet Bytes = record {
            l3protocol = L3Protocol.ipv4;
            l4protocol = L4Protocol.udp;
            frags = to_bytes hdr ∷ to_bytes buf ∷ [];
          } in
          let bytes : bytes_of mb fresh room doc p.frags ≡ hdr ++ buf =
            ap₂ ◌++◌ (same hdr (omega arith))
              (ap (λ (xs : List ℕ). xs ++ []) (same buf (omega arith)) ∙ append-nil buf) in
          let (o, e) =
            into_mbuf_fits mb fresh room doc c fuel p m pool all r
              (omega (arith, ap length bytes, length-append hdr buf)) in
          let (s, _) =
            into_mbuf-ok mb fresh room doc c (suc fuel) p (m ∷ pool) o (omega arith) all e in
          (
            o,
            rw (build_packet-ok (source mac from) buf to more ipid (omega arith)) (rw e refl),
            s ∙ ap (λ (xs : List ℕ). xs ∷ []) bytes,
          )

    module _ (frag : Reassembly) (pk : Pktmbuf) (frees : Frees pk) (areas : AreaDocs pk)
        (c : Ptypes) (fuel : ℕ) (ports : PortTable) where
      -- A frame of `send_to` with data in it, that arrives as one segment: where a packet without a fragment
      -- offset counts as whole, and a socket is bound to its destination, `handle_ether` delivers it to
      -- that socket, with exactly the data and with the sender's address and port, gives its mbuf
      -- back, and changes no other.
      pub frame-delivered :
          (mac : Mac) (from to : Endpoint) (buf : List ℕ) (ipid m fd : ℕ) (st : Store)
          → ((xs : List ℕ) → byte 6 xs ≡ 0 → byte 7 xs ≡ 0 → frag.is_fragmented xs ≡ false)
          → IsPacket st.mem m []
          → (st.mem m).content ≡ frame_of mac from to buf ipid
          → 0 < length buf
          → 0 < fuel
          → addr_2_sockfd to.port (ip_of to) ports ≡ some fd
          → (st' : Store) × (handle_ether types pk frag c to_bytes fuel ports m st ≡ (
            parsed (record {
              sockfd = fd;
              src = address from;
              packet = from_segments c to_bytes (st.mem m).packet_type (buf ∷ []);
            }),
            st',
          ))
            × (st'.freed ≡ st.freed ++ m ∷ [])
            × Elsewhere m st.mem st'.mem
      frame-delivered mac from to buf ipid m fd st whole v e n k found =
          let frame = frame_of mac from to buf ipid in
          let kind = (st.mem m).packet_type in
          let (st', q, f, o) =
            handle_ether-udp types frag pk frees areas c to_bytes fuel ports m [] st v
              (omega (arith, ap length e)) (ap (u16_be 12) e ∙ be16_lem types.ether_ipv4)
              (ap (byte 23) e)
              (ap (λ (xs : List ℕ). frag.is_fragmented (drop 14 xs)) e
                ∙ whole (drop 14 frame) refl refl)
              k in
          (
            st',
            q
                ∙ ap
                    (λ (xs : List ℕ). (
                      delivered ports (drop 14 xs) (drop 34 xs)
                          (from_segments c to_bytes kind (drop 42 xs ∷ [])),
                      st',
                    ))
                    e
                ∙ ap (λ (r : Parsed (Datagram Bytes)). (r, st'))
                    (delivered-found ports (drop 14 frame) (drop 34 frame)
                      (from_segments c to_bytes kind (buf ∷ [])) to.port from.port fd (ip_of to)
                      (le16_lem to.port) (le16_lem from.port) refl found),
            f,
            λ x n. o x (n, tt),
          )
