-- ===== src/Tests/Frames.antt =====
-- Tests of the way of a datagram: src/proto/udp.rs and src/agent.rs.
use async_dpdk.Base.{ℕ, ◌≡◌, refl, false, none, some, List, [], ◌∷◌, drop, replicate, update, arith}
use async_dpdk.Errno.{ok}
use async_dpdk.Packet.{Outgoing, from_segments}
use async_dpdk.Socket.{PortTable, addr_2_sockfd}
use async_dpdk.Mbuf.{Store}
use async_dpdk.Mbuf.Chains.{Outside, IsPacket}
use async_dpdk.Mbuf.Reading.{parsed, out_of_bounds}
use async_dpdk.Udp.Datagram.{handle_ipv4_udp}
use async_dpdk.Udp.Datagram.Parsing.{handle_ipv4_udp_lem, short_second_segment}
use async_dpdk.Agent.Frames.{EtherTypes, Reassembly}
use async_dpdk.Udp.Sending.{Mac, send_to}
use async_dpdk.Udp.Sending.Delivery.{Endpoint, ip_of, address, source, frame_of, send_to-frame}
use async_dpdk.Tests.Values.{dpdk_ptypes}
use async_dpdk.Tests.Packets.{
  Segment, small_buffers, Empty, small_buffers-Documented, content_short,
}
use async_dpdk.Tests.Mbufs.{
  segment, pktmbuf, pktmbuf-Frees, pktmbuf-AreaDocs, one_segment, one_segment-IsPacket,
}

abbrev pub ether_types : EtherTypes
ether_types = record { ether_ipv4 = 0x0800; ether_ipv6 = 0x86DD }

-- No packet is a fragment.
abbrev pub no_fragments : Reassembly
no_fragments = record { is_fragmented = λ xs. false; reassemble = λ m st. (none, st) }

abbrev pub mac : Mac
mac = record { m0 = 2; m1 = 0; m2 = 0; m3 = 0; m4 = 0; m5 = 1 }

abbrev pub alice : Endpoint
alice = record { i0 = 10; i1 = 0; i2 = 0; i3 = 1; port = 4000 }

abbrev pub bob : Endpoint
bob = record { i0 = 10; i1 = 0; i2 = 0; i3 = 2; port = 53 }

-- A table in which the descriptor 3 is bound to `bob`.
abbrev pub bound : PortTable
bound = record {
  is_poisoned = false;
  info = (53, record { fd = 3; ip = ip_of bob }) ∷ [];
  next_port = 0;
}

pub bob_found : addr_2_sockfd 53 (ip_of bob) bound ≡ some 3
unfolding addr_2_sockfd
bob_found = refl

-- The checksum of DPDK, for a test.
abbrev pub sum : List ℕ → ℕ
sum xs = 7

abbrev pub hello : List ℕ
hello = 104 ∷ 105 ∷ []

abbrev hello_frame : List ℕ
hello_frame = frame_of ether_types sum (0, 0) (λ xs. xs) mac alice bob hello 8

send_to-frame_example :
    (o : Outgoing Segment) × (send_to ether_types sum
        (0, 0)
        (λ xs. xs)
        small_buffers
        dpdk_ptypes
        1
        false
        ([] ∷ [])
        (source mac alice)
        hello
        (ok (address bob ∷ []))
        8
      ≡ (ok (2, o), 9))
    × (small_buffers.segments o.mbuf ≡ hello_frame ∷ [])
send_to-frame_example =
    send_to-frame ether_types sum (0, 0) (λ xs. xs) small_buffers Empty 64 small_buffers-Documented
      dpdk_ptypes mac alice bob hello [] 8 0 [] [] content_short (refl, tt) (omega arith)
      (omega arith)

handle_ipv4_udp_lem_example :
    (st' : Store) × (handle_ipv4_udp pktmbuf dpdk_ptypes
        (λ xs. xs)
        1
        bound
        1
        (one_segment (drop 14 hello_frame))
      ≡ (
        parsed (record {
          sockfd = 3;
          src = address alice;
          packet = from_segments dpdk_ptypes (λ xs. xs) 529 (hello ∷ []);
        }),
        st',
      ))
    × (st'.freed ≡ 1 ∷ [])
    × Outside (1 ∷ []) (one_segment (drop 14 hello_frame)).mem st'.mem
unfolding addr_2_sockfd
handle_ipv4_udp_lem_example =
    handle_ipv4_udp_lem pktmbuf pktmbuf-Frees pktmbuf-AreaDocs dpdk_ptypes (λ xs. xs) 1 bound 1 []
      (one_segment (drop 14 hello_frame)) (one_segment-IsPacket (drop 14 hello_frame)) (omega arith)
      (omega arith)

-- An IPv4 header in a segment of its own, and a UDP header in two halves behind it.
abbrev split_headers : Store
split_headers = record {
  mem =
      update
        (update (λ p. segment (replicate 4 0) none 1 4) 1 (segment (replicate 20 0) (some 2) 3 28))
        2 (segment (replicate 4 0) (some 3) 1 4);
  freed = [];
}

split_headers-IsPacket : IsPacket split_headers.mem 1 (2 ∷ 3 ∷ [])
split_headers-IsPacket = record {
  linked = (refl, (refl, (refl, tt)));
  bounded = omega arith;
  distinct = ((omega arith, (omega arith, tt)), ((omega arith, tt), (tt, tt)));
  counted = refl;
  measured = refl;
}

short_second_segment_example :
    (handle_ipv4_udp pktmbuf dpdk_ptypes (λ xs. xs) 3 bound 1 split_headers).0 ≡ out_of_bounds
short_second_segment_example =
    short_second_segment pktmbuf pktmbuf-Frees pktmbuf-AreaDocs dpdk_ptypes (λ xs. xs) 3 bound 1 2
      (3 ∷ []) split_headers split_headers-IsPacket (omega arith) refl (omega arith)
