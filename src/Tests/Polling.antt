-- ===== src/Tests/Polling.antt =====
-- Tests of the loop over received packets in src/agent.rs.
use async_dpdk.Base.{
  ℕ, ◌≡◌, refl, false, none, some, List, [], ◌∷◌, length, lookup, ◌==◌, if◌then◌else◌, arith,
}
use async_dpdk.Errno.{ok}
use async_dpdk.Packet.{from_segments}
use async_dpdk.Socket.Mailbox.{Mailbox, new_mailbox}
use async_dpdk.Mbuf.Chains.{IsPacket}
use async_dpdk.Mbuf.Reading.{parsed}
use async_dpdk.Udp.Sending.Delivery.{address, frame_of}
use async_dpdk.Agent.Polling.{Received, Rx, poll_burst}
use async_dpdk.Agent.Polling.Bursts.{poll_burst-single}
use async_dpdk.Agent.Polling.Frames.{poll_burst-frames}
use async_dpdk.Udp.RecvFrom.{recv_from}
use async_dpdk.Udp.RecvFrom.Roundtrip.{recv_from-poll_burst}
use async_dpdk.Tests.Values.{dpdk_ptypes}
use async_dpdk.Tests.Mbufs.{segment, pktmbuf, pktmbuf-Frees, pktmbuf-AreaDocs}
use async_dpdk.Tests.Frames.{
  ether_types, no_fragments, mac, alice, bob, bound, bob_found, sum, hello,
}

-- The frames of two datagrams, in the mbufs 1 and 2.
abbrev frame : ℕ → List ℕ
frame m =
    frame_of ether_types sum (0, 0) (λ xs. xs) mac alice bob
      (if m == 1 then hello else 98 ∷ 121 ∷ 101 ∷ []) m

abbrev pub received : Rx (List ℕ)
received = record {
  store = record { mem = λ m. segment (frame m) none 1 (length (frame m)); freed = [] };
  mailboxes = record { is_poisoned = false; boxes = (3, new_mailbox) ∷ [] };
  sent = [];
}

received-IsPacket : (m : ℕ) → IsPacket received.store.mem m []
received-IsPacket m = record {
  linked = (refl, tt);
  bounded = omega arith;
  distinct = (tt, tt);
  counted = refl;
  measured = omega arith;
}

poll_burst-single_example :
    (w' : Rx (List ℕ)) × (poll_burst
        (λ ch. false)
        ether_types
        pktmbuf
        no_fragments
        dpdk_ptypes
        (λ xs. xs)
        1
        bound
        (some 1 ∷ some 2 ∷ [])
        received
      ≡ (parsed (ok tt), w'))
    × (w'.store.freed ≡ 1 ∷ 2 ∷ [])
poll_burst-single_example =
    poll_burst-single ether_types no_fragments pktmbuf pktmbuf-Frees pktmbuf-AreaDocs dpdk_ptypes
      (λ xs. xs) 1 bound (λ ch. false) (1 ∷ 2 ∷ []) received ((omega arith, tt), (tt, tt))
      ((received-IsPacket 1, refl), ((received-IsPacket 2, refl), tt)) (omega arith)

poll_burst-frames_example :
    (w' : Rx (List ℕ)) × (poll_burst
        (λ ch. false)
        ether_types
        pktmbuf
        no_fragments
        dpdk_ptypes
        (λ xs. xs)
        1
        bound
        (some 1 ∷ some 2 ∷ [])
        received
      ≡ (parsed (ok tt), w'))
    × (lookup 3 w'.mailboxes.boxes
        ≡ some (record {
          received =
              (address alice, from_segments dpdk_ptypes (λ xs. xs) 529 (hello ∷ []))
              ∷ (
                address alice,
                from_segments dpdk_ptypes (λ xs. xs) 529 ((98 ∷ 121 ∷ 101 ∷ []) ∷ []),
              )
              ∷ [];
          watcher = none;
        }))
    × (w'.store.freed ≡ 1 ∷ 2 ∷ [])
poll_burst-frames_example =
    poll_burst-frames ether_types no_fragments pktmbuf pktmbuf-Frees pktmbuf-AreaDocs dpdk_ptypes
      (λ xs. xs) 1 bound (λ ch. false) (λ xs p q. refl) sum (0, 0) mac alice bob 3 new_mailbox
      ((1, hello, 1) ∷ (2, 98 ∷ 121 ∷ 101 ∷ [], 2) ∷ []) received bob_found refl refl refl
      ((omega arith, tt), (tt, tt))
      ((received-IsPacket 1, refl, omega arith), ((received-IsPacket 2, refl, omega arith), tt))
      (omega arith)

recv_from-poll_burst_example :
    (w' : Rx (List ℕ)) × (box' : Mailbox (Received (List ℕ))) × (poll_burst
        (λ ch. false)
        ether_types
        pktmbuf
        no_fragments
        dpdk_ptypes
        (λ xs. xs)
        1
        bound
        (some 1 ∷ some 2 ∷ [])
        received
      ≡ (parsed (ok tt), w'))
    × (lookup 3 w'.mailboxes.boxes ≡ some box')
    × (recv_from (λ xs. xs) 9 (0 ∷ 0 ∷ 0 ∷ []) box' ≡ (
      (some (ok (2, address alice)), 104 ∷ 105 ∷ 0 ∷ []),
      record box' {
        received =
            (address alice, from_segments dpdk_ptypes (λ xs. xs) 529 ((98 ∷ 121 ∷ 101 ∷ []) ∷ []))
            ∷ [];
      },
    ))
recv_from-poll_burst_example =
    recv_from-poll_burst ether_types no_fragments pktmbuf pktmbuf-Frees pktmbuf-AreaDocs dpdk_ptypes
      (λ xs. xs) (λ xs. xs) 1 bound (λ ch. false) (λ xs p q. refl) sum (0, 0) mac alice bob 3 9 1 1
      hello (0 ∷ 0 ∷ 0 ∷ []) ((2, 98 ∷ 121 ∷ 101 ∷ [], 2) ∷ []) new_mailbox received refl bob_found
      refl refl refl refl ((omega arith, tt), (tt, tt))
      ((received-IsPacket 1, refl, omega arith), ((received-IsPacket 2, refl, omega arith), tt))
      (omega arith) (omega arith) (omega arith)
