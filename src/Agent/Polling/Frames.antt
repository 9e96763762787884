-- ===== src/Agent/Polling/Frames.antt =====
-- src/agent.rs with src/proto/udp.rs and src/proto/socket.rs: the frames of `send_to` in a burst, and the
-- mailbox of their socket.
use async_dpdk.Base.{
  ℕ, ◌<◌, ◌≡◌, ◌≢◌, refl, sym, ap, ap₂, ◌∙◌, Bool, false, none, some, List, [], ◌∷◌, ◌++◌,
  append_assoc, append-nil, map, length, All, Distinct, lookup, insert, lookup-insert_self, arith,
}
use async_dpdk.Errno.{ok}
use async_dpdk.Proto.{Ptypes}
use async_dpdk.Packet.{from_segments}
use async_dpdk.Socket.{PortTable, addr_2_sockfd}
use async_dpdk.Socket.Mailbox.{Mailbox, put_mailbox}
use async_dpdk.Mbuf.{RteMbuf, Mem, Store, Pktmbuf}
use async_dpdk.Mbuf.Chains.{Elsewhere, Frees, IsPacket}
use async_dpdk.Mbuf.Areas.{AreaDocs}
use async_dpdk.Mbuf.Reading.{Parsed, parsed, byte}
use async_dpdk.Udp.Datagram.{Datagram}
use async_dpdk.Udp.Sending.{Mac}
use async_dpdk.Udp.Sending.Delivery.{Endpoint, ip_of, address, frame_of, frame-delivered}
use async_dpdk.Agent.Frames.{EtherTypes, Reassembly}
use async_dpdk.Agent.Polling.{Received, Rx, hand_over, absorb, poll_one, poll_burst}
use async_dpdk.Agent.Polling.Bursts.{IsPacket-same, poll_burst-poll_one}

module _ {Bytes : Type 0} (types : EtherTypes) (frag : Reassembly) (lib : Pktmbuf)
    (frees : Frees lib) (areas : AreaDocs lib) (c : Ptypes) (to_bytes : List ℕ → Bytes) (fuel : ℕ)
    (ports : PortTable) (gone : ℕ → Bool) where
  -- A datagram for a socket whose mailbox nobody waits on.
  abbrev handed : ℕ → Received Bytes → Mailbox (Received Bytes) → Rx Bytes → Rx Bytes
  handed fd item box w = record w {
    mailboxes = record w.mailboxes {
      boxes = insert fd (record box { received = box.received ++ item ∷ [] }) w.mailboxes.boxes;
    };
    sent = w.sent ++ [];
  }

  hand_over-handed :
      (fd : ℕ) (item : Received Bytes) (box : Mailbox (Received Bytes)) (w : Rx Bytes)
      → w.mailboxes.is_poisoned ≡ false
      → lookup fd w.mailboxes.boxes ≡ some box
      → box.watcher ≡ none
      → hand_over gone (record { sockfd = fd; src = item.0; packet = item.1 }) w
        ≡ handed fd item box w
  unfolding put_mailbox
  hand_over-handed fd item box w u b n = ground arith

  module _ (whole : (xs : List ℕ) → byte 6 xs ≡ 0 → byte 7 xs ≡ 0 → frag.is_fragmented xs ≡ false)
      (ipv4_cksum : List ℕ → ℕ) (stale : ℕ × ℕ) (mac : Mac) (from to : Endpoint) where
    -- A received mbuf, and the data and the `IPID` of the frame in it.
    abbrev pub Job : Type 0
    Job = ℕ × List ℕ × ℕ

    abbrev pub mbuf_of : Job → ℕ
    mbuf_of (m, buf, ipid) = m

    -- The mbuf holds the frame that `send_to` makes for the data, and there are data.
    abbrev pub Holds : Mem → Job → Type 0
    Holds mem (m, buf, ipid) =
        IsPacket mem m []
        × ((mem m).content ≡ frame_of types ipv4_cksum stale to_bytes mac from to buf ipid)
        × (0 < length buf)

    -- What the socket is to receive for it.
    abbrev pub receipt : Mem → Job → Received Bytes
    receipt mem (m, buf, ipid) =
        (address from, from_segments c to_bytes (mem m).packet_type (buf ∷ []))

    Holds-same :
        (mem mem' : Mem) (j : Job) → mem' (mbuf_of j) ≡ mem (mbuf_of j) → Holds mem j → Holds mem' j
    Holds-same mem mem' (m, buf, ipid) e h =
        (IsPacket-same mem mem' m e h.0, ap (λ (r : RteMbuf). r.content) e ∙ h.1, h.2)

    rest-Holds :
        (m : ℕ) (js : List Job) (mem mem' : Mem)
        → Elsewhere m mem mem'
        → All (λ x. m ≢ x) (map mbuf_of js)
        → All (Holds mem) js
        → All (Holds mem') js
    rest-Holds m [] mem mem' o d a = tt
    rest-Holds m (j ∷ js) mem mem' o d a =
        (Holds-same mem mem' j (o (mbuf_of j) d.0) a.0, rest-Holds m js mem mem' o d.1 a.1)

    receipts_same :
        (m : ℕ) (js : List Job) (mem mem' : Mem)
        → Elsewhere m mem mem'
        → All (λ x. m ≢ x) (map mbuf_of js)
        → map (receipt mem') js ≡ map (receipt mem) js
    receipts_same m [] mem mem' o d = refl
    receipts_same m (j ∷ js) mem mem' o d =
        ap₂ ◌∷◌
          (ap (λ (r : RteMbuf). (address from, from_segments c to_bytes r.packet_type (j.1 ∷ [])))
            (o (mbuf_of j) d.0))
          (receipts_same m js mem mem' o d.1)

    -- Frames of `send_to` with data in them for a bound socket, in distinct mbufs of one segment each, in
    -- one burst; a packet without a fragment offset and flags counts as whole. The mailbox of the
    -- socket, where no watcher waits, gets the data of each with the sender's address, in the order of
    -- the burst, while the table of mailboxes is not poisoned, and every mbuf is given back once.
    pub poll_burst-frames :
        (fd : ℕ) (box : Mailbox (Received Bytes)) (js : List Job) (w : Rx Bytes)
        → addr_2_sockfd to.port (ip_of to) ports ≡ some fd
        → w.mailboxes.is_poisoned ≡ false
        → lookup fd w.mailboxes.boxes ≡ some box
        → box.watcher ≡ none
        → Distinct (map mbuf_of js)
        → All (Holds w.store.mem) js
        → 0 < fuel
        → (w' : Rx Bytes) × (poll_burst gone types lib frag c to_bytes fuel ports
              (map (λ j. some (mbuf_of j)) js)
              w
            ≡ (parsed (ok tt), w'))
          × (lookup fd w'.mailboxes.boxes
              ≡ some (record box { received = box.received ++ map (receipt w.store.mem) js }))
          × (w'.store.freed ≡ w.store.freed ++ map mbuf_of js)
    unfolding poll_burst poll_one
    poll_burst-frames fd box [] w found u b n d a k = (
      w,
      refl,
      b
          ∙ ap (λ (xs : List (Received Bytes)). some (record box { received = xs }))
              (sym (append-nil box.received)),
      sym (append-nil w.store.freed),
    )
    poll_burst-frames fd box ((m, buf, ipid) ∷ js) w found u b n d a k =
        let (st, q, f, o) =
          frame-delivered types ipv4_cksum stale to_bytes frag lib frees areas c fuel ports mac from
            to buf ipid m fd w.store whole a.0.0 a.0.1 a.0.2 k found in
        let item = receipt w.store.mem (m, buf, ipid) in
        let box1 : Mailbox (Received Bytes) = record box { received = box.received ++ item ∷ [] } in
        let w1 = handed fd item box (record w { store = st }) in
        let (w2, e, g, h) =
          poll_burst-frames fd box1 js w1 found u (lookup-insert_self fd box1 w.mailboxes.boxes) n
            d.1 (rest-Holds m js w.store.mem st.mem o d.0 a.1) k in
        (
          w2,
          poll_burst-poll_one types frag lib frees areas c to_bytes fuel ports gone m
                (map (λ j. some (mbuf_of j)) js) w w1
                (ap (λ (x : Parsed (Datagram Bytes) × Store). absorb gone x w) q
                  ∙ ap (λ (x : Rx Bytes). (parsed tt, x))
                      (hand_over-handed fd item box (record w { store = st }) u b n))
              ∙ e,
          g
              ∙ ap (λ (xs : List (Received Bytes)). some (record box { received = xs }))
                  (append_assoc box.received (item ∷ []) (map (receipt st.mem) js)
                    ∙ ap (λ (xs : List (Received Bytes)). box.received ++ item ∷ xs)
                        (receipts_same m js w.store.mem st.mem o d.0)),
          h
              ∙ ap (λ (xs : List ℕ). xs ++ map mbuf_of js) f
              ∙ append_assoc w.store.freed (m ∷ []) (map mbuf_of js),
        )
