-- ===== src/Udp/RecvFrom/Roundtrip.antt =====
-- src/proto/udp.rs with src/agent.rs: what `send_to` sends is what `recv_from` returns.
use async_dpdk.Base.{
  ℕ, ◌^◌, ◌≤◌, ◌<◌, ◌≡◌, refl, ap, ap₂, ◌∙◌, min, Bool, false, none, some, List, [], ◌∷◌, ◌++◌,
  append-nil, map, length, drop, take_of_length_le, All, Distinct, lookup, ==-refl, arith,
}
use async_dpdk.Errno.{ok}
use async_dpdk.Addr.{SocketAddr}
use async_dpdk.Proto.{Ptypes}
use async_dpdk.Packet.{Packet, from_segments}
use async_dpdk.Socket.Mailbox.{Mailbox, recv, recv_from_front}
use async_dpdk.Udp.{copy_frags}
use async_dpdk.Udp.Receive.{copy_frags_lem, received}
use async_dpdk.Socket.{PortTable, addr_2_sockfd}
use async_dpdk.Mbuf.{Pktmbuf}
use async_dpdk.Mbuf.Chains.{Frees}
use async_dpdk.Mbuf.Areas.{AreaDocs}
use async_dpdk.Mbuf.Reading.{parsed, byte}
use async_dpdk.Udp.Sending.{Mac}
use async_dpdk.Udp.Sending.Delivery.{Endpoint, ip_of, address}
use async_dpdk.Agent.Frames.{EtherTypes, Reassembly}
use async_dpdk.Agent.Polling.{Received, Rx, poll_burst}
use async_dpdk.Agent.Polling.Frames.{Holds, poll_burst-frames}
use async_dpdk.Udp.RecvFrom.{await_value, recv_from}

-- Bytes that fit the buffer are copied as they are.
received_all :
    (xs out : List ℕ)
    → length xs ≤ length out
    → received xs out 0 ≡ (xs ++ drop (length xs) out, length xs)
received_all xs out h =
    let n : min (length xs) (length out) ≡ length xs = omega arith in
    rw n (
      ap₂ (λ (ys : List ℕ) (k : ℕ). (ys ++ drop (length xs) out, k))
        (take_of_length_le (length xs) xs (omega arith)) (omega arith))

module _ {Bytes : Type 0} (content : Bytes → List ℕ) where
  -- A datagram that waits in the mailbox, in one fragment of bytes that fit the buffer.
  pub recv_from_one :
      (ch : ℕ) (out xs : List ℕ) (addr : SocketAddr) (packet : Packet Bytes) (frag : Bytes)
      (m : Mailbox (SocketAddr × Packet Bytes)) (rest : List (SocketAddr × Packet Bytes))
      → m.received ≡ (addr, packet) ∷ rest
      → packet.frags ≡ frag ∷ []
      → content frag ≡ xs
      → length xs ≤ length out
      → length out < 2 ^ 64
      → recv_from content ch out m
        ≡ ((some (ok (length xs, addr)), xs ++ drop (length xs) out), record m { received = rest })
  unfolding recv_from recv
  recv_from_one ch out xs addr packet frag m rest e f g h k =
      let copied : copy_frags (map content packet.frags) out 0
          ≡ (xs ++ drop (length xs) out, length xs) =
        ap (λ (fs : List Bytes). copy_frags (map content fs) out 0) f
        ∙ copy_frags_lem (content frag ∷ []) out 0 (omega (arith, k))
        ∙ ap (λ (ys : List ℕ). received (ys ++ []) out 0) g
        ∙ ap (λ (ys : List ℕ). received ys out 0) (append-nil xs)
        ∙ received_all xs out h in
      ap
        (λ (ps : List (SocketAddr × Packet Bytes)).
          await_value content out (recv_from_front ch ps m))
        e
      ∙ rw (==-refl ch) (
          ap (λ (x : List ℕ × ℕ). ((some (ok (x.1, addr)), x.0), record m { received = rest }))
            copied)

module _ {Bytes : Type 0} (types : EtherTypes) (frag : Reassembly) (lib : Pktmbuf)
    (frees : Frees lib) (areas : AreaDocs lib) (c : Ptypes) (to_bytes : List ℕ → Bytes)
    (content : Bytes → List ℕ) (fuel : ℕ) (ports : PortTable) (gone : ℕ → Bool)
    (whole : (xs : List ℕ) → byte 6 xs ≡ 0 → byte 7 xs ≡ 0 → frag.is_fragmented xs ≡ false)
    (ipv4_cksum : List ℕ → ℕ) (stale : ℕ × ℕ) (mac : Mac) (from to : Endpoint) where
  -- The way of a datagram. Frames that `send_to` made come in one burst, each with data and in an mbuf of
  -- its own with one segment, for a bound socket whose mailbox is empty and has no watcher; the table
  -- of mailboxes is not poisoned, a packet without a fragment offset and flags counts as whole, and a
  -- `BytesMut` made of the first data holds them. Then `recv_from` with a buffer in which the data of the
  -- first frame fit returns their number and the sender's address and port, the buffer begins with
  -- exactly these data and is unchanged behind them, and the data of the other frames stay in the
  -- mailbox, in order.
  pub recv_from-poll_burst :
      (fd ch m ipid : ℕ) (buf out : List ℕ) (js : List (ℕ × List ℕ × ℕ))
      (box : Mailbox (Received Bytes)) (w : Rx Bytes)
      → content (to_bytes buf) ≡ buf
      → addr_2_sockfd to.port (ip_of to) ports ≡ some fd
      → w.mailboxes.is_poisoned ≡ false
      → lookup fd w.mailboxes.boxes ≡ some box
      → box.watcher ≡ none
      → box.received ≡ []
      → Distinct (m ∷ map (λ j. j.0) js)
      → All
          (Holds types frag lib frees areas c to_bytes fuel ports gone whole ipv4_cksum stale mac
            from to w.store.mem)
          ((m, buf, ipid) ∷ js)
      → 0 < fuel
      → length buf ≤ length out
      → length out < 2 ^ 64
      → (w' : Rx Bytes) × (box' : Mailbox (Received Bytes)) × (poll_burst gone types lib frag c
            to_bytes fuel ports
            (some m ∷ map (λ j. some j.0) js)
            w
          ≡ (parsed (ok tt), w'))
        × (lookup fd w'.mailboxes.boxes ≡ some box')
        × (recv_from content ch out box' ≡ (
          (some (ok (length buf, address from)), buf ++ drop (length buf) out),
          record box' {
            received =
                map
                  (λ j. (
                    address from,
                    from_segments c to_bytes (w.store.mem j.0).packet_type (j.1 ∷ []),
                  ))
                  js;
          },
        ))
  recv_from-poll_burst fd ch m ipid buf out js box w same found u b n empty d a k h r =
      let (w', e, q, _) =
        poll_burst-frames types frag lib frees areas c to_bytes fuel ports gone whole ipv4_cksum
          stale mac from to fd box ((m, buf, ipid) ∷ js) w found u b n d a k in
      let item : Received Bytes =
        (address from, from_segments c to_bytes (w.store.mem m).packet_type (buf ∷ [])) in
      let items : List (Received Bytes) =
        map (λ j. (address from, from_segments c to_bytes (w.store.mem j.0).packet_type (j.1 ∷ [])))
          js in
      (
        w',
        record box { received = box.received ++ item ∷ items },
        e,
        q,
        recv_from_one content ch out buf (address from) item.1 (to_bytes buf)
            (record box { received = box.received ++ item ∷ items }) items
            (ap (λ (xs : List (Received Bytes)). xs ++ item ∷ items) empty) refl same h r,
      )
