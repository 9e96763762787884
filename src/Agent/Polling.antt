-- ===== src/Agent/Polling.antt =====
-- src/agent.rs: the loop of `RxAgent` over what a queue received, from the mbufs to the mailboxes.
pub mod Bursts
pub mod Frames
use async_dpdk.Base.{ℕ, Bool, Option, none, some, List, [], ◌∷◌, ◌++◌}
use async_dpdk.Errno.{no_mem, Result, ok, err, panicked}
use async_dpdk.Addr.{SocketAddr}
use async_dpdk.Proto.{Ptypes}
use async_dpdk.Packet.{Packet}
use async_dpdk.Socket.{PortTable}
use async_dpdk.Socket.Mailbox.{MailboxTable, Delivery, put_mailbox}
use async_dpdk.Mbuf.{Store, Pktmbuf}
use async_dpdk.Mbuf.Reading.{Parsed, parsed, ignored, out_of_bounds}
use async_dpdk.Udp.Datagram.{Datagram}
use async_dpdk.Agent.Frames.{EtherTypes, Reassembly, handle_ether}

-- `RecvResult`, which the agent always makes with `Ok`.
abbrev pub Received : Type 0 → Type 0
Received Bytes = SocketAddr × Packet Bytes

-- What the agent changes: mbufs, mailboxes, and the channels of waiting sockets.
pub record Rx (Bytes : Type 0) : Type 0 where
  pub store : Store
  pub mailboxes : MailboxTable (Received Bytes)
  pub sent : List (Delivery (Received Bytes))

module _ {Bytes : Type 0} (gone : ℕ → Bool) where
  -- `put_mailbox`, whose error is only logged.
  abbrev pub hand_over : Datagram Bytes → Rx Bytes → Rx Bytes
  hand_over d w =
      let (_, ds, t) = put_mailbox gone d.sockfd (d.src, d.packet) w.mailboxes in
      record w { mailboxes = t; sent = w.sent ++ ds }

  -- What `handle_ether` gives goes to its mailbox, when there is something.
  abbrev pub absorb : Parsed (Datagram Bytes) × Store → Rx Bytes → Parsed (Unit {0}) × Rx Bytes
  absorb (parsed d, st) w = (parsed tt, hand_over d (record w { store = st }))
  absorb (ignored, st) w = (parsed tt, record w { store = st })
  absorb (out_of_bounds, st) w = (out_of_bounds, record w { store = st })

  module _ (types : EtherTypes) (lib : Pktmbuf) (frag : Reassembly) (c : Ptypes)
      (to_bytes : List ℕ → Bytes) (fuel : ℕ) (ports : PortTable) where
    -- A received packet.
    unfoldable pub poll_one : ℕ → Rx Bytes → Parsed (Unit {0}) × Rx Bytes
    poll_one m w = absorb (handle_ether types lib frag c to_bytes fuel ports m w.store) w

    -- The packets of a burst. A null pointer ends the thread.
    unfoldable pub poll_burst : List (Option ℕ) → Rx Bytes → Parsed (Result (Unit {0})) × Rx Bytes
    poll_burst [] w = (parsed (ok tt), w)
    poll_burst (none ∷ ps) w = (parsed (err no_mem), w)
    poll_burst (some m ∷ ps) w =
        let (r, w') = poll_one m w in
        elim r [
          | parsed _ ↦ poll_burst ps w'
          | ignored ↦ (ignored, w')
          | out_of_bounds ↦ (out_of_bounds, w')
        ]

    -- A round over the polled queues, with the burst of each.
    unfoldable pub poll_round :
        List (List (Option ℕ)) → Rx Bytes → Parsed (Result (Unit {0})) × Rx Bytes
    poll_round [] w = (parsed (ok tt), w)
    poll_round (burst ∷ bursts) w =
        let (r, w') = poll_burst burst w in
        elim r [
          | parsed q ↦ elim q [
            | ok _ ↦ poll_round bursts w'
            | err e ↦ (parsed (err e), w')
            | panicked ↦ (parsed panicked, w')
          ]
          | ignored ↦ (ignored, w')
          | out_of_bounds ↦ (out_of_bounds, w')
        ]
