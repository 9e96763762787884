-- ===== src/Socket/Mailbox.antt =====
-- src/proto/socket.rs: `Mailbox` and the table of mailboxes. The channels are tokio's `oneshot`: one
-- is a number, `oneshot::channel()` gives a new one, and `Sender::send` fails and gives the value
-- back exactly if the receiver is gone, which is the argument `gone`.
pub mod Fifo
use async_dpdk.Base.{
  ℕ, zero, suc, Bool, true, false, Option, none, some, List, [], ◌∷◌, ◌++◌, Dict, lookup, insert,
  erase, if◌then◌else◌,
}
use async_dpdk.Errno.{Error, broken_pipe, bad_fd, poisoned, Result, ok, err}

module _ (Packet : Type 0) where
  -- `Mailbox`
  pub record Mailbox : Type 0 where
    pub received : List Packet
    pub watcher : Option ℕ

  -- A value that went into a channel.
  pub record Delivery : Type 0 where
    pub channel : ℕ
    pub packet : Packet

module _ {Packet : Type 0} where
  -- `Mailbox::default`
  abbrev pub new_mailbox : Mailbox Packet
  new_mailbox = record { received = []; watcher = none }

  -- `Sender::send`, for the sender of the channel.
  abbrev pub send : (ℕ → Bool) → ℕ → Packet → Result (Unit {0}) × List (Delivery Packet)
  send gone ch p =
      if gone ch then (err broken_pipe, []) else (ok tt, record { channel = ch; packet = p } ∷ [])

  -- `Mailbox::recv`, with the new channel; its receiver is on the stack, so the send succeeds.
  abbrev pub recv_from_front :
      ℕ → List Packet → Mailbox Packet → Result ℕ × List (Delivery Packet) × Mailbox Packet
  recv_from_front ch [] m = (ok ch, [], record m { watcher = some ch })
  recv_from_front ch (p ∷ ps) m =
      (ok ch, record { channel = ch; packet = p } ∷ [], record m { received = ps })

  unfoldable pub recv : ℕ → Mailbox Packet → Result ℕ × List (Delivery Packet) × Mailbox Packet
  recv ch m = recv_from_front ch m.received m

  -- `Mailbox::put`: the watcher is taken also when the send fails.
  unfoldable pub put :
      (ℕ → Bool)
      → Packet
      → Mailbox Packet
      → Result (Unit {0}) × List (Delivery Packet) × Mailbox Packet
  put gone p m = elim m.watcher [
    | some ch ↦ let (r, ds) = send gone ch p in (r, ds, record m { watcher = none })
    | none ↦ (ok tt, [], record m { received = m.received ++ p ∷ [] })
  ]

-- `MailboxTable`. A socket and the table share a mailbox through an `Arc`; the socket reaches its own
-- by the descriptor, which names the same mailbox while the socket lives.
pub record MailboxTable (Packet : Type 0) : Type 0 where
  pub is_poisoned : Bool
  pub boxes : Dict (Mailbox Packet)

module _ {Packet : Type 0} where
  -- `alloc_mailbox`
  unfoldable pub alloc_mailbox :
      ℕ → MailboxTable Packet → Result (Mailbox Packet) × MailboxTable Packet
  alloc_mailbox fd t =
      if t.is_poisoned
      then (err poisoned, t)
      else (ok new_mailbox, record t { boxes = insert fd new_mailbox t.boxes })

  -- `dealloc_mailbox`
  unfoldable pub dealloc_mailbox : ℕ → MailboxTable Packet → Result (Unit {0}) × MailboxTable Packet
  dealloc_mailbox fd t =
      if t.is_poisoned then (err poisoned, t) else (ok tt, record t { boxes = erase fd t.boxes })

  -- `put_mailbox`; no holder of a mailbox's own lock can panic.
  unfoldable pub put_mailbox :
      (ℕ → Bool)
      → ℕ
      → Packet
      → MailboxTable Packet
      → Result (Unit {0}) × List (Delivery Packet) × MailboxTable Packet
  unfolding put
  put_mailbox gone fd p t =
      if t.is_poisoned then (err poisoned, [], t) else elim (lookup fd t.boxes) [
        | none ↦ (err bad_fd, [], t)
        | some m ↦
            let (r, ds, m') = put gone p m in (r, ds, record t { boxes = insert fd m' t.boxes })
      ]
