-- ===== src/Udp/RecvFrom.antt =====
-- src/proto/udp.rs: `recv_from`, on the mailbox of the socket.
pub mod Roundtrip
use async_dpdk.Base.{ℕ, map, Option, none, some, List, [], ◌∷◌, ◌==◌, if◌then◌else◌}
use async_dpdk.Errno.{Error, Result, ok, err, panicked}
use async_dpdk.Addr.{SocketAddr}
use async_dpdk.Packet.{Packet}
use async_dpdk.Socket.Mailbox.{Mailbox, Delivery, recv}
use async_dpdk.Udp.{copy_frags}

-- The value that is in a channel, when there is one.
abbrev pub value_in : {A : Type 0} → ℕ → List (Delivery A) → Option A
value_in ch [] = none
value_in ch (d ∷ ds) = let rest = value_in ch ds in if d.channel == ch then some d.packet else rest

module _ {Bytes : Type 0} (content : Bytes → List ℕ) where
  -- The end of `recv_from`, for the value of its channel: what it returns, and the caller's buffer.
  abbrev pub take_value :
      List ℕ → Option (SocketAddr × Packet Bytes) → Option (Result (ℕ × SocketAddr)) × List ℕ
  take_value buf none = (none, buf)
  take_value buf (some (addr, packet)) =
      let (buf', len) = copy_frags (map content packet.frags) buf 0 in (some (ok (len, addr)), buf')

  -- `recv_from` behind `recv`.
  abbrev pub await_value :
      List ℕ
      → Result ℕ × List (Delivery (SocketAddr × Packet Bytes)) × Mailbox (SocketAddr × Packet Bytes)
      → (Option (Result (ℕ × SocketAddr)) × List ℕ) × Mailbox (SocketAddr × Packet Bytes)
  await_value buf (ok c, ds, m) = (take_value buf (value_in c ds), m)
  await_value buf (err e, ds, m) = ((some (err e), buf), m)
  await_value buf (panicked, ds, m) = ((some panicked, buf), m)

  -- `recv_from` up to its end, or up to the `await` on the new channel `ch`, which is `none`: its result, the
  -- caller's buffer, and the mailbox.
  unfoldable pub recv_from :
      ℕ
      → List ℕ
      → Mailbox (SocketAddr × Packet Bytes)
      → (Option (Result (ℕ × SocketAddr)) × List ℕ) × Mailbox (SocketAddr × Packet Bytes)
  recv_from ch buf m = await_value buf (recv ch m)
