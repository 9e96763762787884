-- ===== src/Udp.antt =====
-- src/proto/udp.rs: UDP sockets over the tables of src/proto/socket.rs. What `to_socket_addrs` gives
-- is an argument, the same at each call; so is what `net_dev::find_dev_by_ip` answers.
pub mod Binding
pub mod Receive
pub mod Devices
pub mod Datagram
pub mod Sending
pub mod RecvFrom
use async_dpdk.Base.{
  ℕ, zero, suc, ◌+◌, ◌*◌, ◌^◌, Bool, true, false, Option, none, some, List, [], ◌∷◌, ◌++◌, length,
  take, drop, min, ◌==◌, if◌then◌else◌, add_usize,
}
use async_dpdk.Errno.{Error, invalid_arg, no_buf, Result, ok, err, panicked}
use async_dpdk.Addr.{IpAddr, v4, v6, SocketAddr}
use async_dpdk.Socket.{Tables, bind_fd, free_fd}
use async_dpdk.Socket.Mailbox.{MailboxTable, alloc_mailbox, dealloc_mailbox}

module _ (Device Packet : Type 0) where
  -- `UdpSocket`; `device` is the pair of the sender and the Ethernet address, `ip` the four octets.
  pub record UdpSocket : Type 0 where
    pub sockfd : ℕ
    pub ip : IpAddr
    pub port : ℕ
    pub device : Device

  -- The global tables.
  pub record World : Type 0 where
    pub tables : Tables
    pub mailboxes : MailboxTable Packet

-- `Result::unwrap` in `drop`
abbrev pub unwrap : Result (Unit {0}) → Result (Unit {0})
unwrap (ok x) = ok x
unwrap (err _) = panicked
unwrap panicked = panicked

module _ {Device Packet : Type 0} where
  -- The conversion of the address to a `u32`, which only IPv4 has.
  abbrev pub to_socket :
      SocketAddr
      → ℕ
      → ℕ
      → Device
      → World Device Packet
      → Result (UdpSocket Device Packet) × World Device Packet
  to_socket addr fd port dev w = elim addr.ip [
    | v4 a b c d ↦ (ok (record { sockfd = fd; ip = v4 a b c d; port = port; device = dev }), w)
    | v6 n ↦ (err invalid_arg, w)
  ]

  -- The mailbox of a socket whose device is found.
  abbrev pub with_mailbox :
      SocketAddr
      → ℕ
      → ℕ
      → Device
      → World Device Packet
      → Result (UdpSocket Device Packet) × World Device Packet
  with_mailbox addr fd port dev w =
      let (r, boxes) = alloc_mailbox fd w.mailboxes in
      let w' : World Device Packet = record w { mailboxes = boxes } in
      elim r [
        | ok _ ↦ to_socket addr fd port dev w'
        | err e ↦ (err e, w')
        | panicked ↦ (panicked, w')
      ]

  -- `socket::free_fd(sockfd)?; return Err(Error::InvalidArg)`
  abbrev pub give_back :
      ℕ → World Device Packet → Result (UdpSocket Device Packet) × World Device Packet
  give_back fd w =
      let (r, t) = free_fd fd w.tables in
      let w' : World Device Packet = record w { tables = t } in
      elim r [ ok _ ↦ (err invalid_arg, w') | err e ↦ (err e, w') | panicked ↦ (panicked, w') ]

  -- The body of the loop of `bind` behind a successful `bind_fd`.
  unfoldable pub open_socket :
      (IpAddr → Result Device)
      → SocketAddr
      → ℕ
      → ℕ
      → World Device Packet
      → Result (UdpSocket Device Packet) × World Device Packet
  open_socket find_dev addr fd port w = elim (find_dev addr.ip) [
    | ok dev ↦ with_mailbox addr fd port dev w
    | err _ ↦ give_back fd w
    | panicked ↦ (panicked, w)
  ]

  -- The body of the loop of `bind` on the answer of `bind_fd`, with what the next round does.
  abbrev pub after_bind_fd :
      (IpAddr → Result Device)
      → SocketAddr
      → (World Device Packet → Option (Result (UdpSocket Device Packet) × World Device Packet))
      → World Device Packet
      → Result (ℕ × ℕ) × Tables
      → Option (Result (UdpSocket Device Packet) × World Device Packet)
  after_bind_fd find_dev addr again w (ok (fd, port), t) =
      some (open_socket find_dev addr fd port (record w { tables = t }))
  after_bind_fd find_dev addr again w (err _, t) = again (record w { tables = t })
  after_bind_fd find_dev addr again w (panicked, t) = some (panicked, record w { tables = t })

  -- `UdpSocket::bind`: the `while let` loop resolves the address again in every round and takes the first
  -- answer; `none` when the fuel runs out.
  unfoldable pub bind :
      (IpAddr → Result Device)
      → Result (List SocketAddr)
      → ℕ
      → World Device Packet
      → Option (Result (UdpSocket Device Packet) × World Device Packet)
  bind find_dev resolved zero w = none
  bind find_dev (ok []) (suc fuel) w = some (err no_buf, w)
  bind find_dev (ok (addr ∷ more)) (suc fuel) w =
      after_bind_fd find_dev addr (bind find_dev (ok (addr ∷ more)) fuel) w (bind_fd addr w.tables)
  bind find_dev (err _) (suc fuel) w = some (err invalid_arg, w)
  bind find_dev panicked (suc fuel) w = some (panicked, w)

  -- `<UdpSocket as Drop>::drop`; a panic of the first `unwrap` skips the second call.
  unfoldable pub drop_socket :
      UdpSocket Device Packet → World Device Packet → Result (Unit {0}) × World Device Packet
  drop_socket s w =
      let (r, boxes) = dealloc_mailbox s.sockfd w.mailboxes in
      let w' : World Device Packet = record w { mailboxes = boxes } in
      elim (unwrap r) [
        | ok _ ↦ let (r', t) = free_fd s.sockfd w'.tables in (unwrap r', record w' { tables = t })
        | err e ↦ (err e, w')
        | panicked ↦ (panicked, w')
      ]

-- The loop of `recv_from` over the fragments: the caller's buffer behind it, and the number of bytes
-- copied.
unfoldable pub copy_frags : List (List ℕ) → List ℕ → ℕ → List ℕ × ℕ
copy_frags [] buf len = (buf, len)
copy_frags (frag ∷ frags) buf len =
    let sz = min (length frag) (length buf) in
    let rest = drop sz buf in
    let (buf', len') = copy_frags frags rest (add_usize len sz) in
    if length rest == 0
    then (take sz frag ++ rest, add_usize len sz)
    else (take sz frag ++ buf', len')
