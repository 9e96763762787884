-- ===== src/Threads.antt =====
-- src/proto/udp.rs, src/proto/socket.rs and src/agent.rs together: sockets that any threads open, read and
-- drop, and agents that deliver, in any order. A step is what one holder of a lock does, so a `bind`, a
-- drop and a delivery are several steps, with other threads' between them.
pub mod Phases
pub mod Changes
pub mod Failing
pub mod Invariant
pub mod Safety
pub mod Runs
pub mod Reuse
use async_dpdk.Base.{
  ℕ, ◌≡◌, Bool, false, Option, none, some, List, [], ◌∷◌, ◌++◌, get_elem?, lookup, insert, update,
}
use async_dpdk.Errno.{Error, Result, ok, err}
use async_dpdk.Addr.{IpAddr, SocketAddr}
use async_dpdk.Socket.{Tables, fresh_socks, fresh_ports, bind_fd, free_fd, addr_2_sockfd}
use async_dpdk.Socket.Mailbox.{
  Mailbox, MailboxTable, Delivery, alloc_mailbox, dealloc_mailbox, put_mailbox, recv,
}

-- What the threads are doing with a descriptor, and its port: no socket has it; a `bind` has it from
-- `bind_fd` and looks for the device; a socket has it; a `bind` of an IPv6 address returned an error and left it
-- so; a drop of its socket is between its two calls.
pub data Phase : Type 0 where
  idle : Phase
  opening : ℕ → Phase
  live : ℕ → Phase
  abandoned : ℕ → Phase
  closing : ℕ → Phase

-- A packet that an agent has received, with the destination port in its UDP header.
pub record Arrived (Packet : Type 0) : Type 0 where
  pub port : ℕ
  pub packet : Packet

module _ (Packet : Type 0) where
  -- The global tables, the phases of the descriptors, and the packets for which an agent has looked up the
  -- descriptor and has not yet called `put_mailbox`.
  pub record System : Type 0 where
    pub tables : Tables
    pub mailboxes : MailboxTable (Arrived Packet)
    pub phase : ℕ → Phase
    pub looked : List (ℕ × Arrived Packet)

module _ {Packet : Type 0} where
  abbrev pub start_state : System Packet
  start_state = record {
    tables = record { socks = fresh_socks; ports = fresh_ports };
    mailboxes = record { is_poisoned = false; boxes = [] };
    phase = λ fd. idle;
    looked = [];
  }

  -- The states behind the steps.
  abbrev pub bound : ℕ → ℕ → Tables → System Packet → System Packet
  bound fd p t s = record s { tables = t; phase = update s.phase fd (opening p) }

  abbrev pub with_mailbox : ℕ → Phase → System Packet → System Packet
  with_mailbox fd ph s = record s {
    mailboxes = (alloc_mailbox fd s.mailboxes).1;
    phase = update s.phase fd ph;
  }

  abbrev pub without_mailbox : ℕ → ℕ → System Packet → System Packet
  without_mailbox fd p s = record s {
    mailboxes = (dealloc_mailbox fd s.mailboxes).1;
    phase = update s.phase fd (closing p);
  }

  abbrev pub given_back : ℕ → System Packet → System Packet
  given_back fd s = record s { tables = (free_fd fd s.tables).1; phase = update s.phase fd idle }

  abbrev pub delivered :
      (ℕ → Bool) → ℕ → Arrived Packet → List (ℕ × Arrived Packet) → System Packet → System Packet
  delivered gone fd d rest s = record s {
    mailboxes = (put_mailbox gone fd d s.mailboxes).2;
    looked = rest;
  }

  abbrev pub read : ℕ → Mailbox (Arrived Packet) → System Packet → System Packet
  read fd m s = record s {
    mailboxes = record s.mailboxes { boxes = insert fd m s.mailboxes.boxes };
  }

  -- The steps.
  pub data Step (s : System Packet) : System Packet → Type 0 where
    -- `bind_fd` in `UdpSocket::bind`
    binds :
        (addr : SocketAddr) (fd p : ℕ) (t : Tables)
        → bind_fd addr s.tables ≡ (ok (fd, p), t)
        → Step s (bound fd p t s)
    bind_fails :
        (addr : SocketAddr) (e : Error) (t : Tables)
        → bind_fd addr s.tables ≡ (err e, t)
        → Step s (record s { tables = t })
    -- `alloc_mailbox` in `bind`, for an IPv4 address and for an IPv6 address
    opens : (fd p : ℕ) → s.phase fd ≡ opening p → Step s (with_mailbox fd (live p) s)
    abandons : (fd p : ℕ) → s.phase fd ≡ opening p → Step s (with_mailbox fd (abandoned p) s)
    -- `free_fd` in `bind`, without a device
    gives_back : (fd p : ℕ) → s.phase fd ≡ opening p → Step s (given_back fd s)
    -- the drop of a socket
    deallocs : (fd p : ℕ) → s.phase fd ≡ live p → Step s (without_mailbox fd p s)
    frees : (fd p : ℕ) → s.phase fd ≡ closing p → Step s (given_back fd s)
    -- an agent: `addr_2_sockfd` of the packet's own port, and later `put_mailbox`
    looks :
        (fd : ℕ) (ip : IpAddr) (d : Arrived Packet)
        → addr_2_sockfd d.port ip s.tables.ports ≡ some fd
        → Step s (record s { looked = (fd, d) ∷ s.looked })
    puts :
        (gone : ℕ → Bool) (fd : ℕ) (d : Arrived Packet) (front back : List (ℕ × Arrived Packet))
        → s.looked ≡ front ++ (fd, d) ∷ back
        → Step s (delivered gone fd d (front ++ back) s)
    -- `recv_from` on the socket's own mailbox
    reads :
        (ch fd p : ℕ) (m : Mailbox (Arrived Packet))
        → s.phase fd ≡ live p
        → lookup fd s.mailboxes.boxes ≡ some m
        → Step s (read fd (recv ch m).2 s)

  -- Any number of steps.
  pub data Steps (s : System Packet) : System Packet → Type 0 where
    done : Steps s s
    next : {s1 s2 : System Packet} → Steps s s1 → Step s1 s2 → Steps s s2

  abbrev pub Reach : System Packet → Type 0
  Reach s = Steps start_state s
