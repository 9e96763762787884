-- ===== src/Socket.antt =====
-- src/proto/socket.rs: the table of sockets, the table of ports, and the mailboxes. Each global
-- table is a record with a mark for its poisoned mutex; an operation takes the tables that it locks
-- and returns them changed, also when it fails. File descriptors are the numbers that the table of
-- sockets hands out, so they are natural numbers and their conversion to `usize` cannot fail.
pub mod Mailbox
pub mod Ports
pub mod Fds
pub mod Binding
pub mod Freeing
pub mod Reachable
use async_dpdk.Base.{
  ℕ, zero, suc, ◌+◌, Bool, true, false, ◌||◌, Option, none, some, List, [], ◌∷◌, length, get_elem?,
  set, replicate, Dict, lookup, insert, erase, ◌==◌, if◌then◌else◌, u16_size, add_u16,
}
use async_dpdk.Errno.{
  Error, no_buf, invalid_arg, out_of_range, poisoned, Result, ok, err, panicked, ◌>>=◌, ◌>>◌, ok_or,
  fail_if,
}
use async_dpdk.Addr.{IpAddr, SocketAddr, is_unspecified, ip_eq}

-- `MAX_SOCK_NUM`
abbrev pub max_sock_num : ℕ
max_sock_num = 8192

-- `SockState`
pub data SockState : Type 0 where
  unused : SockState
  in_use : ℕ → SockState

-- `SockTable` with its `SockTableInner`
pub record SockTable : Type 0 where
  pub is_poisoned : Bool
  pub opened : List SockState
  pub free_fds : List ℕ

-- `PortInfo`
pub record PortInfo : Type 0 where
  pub fd : ℕ
  pub ip : IpAddr

-- `PortTable` with its `PortTableInner`
pub record PortTable : Type 0 where
  pub is_poisoned : Bool
  pub info : Dict PortInfo
  pub next_port : ℕ

-- The numbers from `i` on, `n` of them: the range `(i..i + n)`.
abbrev pub range_from : ℕ → ℕ → List ℕ
range_from i zero = []
range_from i (suc n) = i ∷ range_from (suc i) n

-- `SockTableInner::default`
unfoldable pub fresh_socks : SockTable
fresh_socks = record {
  is_poisoned = false;
  opened = replicate max_sock_num unused;
  free_fds = range_from 0 max_sock_num;
}

-- `PortTableInner::default`
abbrev pub fresh_ports : PortTable
fresh_ports = record { is_poisoned = false; info = []; next_port = 0 }

-- `Mutex::lock` with its error converted by `Error::from`
abbrev pub lock : Bool → Result (Unit {0})
lock is_poisoned = fail_if is_poisoned poisoned

-- The step of the search in `bind_port`: the next number, going round from 65535 to 1.
abbrev pub next_candidate : ℕ → ℕ
next_candidate p = let q = add_u16 p 1 in if q == 0 then 1 else q

-- `info.get(&p).is_some()`
abbrev pub is_bound : ℕ → Dict PortInfo → Bool
is_bound p info = elim (lookup p info) [ none ↦ false | some _ ↦ true ]

-- The `while` loop of `bind_port`, which looks for a port that is not bound; `none` when the fuel
-- runs out.
unfoldable pub search_port : ℕ → ℕ → Dict PortInfo → Option ℕ
search_port zero p info = none
search_port (suc fuel) p info = elim (is_bound p info) [
  | true ↦ search_port fuel (next_candidate p) info
  | false ↦ some p
]

-- One more than the 65536 values of a `u16`.
abbrev pub port_fuel : ℕ
port_fuel = 65537

-- The port that is asked for, or one that the search finds; with the table's `next_port`. The
-- branch for a search out of fuel stands for a loop without end, and is never taken.
unfoldable pub choose_port : ℕ → PortTable → Result (ℕ × ℕ)
choose_port port t =
    if port == 0
    then elim (search_port port_fuel (add_u16 t.next_port 1) t.info) [
      | some p ↦ ok (p, p)
      | none ↦ panicked
    ]
    else (if is_bound port t.info then err invalid_arg else ok (port, t.next_port))

-- `bind_port`
unfoldable pub bind_port : ℕ → IpAddr → ℕ → PortTable → Result ℕ × PortTable
unfolding choose_port
bind_port port addr fd t =
    elim (lock t.is_poisoned >> fail_if (length t.info == 65534) no_buf >> choose_port port t) [
      | ok (p, next) ↦ (
        ok p,
        record t { info = insert p (record { fd = fd; ip = addr }) t.info; next_port = next },
      )
      | err e ↦ (err e, t)
      | panicked ↦ (panicked, t)
    ]

-- `free_port`
unfoldable pub free_port : ℕ → PortTable → Result (Unit {0}) × PortTable
free_port port t =
    if t.is_poisoned then (err poisoned, t) else (ok tt, record t { info = erase port t.info })

-- The two tables that `bind_fd` and `free_fd` lock.
pub record Tables : Type 0 where
  pub socks : SockTable
  pub ports : PortTable

-- `bind_fd` behind `bind_port`: mark the descriptor as used.
abbrev pub mark_in_use : ℕ → Result ℕ × PortTable → SockTable → Result (ℕ × ℕ) × Tables
mark_in_use fd (ok port, t) s = elim (get_elem? s.opened fd) [
  | some _ ↦ (
    ok (fd, port),
    record { socks = record s { opened = set s.opened fd (in_use port) }; ports = t },
  )
  | none ↦ (err out_of_range, record { socks = s; ports = t })
]
mark_in_use fd (err e, t) s = (err e, record { socks = s; ports = t })
mark_in_use fd (panicked, t) s = (panicked, record { socks = s; ports = t })

-- `bind_fd` on the queue of free descriptors: its front is taken before the port is bound.
abbrev pub bind_front : SocketAddr → List ℕ → Tables → Result (ℕ × ℕ) × Tables
bind_front addr [] t = (err no_buf, t)
bind_front addr (fd ∷ rest) t =
    mark_in_use fd (bind_port addr.port addr.ip fd t.ports) (record t.socks { free_fds = rest })

-- `bind_fd`
unfoldable pub bind_fd : SocketAddr → Tables → Result (ℕ × ℕ) × Tables
bind_fd addr t =
    if t.socks.is_poisoned then (err poisoned, t) else bind_front addr t.socks.free_fds t

-- The port of a descriptor's state, 0 for one that is not in use.
abbrev pub port_of : SockState → ℕ
port_of unused = 0
port_of (in_use port) = port

-- `free_fd`
unfoldable pub free_fd : ℕ → Tables → Result (Unit {0}) × Tables
free_fd fd t =
    if t.socks.is_poisoned then (err poisoned, t) else elim (get_elem? t.socks.opened fd) [
      | none ↦ (err out_of_range, t)
      | some state ↦
          let (r, ports) = free_port (port_of state) t.ports in
          (
            r,
            record {
              socks = record t.socks {
                opened = set t.socks.opened fd unused;
                free_fds = fd ∷ t.socks.free_fds;
              };
              ports = ports;
            },
          )
    ]

-- `addr_2_sockfd`
unfoldable pub addr_2_sockfd : ℕ → IpAddr → PortTable → Option ℕ
addr_2_sockfd dst_port dst_ip t = if t.is_poisoned then none else elim (lookup dst_port t.info) [
  | none ↦ none
  | some i ↦ if is_unspecified i.ip || ip_eq i.ip dst_ip then some i.fd else none
]
