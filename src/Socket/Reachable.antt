-- ===== src/Socket/Reachable.antt =====
-- src/proto/socket.rs: the tables that a program can reach.
use async_dpdk.Base.{ℕ, ◌≡◌, false, some, get_elem?}
use async_dpdk.Addr.{SocketAddr}
use async_dpdk.Socket.{in_use, Tables, fresh_socks, fresh_ports, bind_fd, free_fd}
use async_dpdk.Socket.Fds.{IsValid}
use async_dpdk.Socket.Binding.{bind_fd-IsValid}
use async_dpdk.Socket.Freeing.{free_fd-IsValid, fresh-IsValid}

-- The tables after any calls: of `bind_fd`, for any address and with any outcome, and of `free_fd`
-- for a descriptor in use, while neither lock is poisoned.
pub data Reachable : Tables → Type 0 where
  fresh : Reachable (record { socks = fresh_socks; ports = fresh_ports })
  binds : {t : Tables} → Reachable t → (addr : SocketAddr) → Reachable (bind_fd addr t).1
  frees :
      {t : Tables}
      → Reachable t
      → (fd p : ℕ) → get_elem? t.socks.opened fd ≡ some (in_use p)
      → t.socks.is_poisoned ≡ false
      → t.ports.is_poisoned ≡ false
      → Reachable (free_fd fd t).1

-- Tables that start empty stay valid through any sequence of calls of `bind_fd`, failed ones too, and
-- of `free_fd` for descriptors in use while no lock is poisoned: the 8192 states are kept, no
-- descriptor is free twice or free and in use, and a port and the descriptor that it is bound to name
-- each other.
pub Reachable-IsValid : (t : Tables) → Reachable t → IsValid t
Reachable-IsValid _ fresh = fresh-IsValid
Reachable-IsValid _ (binds {t} r addr) = bind_fd-IsValid addr t (Reachable-IsValid t r)
Reachable-IsValid _ (frees {t} r fd p e u w) = free_fd-IsValid fd p t (Reachable-IsValid t r) e u w
