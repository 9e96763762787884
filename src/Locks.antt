-- ===== src/Locks.antt =====
-- The locks of the crate, and in which order its functions take them: src/proto/socket.rs, src/proto/udp.rs,
-- src/agent.rs, src/net_dev.rs, src/eal.rs and src/mempool.rs. A guard is dropped before those that were taken before it, so
-- what a function gives back is the lock that it took last. A reader of `INET_DEVICE` or `CONTEXT` is taken for a writer, which
-- waits for more. The thread of a `TxAgent` takes the lock of its tasks for a caller of `register` that waits for it
-- meanwhile, so the caller stands for both.
pub mod Order
pub mod Progress
use async_dpdk.Base.{
  ◌≡◌, ℕ, zero, suc, Bool, true, false, ◌||◌, ◌&&◌, ◌==◌, Option, none, some, List, [], ◌∷◌, ◌++◌,
}

-- A lock: its kind, and the device or the descriptor that it belongs to.
abbrev pub Lock : Type 0
Lock = ℕ × ℕ

-- `CONTEXT`, `INET_DEVICE`, `MEMPOOLS`, the tasks of a `TxAgent` and of an `RxAgent`, `SOCK_TABLE`,
-- `PORT_TABLE`, `MAILBOX_TABLE` and a `Mailbox`
abbrev pub context : Lock
context = (0, 0)

abbrev pub inet_device : Lock
inet_device = (1, 0)

abbrev pub mempools : Lock
mempools = (2, 0)

abbrev pub tx_tasks : ℕ → Lock
tx_tasks d = (3, d)

abbrev pub rx_tasks : ℕ → Lock
rx_tasks d = (4, d)

abbrev pub sock_table : Lock
sock_table = (5, 0)

abbrev pub port_table : Lock
port_table = (6, 0)

abbrev pub mailbox_table : Lock
mailbox_table = (7, 0)

abbrev pub mailbox : ℕ → Lock
mailbox fd = (8, fd)

pub data Action : Type 0 where
  acquires : Lock → Action
  releases : Action

-- The guarded body of a function.
abbrev pub guarded : Lock → List Action → List Action
guarded l body = acquires l ∷ (body ++ releases ∷ [])

-- `n` times the same.
abbrev pub times : ℕ → List Action → List Action
times zero body = []
times (suc n) body = body ++ times n body

-- What `EthDev::start` and `stop` do with agents: the `TxAgent` and the `RxAgent` that they register queues with,
-- or unregister them from, in how many queues each, and each `TxAgent` whose last handle goes, which ends in
-- `<TxAgent as Drop>::drop`: the agent of a `stop` or of a failed `start`, or one that a second `start` replaces.
pub record Agents : Type 0 where
  pub tx : ℕ
  pub rx : ℕ
  pub tx_queues : ℕ
  pub rx_queues : ℕ
  pub gone : List ℕ

-- The calls that take locks; `unregister` takes the same as `register`. `no_fd_left` is `bind_fd`
-- without a free descriptor. A round of an agent has the descriptors that it finds for the UDP
-- packets of the round. `probes` makes so many pools. `starts_all` and `stops_all` have the devices
-- that they come to, and `closes` has each `TxAgent` that goes with its device. `enter` first reads
-- the context, and later sets it; when another thread has set it meanwhile, the old one is dropped
-- under the lock, and `Eal`'s drop closes the devices.
pub data Call : Type 0 where
  binds_fd frees_fd addresses allocs_mailbox deallocs_mailbox finds_dev looks_pool_up creates_pool :
      Call
  no_fd_left reads_context : Call
  puts_mailbox receives : ℕ → Call
  rx_registers tx_registers tx_drops : ℕ → Call
  polls_round : ℕ → List (Option ℕ) → Call
  probes : ℕ → Call
  starts stops : Agents → Call
  starts_all stops_all : List Agents → Call
  closes : List ℕ → Call
  sets_context : Option (List ℕ) → Call

-- What an agent does with a UDP packet: `addr_2_sockfd`, and `put_mailbox` where it finds a descriptor.
abbrev pub delivery : Option ℕ → List Action
delivery none = guarded port_table []
delivery (some fd) = guarded port_table [] ++ guarded mailbox_table (guarded (mailbox fd) [])

abbrev pub deliveries : List (Option ℕ) → List Action
deliveries [] = []
deliveries (p ∷ ps) = delivery p ++ deliveries ps

-- `<TxAgent as Drop>::drop` of some
abbrev pub agent_drops : List ℕ → List Action
agent_drops [] = []
agent_drops (a ∷ rest) = guarded (tx_tasks a) [] ++ agent_drops rest

-- `EthDev::start` and `EthDev::stop`
abbrev pub dev_locks : Agents → List Action
dev_locks d =
    times d.tx_queues (guarded (tx_tasks d.tx) [])
    ++ times d.rx_queues (guarded (rx_tasks d.rx) [])
    ++ agent_drops d.gone

abbrev pub devs_locks : List Agents → List Action
devs_locks [] = []
devs_locks (d ∷ ds) = dev_locks d ++ devs_locks ds

-- `device_close`
abbrev pub close_locks : List ℕ → List Action
close_locks gone = guarded inet_device (agent_drops gone)

abbrev pub locks_of : Call → List Action
locks_of binds_fd = guarded sock_table (guarded port_table [])
locks_of no_fd_left = guarded sock_table []
locks_of frees_fd = guarded sock_table (guarded port_table [])
locks_of addresses = guarded port_table []
locks_of allocs_mailbox = guarded mailbox_table []
locks_of deallocs_mailbox = guarded mailbox_table []
locks_of finds_dev = guarded inet_device []
locks_of looks_pool_up = guarded mempools []
locks_of creates_pool = guarded mempools []
locks_of (puts_mailbox fd) = guarded mailbox_table (guarded (mailbox fd) [])
locks_of (receives fd) = guarded (mailbox fd) []
locks_of (rx_registers d) = guarded (rx_tasks d) []
locks_of (tx_registers d) = guarded (tx_tasks d) []
locks_of (polls_round d ps) = guarded (rx_tasks d) (deliveries ps)
locks_of (probes n) = guarded inet_device (times n (guarded mempools []))
locks_of (tx_drops d) = guarded (tx_tasks d) []
locks_of (starts d) = guarded inet_device (dev_locks d)
locks_of (stops d) = guarded inet_device (dev_locks d)
locks_of (starts_all ds) = guarded inet_device (devs_locks ds)
locks_of (stops_all ds) = guarded inet_device (devs_locks ds)
locks_of (closes gone) = close_locks gone
locks_of reads_context = guarded context []
locks_of (sets_context none) = guarded context []
locks_of (sets_context (some gone)) = guarded context (close_locks gone)

abbrev pub program : List Call → List Action
program [] = []
program (c ∷ cs) = locks_of c ++ program cs

-- A thread: the locks that it holds, the last one first, and what it still does.
pub record Holder : Type 0 where
  pub held : List Lock
  pub todo : List Action

-- A thread holds a lock; one of the threads holds it.
abbrev pub contains : Lock → List Lock → Bool
contains l [] = false
contains l (k ∷ ks) = (l.0 == k.0 && l.1 == k.1) || contains l ks

abbrev pub is_held : Lock → List Holder → Bool
is_held l [] = false
is_held l (t ∷ ts) = contains l t.held || is_held l ts

abbrev pub dropped : List Lock → List Lock
dropped [] = []
dropped (l ∷ ls) = ls

-- A thread takes a lock that nobody holds, or gives back the one that it took last.
pub data Move : List Holder → List Holder → Type 0 where
  takes :
      (front back : List Holder) (held : List Lock) (l : Lock) (rest : List Action)
      → is_held l (front ++ record { held = held; todo = acquires l ∷ rest } ∷ back) ≡ false
      → Move
          (front ++ record { held = held; todo = acquires l ∷ rest } ∷ back)
          (front ++ record { held = l ∷ held; todo = rest } ∷ back)
  gives :
      (front back : List Holder) (held : List Lock) (rest : List Action)
      → Move
          (front ++ record { held = held; todo = releases ∷ rest } ∷ back)
          (front ++ record { held = dropped held; todo = rest } ∷ back)

-- What threads reach that run these calls.
pub data Moves (ts : List Holder) : List Holder → Type 0 where
  still : Moves ts ts
  then_move : {us vs : List Holder} → Moves ts us → Move us vs → Moves ts vs

-- The threads at their starts.
abbrev pub at_start : List (List Call) → List Holder
at_start [] = []
at_start (cs ∷ css) = record { held = []; todo = program cs } ∷ at_start css
