-- ===== src/Locks/Order.antt =====
-- src/proto/socket.rs, src/agent.rs, src/net_dev.rs, src/eal.rs and src/mempool.rs: each function takes locks of higher kinds only.
use async_dpdk.Base.{
  ℕ, zero, suc, ◌≤◌, ◌<◌, ◌≡◌, refl, sym, subst, Option, none, some, List, [], ◌∷◌, ◌++◌,
  append_assoc, All, arith,
}
use async_dpdk.Locks.{
  Lock, context, inet_device, mempools, tx_tasks, rx_tasks, sock_table, port_table, mailbox_table,
  mailbox, Action, acquires, releases, guarded, times, Call, binds_fd, frees_fd, addresses,
  allocs_mailbox, deallocs_mailbox, finds_dev, looks_pool_up, creates_pool, no_fd_left,
  reads_context, puts_mailbox, receives, rx_registers, tx_registers, tx_drops, polls_round, probes,
  Agents, starts, stops, starts_all, stops_all, closes, sets_context, delivery, deliveries,
  agent_drops, dev_locks, devs_locks, close_locks, locks_of, program, Holder, dropped, at_start,
}

-- With these locks held: each lock that is taken is of a higher kind than those held, and at the end none is held.
abbrev pub Ordered : List Lock → List Action → Type 0
Ordered held [] = held ≡ []
Ordered held (acquires l ∷ rest) = All (λ h. h.0 < l.0) held × (l.0 < 9) × Ordered (l ∷ held) rest
Ordered held (releases ∷ rest) = Ordered (dropped held) rest

abbrev pub InOrder : Holder → Type 0
InOrder t = Ordered t.held t.todo

-- What may stand in front of actions that are in order.
abbrev Keeps : List Lock → List Action → Type 0
Keeps held body = (rest : List Action) → Ordered held rest → Ordered held (body ++ rest)

Keeps-append :
    (held : List Lock) (a b : List Action) → Keeps held a → Keeps held b → Keeps held (a ++ b)
Keeps-append held a b p q rest o =
    subst (Ordered held) (sym (append_assoc a b rest)) (p (b ++ rest) (q rest o))

guarded-Keeps :
    (held : List Lock) (l : Lock) (body : List Action)
    → All (λ h. h.0 < l.0) held
    → l.0 < 9
    → Keeps (l ∷ held) body
    → Keeps held (guarded l body)
guarded-Keeps held l body a b k rest o = (
  a,
  b,
  subst (Ordered (l ∷ held)) (sym (append_assoc body (releases ∷ []) rest)) (k (releases ∷ rest) o),
)

nothing-Keeps : (held : List Lock) → Keeps held []
nothing-Keeps held rest o = o

times-Keeps :
    (held : List Lock) (n : ℕ) (body : List Action) → Keeps held body → Keeps held (times n body)
times-Keeps held zero body k = nothing-Keeps held
times-Keeps held (suc n) body k =
    Keeps-append held body (times n body) k (times-Keeps held n body k)

delivery-Keeps : (d : ℕ) (p : Option ℕ) → Keeps (rx_tasks d ∷ []) (delivery p)
delivery-Keeps d none =
    guarded-Keeps _ port_table [] (omega arith, tt) (omega arith) (nothing-Keeps _)
delivery-Keeps d (some fd) =
    Keeps-append _ (guarded port_table []) (guarded mailbox_table (guarded (mailbox fd) []))
      (guarded-Keeps _ port_table [] (omega arith, tt) (omega arith) (nothing-Keeps _))
      (guarded-Keeps _ mailbox_table (guarded (mailbox fd) []) (omega arith, tt) (omega arith)
        (guarded-Keeps _ (mailbox fd) [] (omega arith, (omega arith, tt)) (omega arith)
          (nothing-Keeps _)))

deliveries-Keeps : (d : ℕ) (ps : List (Option ℕ)) → Keeps (rx_tasks d ∷ []) (deliveries ps)
deliveries-Keeps d [] = nothing-Keeps _
deliveries-Keeps d (p ∷ ps) =
    Keeps-append _ (delivery p) (deliveries ps) (delivery-Keeps d p) (deliveries-Keeps d ps)

-- A single lock, alone or under another one.
alone-Keeps : (l : Lock) → l.0 < 9 → Keeps [] (guarded l [])
alone-Keeps l b = guarded-Keeps [] l [] tt b (nothing-Keeps _)

under-Keeps : (k l : Lock) → k.0 < l.0 → l.0 < 9 → Keeps (k ∷ []) (guarded l [])
under-Keeps k l a b = guarded-Keeps _ l [] (a, tt) b (nothing-Keeps _)

-- What is done with agents while only locks below theirs are held.
module _ (held : List Lock) (low : All (λ h. h.0 < 3) held) where
  low_below : (n : ℕ) → 3 ≤ n → (hs : List Lock) → All (λ h. h.0 < 3) hs → All (λ h. h.0 < n) hs
  low_below n k [] a = tt
  low_below n k (h ∷ hs) (a, rest) = (omega arith, low_below n k hs rest)

  leaf-Keeps : (l : Lock) → 3 ≤ l.0 → l.0 < 9 → Keeps held (guarded l [])
  leaf-Keeps l a b = guarded-Keeps held l [] (low_below l.0 a held low) b (nothing-Keeps _)

  agent_drops-Keeps : (gone : List ℕ) → Keeps held (agent_drops gone)
  agent_drops-Keeps [] = nothing-Keeps held
  agent_drops-Keeps (a ∷ gone) =
      Keeps-append held (guarded (tx_tasks a) []) (agent_drops gone)
        (leaf-Keeps (tx_tasks a) (omega arith) (omega arith)) (agent_drops-Keeps gone)

  dev_locks-Keeps : (d : Agents) → Keeps held (dev_locks d)
  dev_locks-Keeps d =
      let tx_part = times d.tx_queues (guarded (tx_tasks d.tx) []) in
      let rx_part = times d.rx_queues (guarded (rx_tasks d.rx) []) in
      Keeps-append held (tx_part ++ rx_part) (agent_drops d.gone)
        (Keeps-append held tx_part rx_part
          (times-Keeps held d.tx_queues (guarded (tx_tasks d.tx) [])
            (leaf-Keeps (tx_tasks d.tx) (omega arith) (omega arith)))
          (times-Keeps held d.rx_queues (guarded (rx_tasks d.rx) [])
            (leaf-Keeps (rx_tasks d.rx) (omega arith) (omega arith))))
        (agent_drops-Keeps d.gone)

  devs_locks-Keeps : (ds : List Agents) → Keeps held (devs_locks ds)
  devs_locks-Keeps [] = nothing-Keeps held
  devs_locks-Keeps (d ∷ ds) =
      Keeps-append held (dev_locks d) (devs_locks ds) (dev_locks-Keeps d) (devs_locks-Keeps ds)

abbrev inet_low : All (λ h. h.0 < 3) (inet_device ∷ [])
inet_low = (omega arith, tt)

under_inet-Keeps :
    (body : List Action) → Keeps (inet_device ∷ []) body → Keeps [] (guarded inet_device body)
under_inet-Keeps body k = guarded-Keeps [] inet_device body tt (omega arith) k

locks_of-Keeps : (c : Call) → Keeps [] (locks_of c)
locks_of-Keeps binds_fd =
    guarded-Keeps [] sock_table (guarded port_table []) tt (omega arith)
      (under-Keeps sock_table port_table (omega arith) (omega arith))
locks_of-Keeps no_fd_left = alone-Keeps sock_table (omega arith)
locks_of-Keeps frees_fd =
    guarded-Keeps [] sock_table (guarded port_table []) tt (omega arith)
      (under-Keeps sock_table port_table (omega arith) (omega arith))
locks_of-Keeps addresses = alone-Keeps port_table (omega arith)
locks_of-Keeps allocs_mailbox = alone-Keeps mailbox_table (omega arith)
locks_of-Keeps deallocs_mailbox = alone-Keeps mailbox_table (omega arith)
locks_of-Keeps finds_dev = alone-Keeps inet_device (omega arith)
locks_of-Keeps looks_pool_up = alone-Keeps mempools (omega arith)
locks_of-Keeps creates_pool = alone-Keeps mempools (omega arith)
locks_of-Keeps (puts_mailbox fd) =
    guarded-Keeps [] mailbox_table (guarded (mailbox fd) []) tt (omega arith)
      (under-Keeps mailbox_table (mailbox fd) (omega arith) (omega arith))
locks_of-Keeps (receives fd) = alone-Keeps (mailbox fd) (omega arith)
locks_of-Keeps (rx_registers d) = alone-Keeps (rx_tasks d) (omega arith)
locks_of-Keeps (tx_registers d) = alone-Keeps (tx_tasks d) (omega arith)
locks_of-Keeps (polls_round d ps) =
    guarded-Keeps [] (rx_tasks d) (deliveries ps) tt (omega arith) (deliveries-Keeps d ps)
locks_of-Keeps (probes n) =
    guarded-Keeps [] inet_device (times n (guarded mempools [])) tt (omega arith) (
      times-Keeps _ n (guarded mempools [])
        (under-Keeps inet_device mempools (omega arith) (omega arith)))
locks_of-Keeps (tx_drops d) = alone-Keeps (tx_tasks d) (omega arith)
locks_of-Keeps (starts d) = under_inet-Keeps (dev_locks d) (dev_locks-Keeps _ inet_low d)
locks_of-Keeps (stops d) = under_inet-Keeps (dev_locks d) (dev_locks-Keeps _ inet_low d)
locks_of-Keeps (starts_all ds) = under_inet-Keeps (devs_locks ds) (devs_locks-Keeps _ inet_low ds)
locks_of-Keeps (stops_all ds) = under_inet-Keeps (devs_locks ds) (devs_locks-Keeps _ inet_low ds)
locks_of-Keeps (closes gone) =
    under_inet-Keeps (agent_drops gone) (agent_drops-Keeps _ inet_low gone)
locks_of-Keeps reads_context = alone-Keeps context (omega arith)
locks_of-Keeps (sets_context none) = alone-Keeps context (omega arith)
locks_of-Keeps (sets_context (some gone)) =
    guarded-Keeps [] context (close_locks gone) tt (omega arith) (
      guarded-Keeps _ inet_device (agent_drops gone) (omega arith, tt) (omega arith)
        (agent_drops-Keeps _ (omega arith, (omega arith, tt)) gone))

pub program-Ordered : (cs : List Call) → Ordered [] (program cs)
program-Ordered [] = refl
program-Ordered (c ∷ cs) = locks_of-Keeps c (program cs) (program-Ordered cs)

pub at_start-InOrder : (css : List (List Call)) → All InOrder (at_start css)
at_start-InOrder [] = tt
at_start-InOrder (cs ∷ css) = (program-Ordered cs, at_start-InOrder css)
