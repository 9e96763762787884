-- ===== src/EthDev.antt =====
-- src/eth_dev.rs: an Ethernet device, its agents and the channels to its queues. What DPDK returns for
-- a port is an argument. A queue is named by its number, and a sender by its port and queue; there
-- are fewer than 65536 queues, so their numbers are not cut.
pub mod Lifecycle
use async_dpdk.Base.{
  ℕ, zero, suc, ◌+◌, ◌*◌, ◌≤◌, ◌<◌, ◌≡◌, Bool, true, false, Option, none, some, List, [], ◌∷◌,
  length, get_elem?, replicate, min, max, ltb, if◌then◌else◌, ℤ, pos, negsuc,
}
use async_dpdk.Errno.{
  Error, broken_pipe, invalid_arg, Result, ok, err, panicked, ◌>>=◌, ◌>>◌, ok_or, fail_if, Libc,
  from_ret,
}
use async_dpdk.Agent.Registry.{
  Queue, RxAgent, rx_start, rx_stop, rx_register, rx_unregister, TxAgent, tx_start, tx_register,
  tx_unregister,
}

-- What the calls of DPDK return for a port: `rte_eth_dev_info_get`, `rte_eth_dev_configure`,
-- `rte_eth_dev_adjust_nb_rx_tx_desc` with the adjusted numbers, `rte_eth_dev_socket_id`,
-- `rte_eth_dev_start`, `rte_eth_dev_set_ptypes`, `rte_eth_dev_stop`, `rte_eth_macaddr_get`; for a queue,
-- the creation of its pool (of so many elements) and its setup.
pub record Nic : Type 0 where
  pub libc : Libc
  pub ports : ℕ
  pub info_get : ℕ → ℤ
  pub configure : ℕ → ℕ → ℕ → ℤ
  pub adjust : ℕ → ℤ
  pub n_rxd : ℕ
  pub n_txd : ℕ
  pub socket_id : ℕ → ℤ
  pub pool_create : ℕ → ℕ → ℕ → Result (Unit {0})
  pub rx_setup : ℕ → ℕ → ℤ
  pub tx_setup : ℕ → ℕ → ℤ
  pub dev_start : ℕ → ℤ
  pub set_ptypes : ℕ → ℤ
  pub dev_stop : ℕ → ℤ
  pub macaddr_get : ℕ → ℤ
  pub mac : ℕ → ℕ

-- `EthDev`
pub record EthDev : Type 0 where
  pub port_id : ℕ
  pub tx_agent : Option TxAgent
  pub rx_agent : Option RxAgent
  pub tx_queues : ℕ
  pub rx_queues : ℕ
  pub tx_chan : List (Option Queue)

-- The arithmetic of `u32` that stops at its greatest value.
abbrev pub u32_max : ℕ
u32_max = 4294967295

abbrev pub saturating_add : ℕ → ℕ → ℕ
saturating_add a b = min (a + b) u32_max

abbrev pub saturating_mul : ℕ → ℕ → ℕ
saturating_mul a b = min (a * b) u32_max

module _ (nic : Nic) where
  open nic use {libc, ports, pool_create, rx_setup, tx_setup}

  -- The number of elements of a receive pool.
  unfoldable pub n_elem : ℕ
  n_elem = max (saturating_mul ports (saturating_add (saturating_add nic.n_rxd nic.n_txd) 32)) 8192

  -- `EthTxQueue::init` for the queues from `q` on, `n` of them.
  abbrev pub init_tx : ℕ → ℕ → ℕ → Result (Unit {0})
  init_tx port q zero = ok tt
  init_tx port q (suc n) =
      pool_create port q 1024 >> from_ret libc (tx_setup port q) >> init_tx port (suc q) n

  -- `EthRxQueue::init`
  abbrev pub init_rx : ℕ → ℕ → ℕ → Result (Unit {0})
  init_rx port q zero = ok tt
  init_rx port q (suc n) =
      pool_create port q n_elem >> from_ret libc (rx_setup port q) >> init_rx port (suc q) n

  -- A socket id that is not negative.
  abbrev pub valid_socket : ℤ → Result (Unit {0})
  valid_socket (pos n) = ok tt
  valid_socket (negsuc n) = err invalid_arg

  -- `EthDev::new`
  unfoldable pub new_dev : ℕ → ℕ → ℕ → Result EthDev
  new_dev port n_rxq n_txq = do
    from_ret libc (nic.info_get port)
    from_ret libc (nic.configure port n_rxq n_txq)
    from_ret libc (nic.adjust port)
    valid_socket (nic.socket_id port)
    init_tx port 0 n_txq
    init_rx port 0 n_rxq
    ok (record {
      port_id = port;
      tx_agent = none;
      rx_agent = none;
      tx_queues = n_txq;
      rx_queues = n_rxq;
      tx_chan = replicate n_txq none;
    })

  -- The loop of `start` over the channels: what is registered before a failure stays in the list.
  unfoldable pub register_tx :
      ℕ → ℕ → List (Option Queue) → TxAgent → Result (Unit {0}) × List (Option Queue) × TxAgent
  register_tx port q [] a = (ok tt, [], a)
  register_tx port q (ch ∷ chs) a =
      let (r, a') = tx_register libc (port, q) a in
      let (r', chs', a'') = register_tx port (suc q) chs a' in
      elim r [
        | ok s ↦ (r', some s ∷ chs', a'')
        | err e ↦ (err e, ch ∷ chs, a')
        | panicked ↦ (panicked, ch ∷ chs, a')
      ]

  -- The loop of `start` over the receive queues.
  unfoldable pub register_rx : ℕ → ℕ → ℕ → RxAgent → Result (Unit {0}) × RxAgent
  register_rx port q zero a = (ok tt, a)
  register_rx port q (suc n) a =
      let (r, a') = rx_register (port, q) a in
      let rest = register_rx port (suc q) n a' in
      elim r [ ok _ ↦ rest | err e ↦ (err e, a') | panicked ↦ (panicked, a') ]

  -- `EthDev::start` behind the calls of DPDK.
  abbrev pub start_agents : EthDev → Result (Unit {0}) × EthDev
  start_agents d =
      let (r, chs, tx) = register_tx d.port_id 0 d.tx_chan tx_start in
      let (r', rx) = register_rx d.port_id 0 d.rx_queues rx_start in
      elim r [
        | ok _ ↦ elim r' [
          | ok _ ↦ (ok tt, record d { tx_chan = chs; tx_agent = some tx; rx_agent = some rx })
          | err e ↦ (err e, record d { tx_chan = chs })
          | panicked ↦ (panicked, record d { tx_chan = chs })
        ]
        | err e ↦ (err e, record d { tx_chan = chs })
        | panicked ↦ (panicked, record d { tx_chan = chs })
      ]

  -- `EthDev::start`
  unfoldable pub start : EthDev → Result (Unit {0}) × EthDev
  start d =
      elim (from_ret libc (nic.dev_start d.port_id) >> from_ret libc (nic.set_ptypes d.port_id)) [
        | ok _ ↦ start_agents d
        | err e ↦ (err e, d)
        | panicked ↦ (panicked, d)
      ]

  -- The loops of `stop`; the agents are dropped behind it, however it ends.
  unfoldable pub unregister_tx : ℕ → ℕ → ℕ → TxAgent → Result (Unit {0})
  unregister_tx port q zero a = ok tt
  unregister_tx port q (suc n) a =
      let (r, a') = tx_unregister (port, q) a in
      let rest = unregister_tx port (suc q) n a' in r >> rest

  unfoldable pub unregister_rx : ℕ → ℕ → ℕ → RxAgent → Result (Unit {0})
  unregister_rx port q zero a = ok tt
  unregister_rx port q (suc n) a =
      let (r, a') = rx_unregister (port, q) a in
      let rest = unregister_rx port (suc q) n a' in r >> rest

  -- `stop` with both agents taken out of the device.
  abbrev pub stop_agents : EthDev → RxAgent → TxAgent → Result (Unit {0})
  stop_agents d rx tx = do
    unregister_tx d.port_id 0 d.tx_queues tx
    unregister_rx d.port_id 0 d.rx_queues rx
    from_ret libc (nic.dev_stop d.port_id)

  -- `EthDev::stop`
  unfoldable pub stop : EthDev → Result (Unit {0}) × EthDev
  stop d = elim d.rx_agent [
    | none ↦ (err broken_pipe, d)
    | some rx ↦ elim d.tx_agent [
      | none ↦ (err broken_pipe, record d { rx_agent = none })
      | some tx ↦ (stop_agents d rx tx, record d { rx_agent = none; tx_agent = none })
    ]
  ]

  -- `EthDev::mac_addr`
  unfoldable pub mac_addr : EthDev → Result ℕ
  mac_addr d = from_ret libc (nic.macaddr_get d.port_id) >> ok (nic.mac d.port_id)

-- `EthDev::sender`
unfoldable pub sender : ℕ → EthDev → Option Queue
sender q d = elim (get_elem? d.tx_chan q) [
  | none ↦ none
  | some chan ↦ elim chan [ none ↦ none | some s ↦ if ltb q d.tx_queues then some s else none ]
]
