-- ===== src/Eal/Shutdown.antt =====
-- src/eal.rs: the drop of `Eal`, with the drops of the devices of src/net_dev.rs and src/eth_dev.rs and
-- `parse_err` of src/errno.rs. `eth_close` is what `rte_eth_dev_close` returns for a port, and
-- `rte_exit` what DPDK does in `rte_exit` before the process ends: its own clean-up of the EAL, for one.
use async_dpdk.Base.{
  ℕ, ◌≡◌, refl, ap, ◌∙◌, false, none, some, List, [], ◌∷◌, ◌++◌, ℤ, pos, negsuc, arith,
}
use async_dpdk.Errno.{ok, err, panicked}
use async_dpdk.EthDev.{EthDev}
use async_dpdk.NetDev.{InetDevice, InetDevices, device_close}

-- What happens in the drops, in order: `rte_eth_dev_close` of a port, the drops of a device's two agents, and
-- the crate's own call of `rte_eal_cleanup`; what DPDK does by itself is a numbered event.
pub data Event : Type 0 where
  closes : ℕ → Event
  drops_tx : ℕ → Event
  drops_rx : ℕ → Event
  cleans : Event
  dpdk : ℕ → Event

-- How a drop ends: it returns, `rte_exit` ends the process with a number, or it panics.
pub data Ending : Type 0 where
  returns : Ending
  exits : ℤ → Ending
  panics : Ending

-- The drops of the agents that a device still has, behind its own drop, in the order of the fields.
abbrev pub drop_fields : EthDev → List Event
drop_fields d =
    elim d.tx_agent [ some a ↦ drops_tx d.port_id ∷ [] | none ↦ [] ]
    ++ elim d.rx_agent [ some a ↦ drops_rx d.port_id ∷ [] | none ↦ [] ]

module _ (eth_close : ℕ → ℤ) (rte_exit : ℤ → List Event) where
  -- `Error::parse_err`
  abbrev pub parse_err : ℤ → Ending × List Event
  parse_err (pos n) = (returns, [])
  parse_err (negsuc n) = (exits (negsuc n), rte_exit (negsuc n))

  -- `<EthDev as Drop>::drop`, and the drops of the fields.
  abbrev pub drop_dev : EthDev → Ending × List Event
  drop_dev d =
      let (r, es) = parse_err (eth_close d.port_id) in
      elim r [
        | returns ↦ (returns, closes d.port_id ∷ es ++ drop_fields d)
        | exits n ↦ (exits n, closes d.port_id ∷ es)
        | panics ↦ (panics, closes d.port_id ∷ es)
      ]

  -- `Vec::clear` on the devices
  unfoldable pub drop_devs : List InetDevice → Ending × List Event
  drop_devs [] = (returns, [])
  drop_devs (dev ∷ ds) =
      let (r, es) = drop_dev dev.ethdev in
      let (r', es') = drop_devs ds in
      elim r [ returns ↦ (r', es ++ es') | exits n ↦ (exits n, es) | panics ↦ (panics, es) ]

  -- `<Eal as Drop>::drop`: an error of `rte_eal_cleanup` is logged, and then ends the process.
  unfoldable pub drop_eal : ℤ → InetDevices → Ending × List Event × InetDevices
  drop_eal cleanup t =
      let (r, t') = device_close t in
      let (e, es) = drop_devs t.devs in
      elim r [
        | ok _ ↦ elim e [
          | returns ↦ ((parse_err cleanup).0, (es ++ cleans ∷ []) ++ (parse_err cleanup).1, t')
          | exits n ↦ (exits n, es, t')
          | panics ↦ (panics, es, t')
        ]
        | err _ ↦ (panics, [], t)
        | panicked ↦ (panics, [], t)
      ]

  -- DPDK closes the port of every device.
  abbrev pub Closable : List InetDevice → Type 0
  Closable [] = Unit {0}
  Closable (dev ∷ ds) = (k : ℕ) × (eth_close dev.ethdev.port_id ≡ pos k) × Closable ds

  -- The events of one device, and of some.
  abbrev pub dev_events : InetDevice → List Event
  dev_events dev = closes dev.ethdev.port_id ∷ drop_fields dev.ethdev

  abbrev pub all_events : List InetDevice → List Event
  all_events [] = []
  all_events (dev ∷ ds) = dev_events dev ++ all_events ds

  all_dropped : (ds : List InetDevice) → Closable ds → drop_devs ds ≡ (returns, all_events ds)
  unfolding drop_devs
  all_dropped [] c = refl
  all_dropped (d ∷ ds) (k, h, c) = ground (arith, all_dropped ds c)

  some_dropped :
      (front behind : List InetDevice) (dev : InetDevice) (n : ℕ)
      → Closable front
      → eth_close dev.ethdev.port_id ≡ negsuc n
      → drop_devs (front ++ dev ∷ behind)
        ≡ (exits (negsuc n), all_events front ++ closes dev.ethdev.port_id ∷ rte_exit (negsuc n))
  unfolding drop_devs
  some_dropped [] behind dev n c h = ground arith
  some_dropped (d ∷ ds) behind dev n (k, e, c) h = ground (arith, some_dropped ds behind dev n c h)

  -- `Eal`'s drop, on a lock that is not poisoned; `rte_exit` is whatever DPDK does in `rte_exit`
  -- before the process ends. When DPDK closes every port: each device's port is closed, in the order
  -- of the table, before the agents that the device still has are dropped; then the crate calls
  -- `rte_eal_cleanup`; where that returns a negative number, `rte_exit` of that number comes last and
  -- the process ends with it, else nothing follows; and the table is empty. When DPDK closes the ports
  -- of the devices before `dev` and refuses to close the port of `dev`: the ports up to it are closed,
  -- `rte_exit` of the number that DPDK returned comes last, and the process ends with it; the crate
  -- closes no port behind it, drops neither agent of `dev`, and does not itself call
  -- `rte_eal_cleanup`.
  pub drop_eal_lem :
      (cleanup : ℤ) (t : InetDevices)
      → t.is_poisoned ≡ false
      → (Closable t.devs
          → drop_eal cleanup t ≡ (
            (parse_err cleanup).0,
            (all_events t.devs ++ cleans ∷ []) ++ (parse_err cleanup).1,
            record t { devs = [] },
          ))
        × ((front behind : List InetDevice) (dev : InetDevice) (n : ℕ)
            → t.devs ≡ front ++ dev ∷ behind
            → Closable front
            → eth_close dev.ethdev.port_id ≡ negsuc n
            → drop_eal cleanup t ≡ (
              exits (negsuc n),
              all_events front ++ closes dev.ethdev.port_id ∷ rte_exit (negsuc n),
              record t { devs = [] },
            ))
  unfolding drop_eal
  drop_eal_lem cleanup t u = (
    λ c. ground (arith, all_dropped t.devs c),
    λ front behind dev n q c h.
        ground (arith, ap drop_devs q ∙ some_dropped front behind dev n c h),
  )
