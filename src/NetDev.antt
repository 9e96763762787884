-- ===== src/NetDev.antt =====
-- src/net_dev.rs: the table of probed devices, `INET_DEVICE`, and the calls on it.
-- What DPDK returns is the argument `nic`; `limits` is what `rte_eth_dev_info_get` reports as the
-- greatest numbers of receive and send queues of a port.
pub mod Lookup
pub mod Stopping
use async_dpdk.Base.{
  ℕ, zero, suc, ◌+◌, ◌≡◌, Bool, true, false, Option, none, some, List, [], ◌∷◌, ◌++◌, length, min,
  ltb, ◌||◌, if◌then◌else◌,
}
use async_dpdk.Errno.{
  Error, already, invalid_arg, no_dev, not_start, poisoned, Result, ok, err, panicked, ◌>>=◌, ◌>>◌,
  ok_or, from_ret,
}
use async_dpdk.Addr.{IpAddr, ip_eq, is_unspecified, is_loopback}
use async_dpdk.Agent.Registry.{Queue}
use async_dpdk.EthDev.{Nic, EthDev, new_dev, start, stop, sender, mac_addr}

-- `InetDevice`
pub record InetDevice : Type 0 where
  pub ip : IpAddr
  pub ethdev : EthDev
  pub running : Bool

-- `INET_DEVICE`: the devices, and whether a panic has poisoned the lock.
pub record InetDevices : Type 0 where
  pub devs : List InetDevice
  pub is_poisoned : Bool

-- `Vec::dedup`: of neighbours that are equal, the first stays.
abbrev pub dedup_from : IpAddr → List IpAddr → List IpAddr
dedup_from a [] = []
dedup_from a (b ∷ bs) = if ip_eq b a then dedup_from a bs else (b ∷ dedup_from b bs)

abbrev pub dedup : List IpAddr → List IpAddr
dedup [] = []
dedup (a ∷ bs) = a ∷ dedup_from a bs

module _ (nic : Nic) (limits : ℕ → ℕ × ℕ) where
  open nic use {libc}

  -- The body of `device_probe`'s loop: the device of a port, not running.
  abbrev pub probe_one : ℕ → ℕ → IpAddr → Result InetDevice
  probe_one max_queues port a = do
    from_ret libc (nic.info_get port)
    d ← new_dev nic port (min (limits port).0 max_queues) (min (limits port).1 max_queues)
    ok (record { ip = a; ethdev = d; running = false })

  -- The loop: the devices before the one that fails stay in the table.
  unfoldable pub probe_all : ℕ → ℕ → List IpAddr → Result (Unit {0}) × List InetDevice
  probe_all max_queues port [] = (ok tt, [])
  probe_all max_queues port (a ∷ rest) =
      let (r, ds) = probe_all max_queues (suc port) rest in
      elim (probe_one max_queues port a) [
        | ok d ↦ (r, d ∷ ds)
        | err e ↦ (err e, [])
        | panicked ↦ (panicked, [])
      ]

  -- `device_probe`
  unfoldable pub device_probe : List IpAddr → ℕ → InetDevices → Result (Unit {0}) × InetDevices
  device_probe addrs max_queues t = if t.is_poisoned then (err poisoned, t) else elim t.devs [
    | _ ∷ _ ↦ (err already, t)
    | [] ↦
        let distinct = dedup addrs in
        if ltb nic.ports (length distinct) || ltb 65535 (length distinct)
        then (err invalid_arg, t)
        else (let (r, ds) = probe_all max_queues 0 distinct in (r, record t { devs = ds }))
  ]

-- What `start` or `stop` did to a device, and whether the device counts as running from then on.
abbrev pub Step : Type 0
Step = EthDev → Result (Unit {0}) × EthDev

abbrev pub after : Bool → InetDevice → Result (Unit {0}) × EthDev → InetDevice
after up dev (ok _, d) = record dev { ethdev = d; running = up }
after up dev (err e, d) = record dev { ethdev = d }
after up dev (panicked, d) = record dev { ethdev = d }

-- The loop over all devices, which ends with the first that fails.
unfoldable pub each : Bool → Step → List InetDevice → Result (Unit {0}) × List InetDevice
each up f [] = (ok tt, [])
each up f (dev ∷ ds) =
    let p = f dev.ethdev in
    let (r, ds') = each up f ds in
    elim p.0 [
      | ok _ ↦ (r, after up dev p ∷ ds')
      | err e ↦ (err e, after up dev p ∷ ds)
      | panicked ↦ (panicked, after up dev p ∷ ds)
    ]

-- The loop for one address: the first device that has it.
unfoldable pub first_with :
    Bool → Step → IpAddr → List InetDevice → Result (Unit {0}) × List InetDevice
first_with up f a [] = (err no_dev, [])
first_with up f a (dev ∷ ds) =
    let (r, ds') = first_with up f a ds in
    if ip_eq dev.ip a then (let p = f dev.ethdev in (p.0, after up dev p ∷ ds)) else (r, dev ∷ ds')

-- The lock around a change of the table.
abbrev pub locked :
    (List InetDevice → Result (Unit {0}) × List InetDevice)
    → InetDevices
    → Result (Unit {0}) × InetDevices
locked f t =
    if t.is_poisoned
    then (err poisoned, t)
    else (let (r, ds) = f t.devs in (r, record t { devs = ds }))

module _ (nic : Nic) where
  -- `device_start_all` and `device_stop_all`
  abbrev pub device_start_all : InetDevices → Result (Unit {0}) × InetDevices
  device_start_all = locked (each true (start nic))

  abbrev pub device_stop_all : InetDevices → Result (Unit {0}) × InetDevices
  device_stop_all = locked (each false (stop nic))

  -- `device_start` and `device_stop`
  abbrev pub device_start : IpAddr → InetDevices → Result (Unit {0}) × InetDevices
  device_start a = locked (first_with true (start nic) a)

  abbrev pub device_stop : IpAddr → InetDevices → Result (Unit {0}) × InetDevices
  device_stop a = locked (first_with false (stop nic) a)

  -- The sender and the Ethernet address of a device.
  abbrev pub sender_of : EthDev → Result (Queue × ℕ)
  sender_of d = do s ← ok_or (sender 0 d) not_start; m ← mac_addr nic d; ok (s, m)

  -- The loop of `find_dev_by_ip`.
  unfoldable pub find_in : IpAddr → List InetDevice → Result (Queue × ℕ)
  find_in a [] = err invalid_arg
  find_in a (dev ∷ ds) =
      let rest = find_in a ds in
      if ip_eq dev.ip a
      then (if dev.running then sender_of dev.ethdev else err no_dev)
      else (if is_unspecified a || is_loopback a
          then (if dev.running then sender_of dev.ethdev else rest)
          else rest)

  -- `find_dev_by_ip`
  abbrev pub find_dev_by_ip : IpAddr → InetDevices → Result (Queue × ℕ)
  find_dev_by_ip a t = if t.is_poisoned then err poisoned else find_in a t.devs

-- `device_close`
abbrev pub device_close : InetDevices → Result (Unit {0}) × InetDevices
device_close t = if t.is_poisoned then (err poisoned, t) else (ok tt, record t { devs = [] })
