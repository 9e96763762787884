-- ===== src/NetDev/Stopping.antt =====
-- src/net_dev.rs and src/eth_dev.rs: a device that DPDK does not stop.
use async_dpdk.Base.{
  ℕ, ◌<◌, ◌≡◌, refl, sym, ap, if◌then◌else◌, ◌∙◌, true, false, ◌||◌, List, length, none,
}
use async_dpdk.Errno.{Error, no_dev, broken_pipe, Result, ok, err, from_ret}
use async_dpdk.Addr.{IpAddr, ip_eq, is_unspecified, is_loopback}
use async_dpdk.EthDev.{Nic, EthDev, start, stop, sender}
use async_dpdk.EthDev.Lifecycle.{started, start_lem, sender-started, stop_lem}
use async_dpdk.NetDev.{InetDevice, InetDevices, after, sender_of, device_stop, find_dev_by_ip}
use async_dpdk.NetDev.Lookup.{unused, around, first_with-found, find_in-found, sender_of_lem}

module _ (nic : Nic) where
  open nic use {libc}

  -- A device without its agents.
  abbrev bare : EthDev → EthDev
  bare d = record d { tx_agent = none; rx_agent = none }

  device_stop-around :
      (a : IpAddr) (before behind : List InetDevice) (dev : InetDevice)
      → unused a before ≡ true
      → ip_eq dev.ip a ≡ true
      → device_stop nic a (around before dev behind)
        ≡ ((stop nic dev.ethdev).0, around before (after false dev (stop nic dev.ethdev)) behind)
  device_stop-around a before behind dev h e =
      ap (λ p. (p.0, record { devs = p.1; is_poisoned = false }))
        (first_with-found false (stop nic) a before behind dev h e)

  stop-bare : (d : EthDev) → stop nic (bare d) ≡ (err broken_pipe, bare d)
  unfolding stop
  stop-bare d = refl

  sender-bare : (q : ℕ) (d : EthDev) → sender q (bare d) ≡ sender q d
  unfolding sender
  sender-bare q d = refl

  -- A device behind a `start` that DPDK accepted, with at least one send queue and a channel for
  -- each, with an address that no device before it has and that is neither unspecified nor
  -- loopback; DPDK gives its Ethernet address and refuses to stop it. `device_stop` of that
  -- address returns that error, and from then on the device cannot be stopped: each further
  -- `device_stop` fails with `BrokenPipe` and changes nothing, while a lookup by the address
  -- still gives a sender, although the device has no agent any more that sends.
  pub device_stop_refused :
      (a : IpAddr) (before behind : List InetDevice) (dev : InetDevice) (d : EthDev) (e : Error)
      → (is_unspecified a || is_loopback a) ≡ false
      → unused a before ≡ true
      → ip_eq dev.ip a ≡ true
      → dev.running ≡ true
      → length d.tx_chan ≡ d.tx_queues
      → 0 < d.tx_queues
      → from_ret libc (nic.dev_start d.port_id) ≡ ok tt
      → from_ret libc (nic.set_ptypes d.port_id) ≡ ok tt
      → start nic d ≡ (ok tt, dev.ethdev)
      → from_ret libc (nic.dev_stop d.port_id) ≡ err e
      → from_ret libc (nic.macaddr_get d.port_id) ≡ ok tt
      → (t : InetDevices) × (device_stop nic a (around before dev behind) ≡ (err e, t))
        × (device_stop nic a t ≡ (err broken_pipe, t))
        × (find_dev_by_ip nic a t ≡ ok ((d.port_id, 0), nic.mac d.port_id))
        × ((dev' : InetDevice) × (t ≡ around before dev' behind) × (dev'.ethdev.tx_agent ≡ none))
  device_stop_refused a before behind dev d e s h i u l z g g' up n m =
      let st : dev.ethdev ≡ started nic d =
        ap (λ (x : Result (Unit {0}) × EthDev). x.1) (sym up ∙ start_lem nic d g g') in
      let down = bare (started nic d) in
      let dev' = record dev { ethdev = down } in
      let q : stop nic dev.ethdev ≡ (err e, down) =
        ap (stop nic) st ∙ stop_lem nic d l ∙ ap (λ r. (r, down)) n in
      (
        around before dev' behind,
        device_stop-around a before behind dev h i
            ∙ ap (λ p. (p.0, around before (after false dev p) behind)) q,
        device_stop-around a before behind dev' h i
            ∙ ap (λ p. (p.0, around before (after false dev' p) behind))
                (stop-bare (started nic d)),
        find_in-found nic a before behind dev' s h i
            ∙ ap (λ b. if b then sender_of nic down else err no_dev) u
            ∙ sender_of_lem nic down d.port_id refl
                (sender-bare 0 (started nic d) ∙ sender-started nic d l 0 z) m,
        (dev', refl, refl),
      )
