-- ===== src/NetDev/Lookup.antt =====
-- src/net_dev.rs: which device a start, a stop or a lookup by address finds.
use async_dpdk.Base.{
  ℕ, ◌<◌, ◌≡◌, ap, ◌∙◌, Bool, true, false, ◌||◌, if◌then◌else◌, some, List, [], ◌∷◌, ◌++◌, length,
  arith,
}
use async_dpdk.Errno.{no_dev, ok, err, from_ret}
use async_dpdk.Addr.{IpAddr, ip_eq, is_unspecified, is_loopback}
use async_dpdk.EthDev.{Nic, EthDev, sender, mac_addr, start, stop}
use async_dpdk.EthDev.Lifecycle.{start-stop}
use async_dpdk.NetDev.{
  InetDevice, InetDevices, dedup, after, Step, first_with, device_start, device_stop, find_in,
  sender_of, find_dev_by_ip,
}

-- `dedup` keeps an address that comes again behind another one: the table that `device_probe` builds
-- for it has two devices with that address.
pub dedup_apart :
    (a b : IpAddr) → ip_eq b a ≡ false → ip_eq a b ≡ false → dedup (a ∷ b ∷ a ∷ []) ≡ a ∷ b ∷ a ∷ []
dedup_apart a b h h' = ground arith

-- None of the devices has the address.
abbrev pub unused : IpAddr → List InetDevice → Bool
unused a [] = true
unused a (dev ∷ ds) = if ip_eq dev.ip a then false else unused a ds

pub first_with-found :
    (up : Bool) (f : Step) (a : IpAddr) (before behind : List InetDevice) (dev : InetDevice)
    → unused a before ≡ true
    → ip_eq dev.ip a ≡ true
    → first_with up f a (before ++ dev ∷ behind)
      ≡ ((f dev.ethdev).0, before ++ after up dev (f dev.ethdev) ∷ behind)
unfolding first_with
first_with-found up f a [] behind dev h e = ground arith
first_with-found up f a (b ∷ bs) behind dev h e =
    ground (arith, first_with-found up f a bs behind dev)

pub find_in-found :
    (nic : Nic) (a : IpAddr) (before behind : List InetDevice) (dev : InetDevice)
    → (is_unspecified a || is_loopback a) ≡ false
    → unused a before ≡ true
    → ip_eq dev.ip a ≡ true
    → find_in nic a (before ++ dev ∷ behind)
      ≡ (if dev.running then sender_of nic dev.ethdev else err no_dev)
unfolding find_in
find_in-found nic a [] behind dev s h e = ground arith
find_in-found nic a (b ∷ bs) behind dev s h e = ground (arith, find_in-found nic a bs behind dev)

-- The table with one device in sight.
abbrev pub around : List InetDevice → InetDevice → List InetDevice → InetDevices
around before dev behind = record { devs = before ++ dev ∷ behind; is_poisoned = false }

module _ (nic : Nic) where
  open nic use {libc}

  pub sender_of_lem :
      (d : EthDev) (port : ℕ)
      → d.port_id ≡ port
      → sender 0 d ≡ some (port, 0)
      → from_ret libc (nic.macaddr_get port) ≡ ok tt
      → sender_of nic d ≡ ok ((port, 0), nic.mac port)
  unfolding mac_addr
  sender_of_lem d port pt sd m = ground arith

  -- Let an address be neither unspecified nor a loopback address, `dev` the first device of the table
  -- that has it, with at least one send queue and a channel for each of them, and let DPDK start its
  -- port, set its packet types and give its Ethernet address. Then `device_start` of the address
  -- starts `dev` and no other device; a lookup of the address then finds the device's queue 0 and its
  -- Ethernet address; and a `device_stop` returns what `rte_eth_dev_stop` says, and where that is no
  -- error, a lookup after it fails with `NoDev`. The lock of the table is not poisoned.
  pub device_start-find :
      (a : IpAddr) (before behind : List InetDevice) (dev : InetDevice)
      → (is_unspecified a || is_loopback a) ≡ false
      → unused a before ≡ true
      → ip_eq dev.ip a ≡ true
      → length dev.ethdev.tx_chan ≡ dev.ethdev.tx_queues
      → 0 < dev.ethdev.tx_queues
      → from_ret libc (nic.dev_start dev.ethdev.port_id) ≡ ok tt
      → from_ret libc (nic.set_ptypes dev.ethdev.port_id) ≡ ok tt
      → from_ret libc (nic.macaddr_get dev.ethdev.port_id) ≡ ok tt
      → (up : EthDev) × (down : InetDevices) × (device_start nic a (around before dev behind)
          ≡ (ok tt, around before (record dev { ethdev = up; running = true }) behind))
        × (find_dev_by_ip nic a (around before (record dev { ethdev = up; running = true }) behind)
            ≡ ok ((dev.ethdev.port_id, 0), nic.mac dev.ethdev.port_id))
        × (device_stop nic a (around before (record dev { ethdev = up; running = true }) behind)
            ≡ (from_ret libc (nic.dev_stop dev.ethdev.port_id), down))
        × (from_ret libc (nic.dev_stop dev.ethdev.port_id) ≡ ok tt
            → find_dev_by_ip nic a down ≡ err no_dev)
  device_start-find a before behind dev s h e l pos_q g g' m =
      let (u, d, pt, st, sd, sp, _, _) = start-stop nic dev.ethdev l g g' in
      let run = record dev { ethdev = u; running = true } in
      (
        u,
        around before (after false run (from_ret libc (nic.dev_stop dev.ethdev.port_id), d)) behind,
        ap (λ p. (p.0, record { devs = p.1; is_poisoned = false }))
              (first_with-found true (start nic) a before behind dev h e)
            ∙ ap (λ p. (p.0, around before (after true dev p) behind)) st,
        find_in-found nic a before behind run s h e
            ∙ sender_of_lem u dev.ethdev.port_id pt (sd 0 pos_q) m,
        ap (λ p. (p.0, record { devs = p.1; is_poisoned = false }))
              (first_with-found false (stop nic) a before behind run h e)
            ∙ ap (λ p. (p.0, around before (after false run p) behind)) sp,
        λ q.
            ap (λ r. find_dev_by_ip nic a (around before (after false run (r, d)) behind)) q
            ∙ find_in-found nic a before behind (after false run (ok tt, d)) s h e,
      )
