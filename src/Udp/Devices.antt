-- ===== src/Udp/Devices.antt =====
-- src/proto/udp.rs with src/net_dev.rs: a socket bound to the address of a device of the table.
use async_dpdk.Base.{ℕ, suc, ◌<◌, ◌≡◌, refl, true, false, ◌||◌, some, List, ◌∷◌, length}
use async_dpdk.Errno.{Result, ok, from_ret}
use async_dpdk.Addr.{IpAddr, v4, SocketAddr, ip_eq, is_unspecified, is_loopback}
use async_dpdk.Socket.{Tables, bind_fd}
use async_dpdk.Agent.Registry.{Queue}
use async_dpdk.EthDev.{Nic, EthDev}
use async_dpdk.NetDev.{InetDevice, InetDevices, device_start, find_dev_by_ip}
use async_dpdk.NetDev.Lookup.{unused, around, device_start-find}
use async_dpdk.Udp.{World, bind}
use async_dpdk.Udp.Binding.{with_box, bind_v4}

-- `net_dev::find_dev_by_ip` on the table of devices, as `UdpSocket::bind` calls it.
abbrev pub devices_of : Nic → InetDevices → IpAddr → Result (Queue × ℕ)
devices_of nic t a = find_dev_by_ip nic a t

module _ (nic : Nic) {Packet : Type 0} where
  open nic use {libc}

  -- Let an IPv4 address be neither unspecified nor a loopback address, `dev` the first device of the
  -- table that has it, with at least one send queue and a channel for each of them, let DPDK start its
  -- port, set its packet types and give its Ethernet address, and let the locks of the devices and of
  -- the mailboxes not be poisoned. Then `device_start` of the address succeeds, and after it a `bind`
  -- to the address, whose first `bind_fd` succeeds, returns a socket that sends to queue 0 of the
  -- device, from the device's Ethernet address, and an empty mailbox is in the table under its
  -- descriptor.
  pub bind-device_start :
      (a b c d port : ℕ) (before behind : List InetDevice) (dev : InetDevice)
      → (is_unspecified (v4 a b c d) || is_loopback (v4 a b c d)) ≡ false
      → unused (v4 a b c d) before ≡ true
      → ip_eq dev.ip (v4 a b c d) ≡ true
      → length dev.ethdev.tx_chan ≡ dev.ethdev.tx_queues
      → 0 < dev.ethdev.tx_queues
      → from_ret libc (nic.dev_start dev.ethdev.port_id) ≡ ok tt
      → from_ret libc (nic.set_ptypes dev.ethdev.port_id) ≡ ok tt
      → from_ret libc (nic.macaddr_get dev.ethdev.port_id) ≡ ok tt
      → (more : List SocketAddr) (fuel fd p : ℕ) (w : World (Queue × ℕ) Packet) (t : Tables)
      → w.mailboxes.is_poisoned ≡ false
      → bind_fd (record { ip = v4 a b c d; port = port }) w.tables ≡ (ok (fd, p), t)
      → let addr : SocketAddr = record { ip = v4 a b c d; port = port } in
        (up : EthDev) × (table : InetDevices) × (table
          ≡ around before (record dev { ethdev = up; running = true }) behind)
        × (device_start nic (v4 a b c d) (around before dev behind) ≡ (ok tt, table))
        × (bind (devices_of nic table) (ok (addr ∷ more)) (suc fuel) w
            ≡ some (
              ok (record {
                sockfd = fd;
                ip = v4 a b c d;
                port = p;
                device = ((dev.ethdev.port_id, 0), nic.mac dev.ethdev.port_id);
              }),
              record {
                tables = t;
                mailboxes = with_box (devices_of nic table) addr fd w.mailboxes;
              },
            ))
  bind-device_start a b c d port before behind dev s h e l pos_q g g' m more fuel fd p w t u bound =
      let addr : SocketAddr = record { ip = v4 a b c d; port = port } in
      let (up, _, st, found, _, _) =
        device_start-find nic (v4 a b c d) before behind dev s h e l pos_q g g' m in
      let table = around before (record dev { ethdev = up; running = true }) behind in
      (
        up,
        table,
        refl,
        st,
        bind_v4 (devices_of nic table) addr more fuel fd p a b c d w t
            ((dev.ethdev.port_id, 0), nic.mac dev.ethdev.port_id) refl u found bound,
      )
