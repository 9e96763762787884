-- ===== src/Tests/Programs.antt =====
-- Tests of src/proto/udp.rs together with src/net_dev.rs.
use async_dpdk.Base.{ℕ, ◌≡◌, refl, true, false, some, List, [], ◌∷◌, arith}
use async_dpdk.Errno.{ok}
use async_dpdk.Agent.Registry.{Queue}
use async_dpdk.EthDev.{EthDev}
use async_dpdk.NetDev.{InetDevices, device_start}
use async_dpdk.NetDev.Lookup.{around}
use async_dpdk.Udp.{World, bind}
use async_dpdk.Udp.Binding.{with_box}
use async_dpdk.Udp.Devices.{devices_of, bind-device_start}
use async_dpdk.Tests.Sockets.{dns, fresh, opened, bind_dns}
use async_dpdk.Tests.Devices.{good_nic, zero_ok, here, other, ours}

-- Packets are lists of bytes.
abbrev closed_world : World (Queue × ℕ) (List ℕ)
closed_world = record { tables = fresh; mailboxes = record { is_poisoned = false; boxes = [] } }

bind-device_start_example :
    (up : EthDev) × (table : InetDevices) × (table
      ≡ around (other ∷ []) (record ours { ethdev = up; running = true }) [])
    × (device_start good_nic here (around (other ∷ []) ours []) ≡ (ok tt, table))
    × (bind (devices_of good_nic table) (ok (dns ∷ [])) 1 closed_world
        ≡ some (
          ok (record { sockfd = 0; ip = here; port = 53; device = ((1, 0), 170) }),
          record {
            tables = opened;
            mailboxes = with_box (devices_of good_nic table) dns 0 closed_world.mailboxes;
          },
        ))
bind-device_start_example =
    bind-device_start good_nic 10 0 0 1 53 (other ∷ []) [] ours refl refl refl refl (omega arith)
      zero_ok zero_ok zero_ok [] 0 0 53 closed_world opened refl bind_dns
