-- ===== src/Tests/Shutdown.antt =====
-- Tests of the end of devices and of the EAL, in src/net_dev.rs, src/eth_dev.rs and src/eal.rs.
use async_dpdk.Base.{
  ℕ, ◌≡◌, refl, false, true, none, List, [], ◌∷◌, ◌++◌, ◌==◌, if◌then◌else◌, ℤ, pos, negsuc, arith,
}
use async_dpdk.Errno.{busy, broken_pipe, ok, err, from_ret}
use async_dpdk.EthDev.{Nic}
use async_dpdk.EthDev.Lifecycle.{started, start_lem}
use async_dpdk.NetDev.{InetDevice, InetDevices, device_stop, find_dev_by_ip}
use async_dpdk.NetDev.Lookup.{around}
use async_dpdk.NetDev.Stopping.{device_stop_refused}
use async_dpdk.Eal.Shutdown.{
  Event, closes, cleans, dpdk, exits, parse_err, drop_eal, Closable, all_events, drop_eal_lem,
}
use async_dpdk.Tests.Values.{linux, linux_number}
use async_dpdk.Tests.Devices.{good_nic, idle, zero_ok, here, other, ours}

-- DPDK refuses to stop a port.
abbrev stubborn_nic : Nic
stubborn_nic = record good_nic { dev_stop = λ p. negsuc 15 }

abbrev running_device : InetDevice
running_device = record ours { ethdev = started stubborn_nic idle; running = true }

stop_busy : from_ret linux (negsuc 15) ≡ err busy
unfolding from_ret linux_number
stop_busy = refl

device_stop_refused_example :
    (t : InetDevices) × (device_stop stubborn_nic here (around (other ∷ []) running_device [])
      ≡ (err busy, t))
    × (device_stop stubborn_nic here t ≡ (err broken_pipe, t))
    × (find_dev_by_ip stubborn_nic here t ≡ ok ((1, 0), 170))
    × ((dev' : InetDevice) × (t ≡ around (other ∷ []) dev' []) × (dev'.ethdev.tx_agent ≡ none))
device_stop_refused_example =
    device_stop_refused stubborn_nic here (other ∷ []) [] running_device idle busy refl refl refl
      refl refl (omega arith) zero_ok zero_ok (start_lem stubborn_nic idle zero_ok zero_ok)
      stop_busy zero_ok

-- The port 1 cannot be closed.
abbrev close_code : ℕ → ℤ
close_code p = if p == 1 then negsuc 18 else pos 0

abbrev devices : InetDevices
devices = record { devs = other ∷ running_device ∷ []; is_poisoned = false }

-- `rte_exit` cleans the EAL up.
abbrev at_exit : ℤ → List Event
at_exit n = dpdk 1 ∷ []

drop_eal_lem_example :
    (Closable close_code at_exit devices.devs
      → drop_eal close_code at_exit (pos 0) devices ≡ (
        (parse_err close_code at_exit (pos 0)).0,
        (all_events close_code at_exit devices.devs ++ cleans ∷ [])
            ++ (parse_err close_code at_exit (pos 0)).1,
        record devices { devs = [] },
      ))
    × ((front behind : List InetDevice) (dev : InetDevice) (n : ℕ)
        → devices.devs ≡ front ++ dev ∷ behind
        → Closable close_code at_exit front
        → close_code dev.ethdev.port_id ≡ negsuc n
        → drop_eal close_code at_exit (pos 0) devices ≡ (
          exits (negsuc n),
          all_events close_code at_exit front ++ closes dev.ethdev.port_id ∷ at_exit (negsuc n),
          record devices { devs = [] },
        ))
drop_eal_lem_example = drop_eal_lem close_code at_exit (pos 0) devices refl
