-- ===== src/Tests/Devices.antt =====
-- Tests of src/eth_dev.rs, src/net_dev.rs and src/eal.rs.
use Prim.Native.String.{String}
use async_dpdk.Base.{ℕ, ◌≡◌, refl, true, false, none, List, [], ◌∷◌, ℤ, pos, arith}
use async_dpdk.Errno.{no_dev, ok, err, from_ret}
use async_dpdk.Errno.Codes.{from_ret_total}
use async_dpdk.Addr.{IpAddr, v4}
use async_dpdk.EthDev.{Nic, EthDev}
use async_dpdk.NetDev.{InetDevice, device_start, device_stop, find_dev_by_ip}
use async_dpdk.NetDev.Lookup.{around, device_start-find}
use async_dpdk.Eal.{Config, World, new_config}
use async_dpdk.Tests.Values.{linux}

-- DPDK with two ports, where every call succeeds.
abbrev pub good_nic : Nic
good_nic = record {
  libc = linux;
  ports = 2;
  info_get = λ p. pos 0;
  configure = λ p r t. pos 0;
  adjust = λ p. pos 0;
  n_rxd = 1024;
  n_txd = 1024;
  socket_id = λ p. pos 0;
  pool_create = λ p q n. ok tt;
  rx_setup = λ p q. pos 0;
  tx_setup = λ p q. pos 0;
  dev_start = λ p. pos 0;
  set_ptypes = λ p. pos 0;
  dev_stop = λ p. pos 0;
  macaddr_get = λ p. pos 0;
  mac = λ p. 170;
}

abbrev pub idle : EthDev
idle = record {
  port_id = 1;
  tx_agent = none;
  rx_agent = none;
  tx_queues = 2;
  rx_queues = 2;
  tx_chan = none ∷ none ∷ [];
}

pub zero_ok : from_ret linux (pos 0) ≡ ok tt
zero_ok = (from_ret_total linux 0).0

abbrev pub here : IpAddr
here = v4 10 0 0 1

abbrev pub there : IpAddr
there = v4 10 0 0 2

abbrev pub other : InetDevice
other = record { ip = there; ethdev = record idle { port_id = 0 }; running = false }

abbrev pub ours : InetDevice
ours = record { ip = here; ethdev = idle; running = false }

device_start-find_example :
    (up : EthDev) × (down : _) × (device_start good_nic here (around (other ∷ []) ours [])
      ≡ (ok tt, around (other ∷ []) (record ours { ethdev = up; running = true }) []))
    × (find_dev_by_ip good_nic here
          (around (other ∷ []) (record ours { ethdev = up; running = true }) [])
        ≡ ok ((1, 0), 170))
    × (device_stop good_nic here
          (around (other ∷ []) (record ours { ethdev = up; running = true }) [])
        ≡ (from_ret linux (pos 0), down))
    × (from_ret linux (pos 0) ≡ ok tt → find_dev_by_ip good_nic here down ≡ err no_dev)
device_start-find_example =
    device_start-find good_nic here (other ∷ []) [] ours refl refl refl refl (omega arith) zero_ok
      zero_ok zero_ok

abbrev world : World
world = record {
  context = false;
  is_poisoned = false;
  inet = record { devs = []; is_poisoned = false };
}

abbrev config : Config
config = new_config "server"

abbrev limits : ℕ → ℕ × ℕ
limits p = (4, 4)

abbrev eal_init : List String → ℤ
eal_init args = pos 1
