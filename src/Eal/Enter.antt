-- ===== src/Eal/Enter.antt =====
-- src/eal.rs: what `Config::enter` leaves behind when it fails.
use Prim.Native.String.{String}
use async_dpdk.Base.{ℕ, ◌≡◌, true, false, List, length, ℤ, pos, ◌≤◌, arith}
use async_dpdk.Errno.{Error, already, invalid_arg, err}
use async_dpdk.EthDev.{Nic}
use async_dpdk.Eal.{Config, World, enter, set_max_queues}

module _ (nic : Nic) (limits : ℕ → ℕ × ℕ) (eal_init : List String → ℤ) (errno : Error) where
  -- An EAL that was not entered and that DPDK sets up, with a list of arguments short enough. With
  -- `max_queues(0)`, `enter` fails with `InvalidArg` but leaves the EAL entered: every later `enter`,
  -- of a correct configuration too, fails with `Already`.
  pub enter_stuck :
      (cfg cfg' : Config) (w : World) (n : ℕ)
      → w.is_poisoned ≡ false
      → w.context ≡ false
      → length cfg.args ≤ 2147483647
      → eal_init cfg.args ≡ pos n
      → (w' : World) × (enter nic limits eal_init errno (set_max_queues 0 cfg) w
          ≡ (err invalid_arg, w'))
        × (enter nic limits eal_init errno cfg' w' ≡ (err already, w'))
  unfolding enter
  enter_stuck cfg cfg' w n p c l e = (record w { context = true }, ground arith, ground arith)
