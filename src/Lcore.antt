-- ===== src/Lcore.antt =====
-- src/lcore.rs: the role of a core. The numbers of DPDK's roles are the argument `RoleNumbers`, and what its calls
-- return is an argument of each function.
use async_dpdk.Base.{ltb, ◌-◌, ◌^◌, ℤ, pos, negsuc, ℕ, ◌==◌, if◌then◌else◌}
use async_dpdk.Errno.{Result, ok, panicked}

-- `Role`
pub data Role : Type 0 where
  eal user service off : Role

-- `rte_lcore_role_t`
pub record RoleNumbers : Type 0 where
  pub role_rte : ℕ
  pub role_service : ℕ
  pub role_non_eal : ℕ
  pub role_off : ℕ

-- `role`, on what `rte_eal_lcore_role` returns; any other number is `unreachable!`.
abbrev pub role : RoleNumbers → ℕ → Result Role
role c n =
    if n == c.role_rte
    then ok eal
    else (if n == c.role_service
        then ok service
        else (if n == c.role_non_eal
            then ok user
            else (if n == c.role_off then ok off else panicked)))

-- `socket_id`, the cast of a `u32` to an `i32`
abbrev pub socket_id : ℕ → ℤ
socket_id n = if ltb n (2 ^ 31) then pos n else negsuc (2 ^ 32 - 1 - n)
