-- ===== src/Tests/Cores.antt =====
-- Tests of src/lcore.rs.
use async_dpdk.Base.{◌≡◌, refl, negsuc}
use async_dpdk.Errno.{ok, panicked}
use async_dpdk.Lcore.{RoleNumbers, service, role, socket_id}

abbrev numbers : RoleNumbers
numbers = record { role_rte = 0; role_off = 1; role_service = 2; role_non_eal = 3 }

role_two : role numbers 2 ≡ ok service
role_two = refl

role_nine : role numbers 9 ≡ panicked
role_nine = refl

socket_any : socket_id 4294967295 ≡ negsuc 0
socket_any = refl
