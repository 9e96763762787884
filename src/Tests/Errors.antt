-- ===== src/Tests/Errors.antt =====
-- Tests of src/errno.rs and src/proto/mod.rs.
use Prim.Native.Nat.{bit_and}
use async_dpdk.Base.{◌≡◌, refl, pos, negsuc, saturating_neg, arith}
use async_dpdk.Errno.{no_entry, no_buf, err, code, from_ret}
use async_dpdk.Errno.Codes.{from_ret-code}
use async_dpdk.Proto.{Layered, L3Protocol, L4Protocol, l3_code, l4_code, packet_type}
use async_dpdk.Tests.Values.{linux, linux_number, dpdk_ptypes}

from_ret-code_example : from_ret linux (saturating_neg (pos (code linux no_buf))) ≡ err no_buf
from_ret-code_example = from_ret-code linux no_buf

-- The number 2, negated, is read as `NoEntry`.
pub from_ret_two : from_ret linux (negsuc 1) ≡ err no_entry
unfolding from_ret linux_number
from_ret_two = refl

dpdk_l3_masked :
    (p : L3Protocol) (q : L4Protocol)
    → bit_and (packet_type dpdk_ptypes p q) 240 ≡ l3_code dpdk_ptypes p
unfolding packet_type l3_code l4_code
dpdk_l3_masked L3Protocol.unknown L4Protocol.unknown = refl
dpdk_l3_masked L3Protocol.unknown L4Protocol.udp = refl
dpdk_l3_masked L3Protocol.unknown L4Protocol.tcp = refl
dpdk_l3_masked L3Protocol.ipv4 L4Protocol.unknown = refl
dpdk_l3_masked L3Protocol.ipv4 L4Protocol.udp = refl
dpdk_l3_masked L3Protocol.ipv4 L4Protocol.tcp = refl
dpdk_l3_masked L3Protocol.ipv6 L4Protocol.unknown = refl
dpdk_l3_masked L3Protocol.ipv6 L4Protocol.udp = refl
dpdk_l3_masked L3Protocol.ipv6 L4Protocol.tcp = refl

dpdk_l4_masked :
    (p : L3Protocol) (q : L4Protocol)
    → bit_and (packet_type dpdk_ptypes p q) 3840 ≡ l4_code dpdk_ptypes q
unfolding packet_type l3_code l4_code
dpdk_l4_masked L3Protocol.unknown L4Protocol.unknown = refl
dpdk_l4_masked L3Protocol.unknown L4Protocol.udp = refl
dpdk_l4_masked L3Protocol.unknown L4Protocol.tcp = refl
dpdk_l4_masked L3Protocol.ipv4 L4Protocol.unknown = refl
dpdk_l4_masked L3Protocol.ipv4 L4Protocol.udp = refl
dpdk_l4_masked L3Protocol.ipv4 L4Protocol.tcp = refl
dpdk_l4_masked L3Protocol.ipv6 L4Protocol.unknown = refl
dpdk_l4_masked L3Protocol.ipv6 L4Protocol.udp = refl
dpdk_l4_masked L3Protocol.ipv6 L4Protocol.tcp = refl

pub dpdk_layered : Layered dpdk_ptypes
dpdk_layered = record {
  l3_masked = dpdk_l3_masked;
  l4_masked = dpdk_l4_masked;
  ipv4_known = omega arith;
  ipv6_known = omega arith;
  ipv4_ipv6 = omega arith;
  udp_known = omega arith;
  tcp_known = omega arith;
  udp_tcp = omega arith;
}
