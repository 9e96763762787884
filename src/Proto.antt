-- ===== src/Proto.antt =====
-- src/proto/mod.rs: the protocols and their codes. The codes are constants of `dpdk_sys`, so they are
-- a parameter, with what DPDK documents of them: a packet type is a sum of one code for each layer,
-- and the mask of a layer selects its code.
use Prim.Native.Nat.{bit_and, bit_or}
use async_dpdk.Base.{ℕ, ◌≡◌, ◌≢◌, arith, ◌==◌, if◌then◌else◌}

-- `L3Protocol`
pub data L3Protocol : Type 0 where
  unknown ipv4 ipv6 : L3Protocol

-- `L4Protocol`
pub data L4Protocol : Type 0 where
  unknown udp tcp : L4Protocol

-- `RTE_PTYPE_*`
pub record Ptypes : Type 0 where
  pub ptype_unknown : ℕ
  pub l2_ether : ℕ
  pub l3_ipv4 : ℕ
  pub l3_ipv6 : ℕ
  pub l3_mask : ℕ
  pub l4_udp : ℕ
  pub l4_tcp : ℕ
  pub l4_mask : ℕ

-- `IP_NEXT_PROTO_UDP`
abbrev pub ip_next_proto_udp : ℕ
ip_next_proto_udp = 0x11

-- `ETHER_HDR_LEN`
abbrev pub ether_hdr_len : ℕ
ether_hdr_len = 14

-- `<L3Protocol as Protocol>::length`
abbrev pub l3_length : L3Protocol → ℕ
l3_length L3Protocol.ipv4 = 20
l3_length L3Protocol.ipv6 = 40
l3_length L3Protocol.unknown = 0

-- `<L4Protocol as Protocol>::length`
abbrev pub l4_length : L4Protocol → ℕ
l4_length L4Protocol.udp = 8
l4_length L4Protocol.tcp = 20
l4_length L4Protocol.unknown = 0

module _ (c : Ptypes) where
  open c use {ptype_unknown, l2_ether, l3_ipv4, l3_ipv6, l3_mask, l4_udp, l4_tcp, l4_mask}

  -- The discriminants, `p as u32`.
  unfoldable pub l3_code : L3Protocol → ℕ
  l3_code L3Protocol.unknown = ptype_unknown
  l3_code L3Protocol.ipv4 = l3_ipv4
  l3_code L3Protocol.ipv6 = l3_ipv6

  unfoldable pub l4_code : L4Protocol → ℕ
  l4_code L4Protocol.unknown = ptype_unknown
  l4_code L4Protocol.udp = l4_udp
  l4_code L4Protocol.tcp = l4_tcp

  -- `impl From<u32> for L3Protocol`
  unfoldable pub l3_from : ℕ → L3Protocol
  l3_from n =
      if n == l3_ipv4
      then L3Protocol.ipv4
      else (if n == l3_ipv6 then L3Protocol.ipv6 else L3Protocol.unknown)

  -- `impl From<u32> for L4Protocol`
  unfoldable pub l4_from : ℕ → L4Protocol
  l4_from n =
      if n == l4_udp
      then L4Protocol.udp
      else (if n == l4_tcp then L4Protocol.tcp else L4Protocol.unknown)

  -- The packet type of `Packet::into_mbuf`.
  unfoldable pub packet_type : L3Protocol → L4Protocol → ℕ
  packet_type p q = bit_or (bit_or l2_ether (l3_code p)) (l4_code q)

  -- What `Packet::from_mbuf` reads from a packet type.
  unfoldable pub protocols : ℕ → L3Protocol × L4Protocol
  protocols t = (l3_from (bit_and t l3_mask), l4_from (bit_and t l4_mask))

  -- The layers of a packet type do not overlap, and the codes of a layer differ.
  pub record Layered : Type 0 where
    pub l3_masked :
        (p : L3Protocol) (q : L4Protocol) → bit_and (packet_type p q) l3_mask ≡ l3_code p
    pub l4_masked :
        (p : L3Protocol) (q : L4Protocol) → bit_and (packet_type p q) l4_mask ≡ l4_code q
    pub ipv4_known : l3_ipv4 ≢ ptype_unknown
    pub ipv6_known : l3_ipv6 ≢ ptype_unknown
    pub ipv4_ipv6 : l3_ipv4 ≢ l3_ipv6
    pub udp_known : l4_udp ≢ ptype_unknown
    pub tcp_known : l4_tcp ≢ ptype_unknown
    pub udp_tcp : l4_udp ≢ l4_tcp

  l3_from-l3_code : Layered → (p : L3Protocol) → l3_from (l3_code p) ≡ p
  unfolding l3_from l3_code
  l3_from-l3_code h L3Protocol.unknown = ground (arith, h.ipv4_known, h.ipv6_known)
  l3_from-l3_code h L3Protocol.ipv4 = ground arith
  l3_from-l3_code h L3Protocol.ipv6 = ground (arith, h.ipv4_ipv6)

  l4_from-l4_code : Layered → (q : L4Protocol) → l4_from (l4_code q) ≡ q
  unfolding l4_from l4_code
  l4_from-l4_code h L4Protocol.unknown = ground (arith, h.udp_known, h.tcp_known)
  l4_from-l4_code h L4Protocol.udp = ground arith
  l4_from-l4_code h L4Protocol.tcp = ground (arith, h.udp_tcp)

  -- The protocols that a sender writes into an mbuf's packet type are those that a receiver reads.
  pub protocols-packet_type :
      Layered → (p : L3Protocol) (q : L4Protocol) → protocols (packet_type p q) ≡ (p, q)
  unfolding protocols
  protocols-packet_type h p q =
      rw (h.l3_masked p q, h.l4_masked p q, l3_from-l3_code h p, l4_from-l4_code h q)
