-- ===== src/Agent/TxBuffer.antt =====
-- src/agent.rs: `TxBuffer`, the packets of one queue that wait to be sent. A pointer to an mbuf is a
-- number, and `none` is null. The NIC, the fragmentation of DPDK and the split of a `VecDeque` into
-- its two slices are parameters.
pub mod Order
pub mod Capacity
pub mod Task
pub mod Header
use Prim.Native.Nat.{bit_and}
use async_dpdk.Base.{
  ℕ, zero, suc, ◌+◌, ◌-◌, ◌/◌, ◌%◌, ◌≤◌, ◌<◌, ◌≡◌, Bool, true, false, ◌&&◌, not, Option, none, some,
  List, [], ◌∷◌, ◌++◌, length, take, drop, replicate, ltb, leb, ◌==◌, if◌then◌else◌, add_u16,
  u16_size, add_usize, sub_usize, ℤ, pos, negsuc,
}
use async_dpdk.Errno.{
  Error, no_buf, out_of_range, Result, ok, err, panicked, ◌>>=◌, ◌>>◌, fail_if, try_u16, Libc,
  from_ret,
}
use async_dpdk.Proto.{Ptypes, ether_hdr_len}

abbrev pub Ptr : Type 0
Ptr = Option ℕ

-- `TX_BUF_SIZE`
abbrev pub tx_buf_size : ℕ
tx_buf_size = 1024

-- What `buffer` reads of an mbuf.
pub record TxMbuf : Type 0 where
  pub ptr : ℕ
  pub pkt_len : ℕ
  pub packet_type : ℕ

-- The calls of DPDK. `adj` is `rte_pktmbuf_adj`, the packet without so many bytes at its front, or null where its
-- first segment is shorter. `fragment4` and `fragment6` are `rte_ipv4_fragment_packet` and
-- `rte_ipv6_fragment_packet`: given a packet and the room of the array, they return a negative error or
-- the number of fragments, with the pointers written to the front of the array. `tx_burst` is
-- `rte_eth_tx_burst`: given the port, the queue, the packets and their number it takes as many from
-- the front as it returns.
pub record TxLib : Type 0 where
  pub mtu : ℕ
  pub ptypes : Ptypes
  pub libc : Libc
  pub adj : TxMbuf → ℕ → Option TxMbuf
  pub fragment4 : TxMbuf → ℕ → ℤ × List ℕ
  pub fragment6 : TxMbuf → ℕ → ℤ × List ℕ
  pub tx_burst : ℕ → ℕ → List Ptr → ℕ → ℕ

-- What DPDK documents of them.
pub record Documented (lib : TxLib) : Type 0 where
  pub burst_le : (port queue : ℕ) (ps : List Ptr) (n : ℕ) → lib.tx_burst port queue ps n ≤ n

-- `TxBuffer`
pub record TxBuffer : Type 0 where
  pub port_id : ℕ
  pub queue_id : ℕ
  pub mbufs : List Ptr

-- `TxBuffer::new`
abbrev pub new_buffer : ℕ → ℕ → TxBuffer
new_buffer port queue = record { port_id = port; queue_id = queue; mbufs = [] }

-- Pointers in an array of `room` entries that begins with `ps` and is null behind.
abbrev pub array_of : ℕ → List ℕ → List Ptr
array_of room [] = replicate room none
array_of zero (p ∷ ps) = []
array_of (suc room) (p ∷ ps) = some p ∷ array_of room ps

-- A C result as the number of entries that it stands for, `errno as usize` of one that is not negative.
abbrev pub count_of : ℤ → ℕ
count_of (pos n) = n
count_of (negsuc n) = 0

module _ (lib : TxLib) where
  -- The number of fragments that `do_fragment` makes room for.
  abbrev pub exp_nb_frags : TxMbuf → ℕ
  exp_nb_frags m = add_usize (m.pkt_len / lib.mtu) 1

  -- The packet behind its Ethernet header; a null of `rte_pktmbuf_adj` is ignored.
  abbrev pub without_hdr : TxMbuf → TxMbuf
  without_hdr m = elim (lib.adj m ether_hdr_len) [ none ↦ m | some m' ↦ m' ]

  -- The choice of the fragmentation by the L3 type; any other type is the result -1.
  unfoldable pub fragment : TxMbuf → ℕ → Result (ℤ × List ℕ)
  fragment m room =
      let l3_type = bit_and m.packet_type lib.ptypes.l3_mask in
      if l3_type == lib.ptypes.l3_ipv4
      then (try_u16 room >>= λ n. ok (lib.fragment4 m n))
      else (if l3_type == lib.ptypes.l3_ipv6
          then (try_u16 room >>= λ n. ok (lib.fragment6 m n))
          else ok (negsuc 0, []))

  -- `frags.get(..nb_frags)`, and the pushes behind it.
  abbrev pub push_frags : ℕ → ℕ → List ℕ → TxBuffer → Result TxBuffer
  push_frags room n ps b = do
    fail_if (ltb room n) out_of_range
    ok (record b { mbufs = b.mbufs ++ array_of room ps })

  -- `TxBuffer::do_fragment`. What its call of `populate_ether_hdr` writes into the fragments' memory is in Header;
  -- the queue has their pointers only.
  unfoldable pub do_fragment : TxMbuf → TxBuffer → Result TxBuffer
  do_fragment m b = do
    let room = exp_nb_frags m
    fail_if (ltb (sub_usize tx_buf_size (length b.mbufs)) (add_usize room 1)) no_buf
    (ret, ps) ← fragment (without_hdr m) room
    from_ret lib.libc ret
    push_frags room (count_of ret) ps b

  -- The first half of `TxBuffer::buffer`: the packet, or its fragments, at the end of the queue.
  unfoldable pub enqueue : TxMbuf → TxBuffer → Result TxBuffer
  enqueue m b =
      if ltb m.pkt_len lib.mtu
      then (fail_if (ltb tx_buf_size (length b.mbufs)) no_buf
          >> ok (record b { mbufs = b.mbufs ++ some m.ptr ∷ [] }))
      else do_fragment m b

  -- `rte_eth_tx_burst` on a slice, the length being cut to a `u16`; nothing is sent of an empty one.
  unfoldable pub burst : TxBuffer → List Ptr → ℕ
  burst b [] = 0
  burst b (p ∷ ps) = lib.tx_burst b.port_id b.queue_id (p ∷ ps) (length (p ∷ ps) % u16_size)

  -- The numbers sent of the two slices: the second is tried if all of a first that is not empty is sent.
  unfoldable pub bursts : TxBuffer → List Ptr → List Ptr → ℕ × ℕ
  bursts b msg1 msg2 =
      let sent1 = burst b msg1 in
      (sent1, if leb 1 (length msg1) && sent1 == length msg1 then burst b msg2 else 0)

  -- The second half of `buffer`, with the place at which the queue's storage is split: the packets that
  -- the NIC took, and the queue without as many packets at its front.
  unfoldable pub transmit : ℕ → TxBuffer → List Ptr × TxBuffer
  transmit cut b =
      let msg1 = take cut b.mbufs in
      let msg2 = drop cut b.mbufs in
      let (sent1, sent2) = bursts b msg1 msg2 in
      (take sent1 msg1 ++ take sent2 msg2, record b { mbufs = drop (add_u16 sent1 sent2) b.mbufs })

  -- `TxBuffer::buffer`
  unfoldable pub buffer : ℕ → TxMbuf → TxBuffer → Result (List Ptr × TxBuffer)
  buffer cut m b = do b' ← enqueue m b; ok (transmit cut b')
