-- ===== src/Tests/Packets.antt =====
-- Tests of src/packet.rs. An mbuf is one segment of at most 64 bytes, and a `BytesMut` a list cut to
-- 64 bytes.
use async_dpdk.Base.{
  ℕ, ◌+◌, ◌-◌, ◌≤◌, ◌≡◌, refl, ap, Option, none, some, List, [], ◌∷◌, ◌++◌, length, take, replicate,
  All, leb, if◌then◌else◌, length-take, length-append, length-replicate, take_of_length_le, arith,
}
use async_dpdk.Errno.{no_mem, ok, err}
use async_dpdk.Proto.{L3Protocol, L4Protocol, packet_type, l3_code, l4_code}
use async_dpdk.Packet.{Buffers, Documented, Packet, Outgoing, into_mbuf, from_mbuf, fill_all, fill}
use async_dpdk.Packet.RoundTrip.{bytes_of, into_mbuf-ok, from_mbuf-into_mbuf}
use async_dpdk.Tests.Values.{dpdk_ptypes}
use async_dpdk.Tests.Errors.{dpdk_layered}

abbrev pub Segment : Type 0
Segment = List ℕ

abbrev pub small_buffers : Buffers Segment (List ℕ)
small_buffers = record {
  segments = λ m. m ∷ [];
  tailroom = λ m. 64 - length m;
  append_bytes = λ xs m. if leb (length xs) (64 - length m) then some (m ++ xs) else none;
  chain = λ m n. err no_mem;
  content = take 64;
  advance_mut =
      λ n f. if leb (length (take 64 f) + n) 64 then some (take 64 f ++ replicate n 0) else none;
}

abbrev pub Empty : Segment → Type 0
Empty m = m ≡ []

append_room : (m xs : Segment) → 64 - length (m ++ xs) ≡ (64 - length m) - length xs
append_room m xs = omega (arith, length-append m xs)

same_segment :
    (xs m s : Segment)
    → ◌≡◌ {A = List Segment} (m ∷ []) (s ∷ [])
    → ◌≡◌ {A = List Segment} ((m ++ xs) ∷ []) ((s ++ xs) ∷ [])
same_segment xs m s e = cc

append_small :
    (xs m : Segment) → length xs ≤ 64 - length m → small_buffers.append_bytes xs m ≡ some (m ++ xs)
append_small xs m h = ground arith

grown_length :
    (cap n : ℕ) (f g : List ℕ)
    → ◌≡◌ {A = Option (List ℕ)}
        (if leb (length (take cap f) + n) cap then some (take cap f ++ replicate n 0) else none)
        (some g)
    → length (take cap g) ≡ length (take cap f) + n
grown_length cap n f g h = ground (
  arith,
  length-append (take cap f) (replicate n 0),
  length-replicate {A = ℕ} n 0,
  length-take cap g,
)

pub small_buffers-Documented : Documented small_buffers Empty 64
small_buffers-Documented = record {
  fresh_segments = λ m e. ap (λ s. s ∷ []) e;
  fresh_room = λ m e. ap (λ s. 64 - length s) e;
  append_fits =
      λ xs m s h e. (m ++ xs, append_small xs m h, same_segment xs m s e, append_room m xs);
  advance_length = λ n f g h. grown_length 64 n f g h;
  content_small = λ f. omega (arith, length-take 64 f);
}

-- A datagram of three bytes in two fragments.
abbrev datagram : Packet (List ℕ)
datagram = record {
  l3protocol = L3Protocol.ipv4;
  l4protocol = L4Protocol.udp;
  frags = (1 ∷ 2 ∷ []) ∷ (3 ∷ []) ∷ [];
}

abbrev pool : List Segment
pool = [] ∷ [] ∷ []

pool-fresh : All Empty pool
pool-fresh = (refl, (refl, tt))

abbrev sent : Outgoing Segment
sent = record { mbuf = 1 ∷ 2 ∷ 3 ∷ []; ptype = 529; l2_len = 14; l3_len = 20; l4_len = 8 }

datagram-sent : into_mbuf small_buffers dpdk_ptypes 1 datagram pool ≡ ok sent
unfolding into_mbuf fill_all fill packet_type l3_code l4_code
datagram-sent = refl

into_mbuf-ok_example : (small_buffers.segments sent.mbuf ≡ (1 ∷ 2 ∷ 3 ∷ []) ∷ []) × (3 ≤ 64)
into_mbuf-ok_example =
    into_mbuf-ok small_buffers Empty 64 small_buffers-Documented dpdk_ptypes 1 datagram pool sent
      (omega arith) pool-fresh datagram-sent

pub content_short : (xs : List ℕ) → length xs ≤ 64 → take 64 xs ≡ xs
content_short xs h = take_of_length_le 64 xs (omega arith)

from_mbuf-into_mbuf_example :
    let p' = from_mbuf small_buffers dpdk_ptypes (λ xs. xs) sent in
    (p'.l3protocol ≡ L3Protocol.ipv4)
    × (p'.l4protocol ≡ L4Protocol.udp)
    × (p'.frags ≡ (1 ∷ 2 ∷ 3 ∷ []) ∷ [])
    × (bytes_of small_buffers Empty 64 small_buffers-Documented p'.frags ≡ 1 ∷ 2 ∷ 3 ∷ [])
from_mbuf-into_mbuf_example =
    from_mbuf-into_mbuf small_buffers Empty 64 small_buffers-Documented dpdk_ptypes (λ xs. xs) 1
      datagram pool sent content_short dpdk_layered (omega arith) pool-fresh datagram-sent
