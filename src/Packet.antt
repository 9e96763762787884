-- ===== src/Packet.antt =====
-- src/packet.rs: packets as lists of byte fragments, and their conversion to and from mbufs. An mbuf
-- of DPDK and a `BytesMut` of the `bytes` crate are types that the model is given, with the calls
-- that the source makes of them. An allocation takes the next mbuf of a list, and gives null when the
-- list is empty.
pub mod IntoMbuf
pub mod RoundTrip
use async_dpdk.Base.{
  ℕ, zero, suc, ◌+◌, ◌-◌, ◌≤◌, ◌<◌, ◌≡◌, Bool, true, false, Option, none, some, List, [], ◌∷◌, ◌++◌,
  map, length, take, ltb, ◌==◌, if◌then◌else◌, sub_usize,
}
use async_dpdk.Errno.{Error, no_mem, Result, ok, err, panicked, ◌>>=◌, ◌>>◌, ok_or, try_u16}
use async_dpdk.Proto.{
  L3Protocol, L4Protocol, Ptypes, packet_type, protocols, l3_length, l4_length, ether_hdr_len,
}

-- The calls: the data of the segments of a chain, its room behind the data, `rte_pktmbuf_append` with
-- the bytes that are copied to the area it returns, `rte_pktmbuf_chain`, the bytes of a `BytesMut`, and
-- `BufMut::advance_mut`, which is `none` where it panics.
pub record Buffers (Mbuf Bytes : Type 0) : Type 0 where
  pub segments : Mbuf → List (List ℕ)
  pub tailroom : Mbuf → ℕ
  pub append_bytes : List ℕ → Mbuf → Option Mbuf
  pub chain : Mbuf → Mbuf → Result Mbuf
  pub content : Bytes → List ℕ
  pub advance_mut : ℕ → Bytes → Option Bytes

-- What DPDK and `bytes` document. A fresh mbuf is empty. An append that fits extends the data of the
-- last segment, and any other fails. `advance_mut` moves the end of the bytes, not their start; an
-- allocation is smaller than 2 ^ 63.
pub record Documented {Mbuf Bytes : Type 0} (lib : Buffers Mbuf Bytes) (fresh : Mbuf → Type 0)
    (room : ℕ) : Type 0 where
  pub fresh_segments : (m : Mbuf) → fresh m → lib.segments m ≡ [] ∷ []
  pub fresh_room : (m : Mbuf) → fresh m → lib.tailroom m ≡ room
  pub append_fits :
      (xs : List ℕ) (m : Mbuf) (s : List ℕ)
      → length xs ≤ lib.tailroom m
      → lib.segments m ≡ s ∷ []
      → (m' : Mbuf) × (lib.append_bytes xs m ≡ some m')
        × (lib.segments m' ≡ (s ++ xs) ∷ [])
        × (lib.tailroom m' ≡ lib.tailroom m - length xs)
  pub advance_length :
      (n : ℕ) (f g : Bytes)
      → lib.advance_mut n f ≡ some g
      → length (lib.content g) ≡ length (lib.content f) + n
  pub content_small : (f : Bytes) → length (lib.content f) < 9223372036854775808

-- `Packet`
pub record Packet (Bytes : Type 0) : Type 0 where
  pub l3protocol : L3Protocol
  pub l4protocol : L4Protocol
  pub frags : List Bytes

-- `Packet::new` and `Packet::append`
abbrev pub new_packet : {Bytes : Type 0} → L3Protocol → L4Protocol → Packet Bytes
new_packet l3 l4 = record { l3protocol = l3; l4protocol = l4; frags = [] }

abbrev pub append : {Bytes : Type 0} → Bytes → Packet Bytes → Packet Bytes
append frag p = record p { frags = p.frags ++ frag ∷ [] }

-- An mbuf with the fields that the crate itself writes or reads.
pub record Outgoing (Mbuf : Type 0) : Type 0 where
  pub mbuf : Mbuf
  pub ptype : ℕ
  pub l2_len : ℕ
  pub l3_len : ℕ
  pub l4_len : ℕ

-- The packet of a packet type and of the slices of the segments.
abbrev pub from_segments :
    {Bytes : Type 0} → Ptypes → (List ℕ → Bytes) → ℕ → List (List ℕ) → Packet Bytes
from_segments c to_bytes ptype slices =
    let (p, q) = protocols c ptype in
    record { l3protocol = p; l4protocol = q; frags = map to_bytes slices }

module _ {Mbuf Bytes : Type 0} (lib : Buffers Mbuf Bytes) where
  open lib use {segments, tailroom, append_bytes, chain, content, advance_mut}

  -- The area of `n` bytes gets a slice of another length: `append` fails or `copy_from_slice` panics.
  abbrev pub mismatched : ℕ → Mbuf → Result Mbuf
  mismatched n m = if ltb (tailroom m) n then err no_mem else panicked

  -- `Mbuf::append` of `len` bytes, with the `copy_from_slice` of `xs` into the area it returns.
  abbrev pub append_copy : ℕ → List ℕ → Mbuf → Result Mbuf
  append_copy len xs m = try_u16 len >>= λ n.
      (if length xs == n then ok_or (append_bytes xs m) no_mem else mismatched n m)

  -- `Mbuf::new`
  abbrev pub alloc : List Mbuf → Result (Mbuf × List Mbuf)
  alloc [] = err no_mem
  alloc (m ∷ pool) = ok (m, pool)

  -- The mbufs at work: the finished chain, the mbuf that is filled, and those still to be allocated.
  pub record Work : Type 0 where
    pub head : Option Mbuf
    pub tail : Mbuf
    pub pool : List Mbuf

  -- The full `tail` becomes the head, or is chained to it.
  abbrev pub push_tail : Option Mbuf → Mbuf → Result Mbuf
  push_tail none tail = ok tail
  push_tail (some m) tail = chain m tail

  -- A new mbuf behind the chain that has become the head.
  abbrev pub new_tail : Result Mbuf → List Mbuf → Result Work
  new_tail r pool = do
    h ← r
    (m, rest) ← alloc pool
    ok (record { head = some h; tail = m; pool = rest })

  -- `if tail.tailroom() == 0 { … }`
  unfoldable pub make_room : Work → Result Work
  make_room w = if tailroom w.tail == 0 then new_tail (push_tail w.head w.tail) w.pool else ok w

  -- A call that is `none` where it panics.
  abbrev pub or_panic : Option Bytes → Result Bytes
  or_panic none = panicked
  or_panic (some f) = ok f

  -- `&frag[..delta]`
  abbrev pub front : ℕ → List ℕ → Result (List ℕ)
  front delta xs = if ltb (length xs) delta then panicked else ok (take delta xs)

  -- One round of the `while` loop on a fragment, with the bytes of it that are left to copy.
  unfoldable pub round : Bytes → ℕ → Work → Result (Bytes × ℕ × Work)
  round frag len w = do
    w' ← make_room w
    let delta = tailroom w'.tail
    xs ← front delta (content frag)
    tail ← append_copy delta xs w'.tail
    frag' ← or_panic (advance_mut delta frag)
    ok (frag', sub_usize len delta, record w' { tail = tail })

  -- The `while` loop, and the copy behind it; a loop out of fuel counts as a panic.
  unfoldable pub fill : ℕ → Bytes → ℕ → Work → Result Work
  fill zero frag len w = panicked
  fill (suc fuel) frag len w = elim (ltb (tailroom w.tail) len) [
    | true ↦ round frag len w >>= λ (frag', len', w'). fill fuel frag' len' w'
    | false ↦ append_copy len (content frag) w.tail >>= λ tail. ok (record w { tail = tail })
  ]

  -- The `for` loop over the fragments.
  unfoldable pub fill_all : ℕ → List Bytes → Work → Result Work
  fill_all fuel [] w = ok w
  fill_all fuel (f ∷ fs) w = fill fuel f (length (content f)) w >>= λ w'. fill_all fuel fs w'

  -- `head.unwrap_or(tail)`: with a head, the last mbuf is dropped.
  abbrev pub first_of_chain : Work → Mbuf
  first_of_chain w = elim w.head [ none ↦ w.tail | some m ↦ m ]

  module _ (c : Ptypes) where
    -- The fields that `into_mbuf` sets when the bytes are copied.
    abbrev pub finish : Packet Bytes → Work → Outgoing Mbuf
    finish p w = record {
      mbuf = first_of_chain w;
      ptype = packet_type c p.l3protocol p.l4protocol;
      l2_len = ether_hdr_len;
      l3_len = l3_length p.l3protocol;
      l4_len = l4_length p.l4protocol;
    }

    -- `Packet::into_mbuf`, with the mbufs that the pool gives, and fuel for the `while` loop.
    unfoldable pub into_mbuf : ℕ → Packet Bytes → List Mbuf → Result (Outgoing Mbuf)
    into_mbuf fuel p pool = do
      (tail, rest) ← alloc pool
      w ← fill_all fuel p.frags (record { head = none; tail = tail; pool = rest })
      ok (finish p w)

    -- `Packet::from_mbuf`, with the conversion of a slice to a `BytesMut`.
    unfoldable pub from_mbuf : (List ℕ → Bytes) → Outgoing Mbuf → Packet Bytes
    from_mbuf to_bytes m = from_segments c to_bytes m.ptype (segments m.mbuf)
