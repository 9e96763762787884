-- ===== src/Packet/RoundTrip.antt =====
-- src/packet.rs: which packets `into_mbuf` converts, and what `from_mbuf` makes of the result.
use async_dpdk.Base.{
  ℕ, zero, suc, ◌+◌, ◌≤◌, ◌<◌, ◌≡◌, refl, sym, ap, subst, ◌∙◌, false, none, List, [], ◌∷◌, ◌++◌,
  map, length, All, length-append, append-nil, append_assoc, ltb, arith,
}
use native.Mathlib.Decide.{dec_le}
use async_dpdk.Errno.{ok, >>=-eq-ok}
use async_dpdk.Proto.{
  Ptypes, Layered, L3Protocol, L4Protocol, packet_type, protocols, protocols-packet_type,
}
use async_dpdk.Packet.{
  Buffers, Documented, Packet, Outgoing, append_copy, Work, fill, fill_all, first_of_chain, finish,
  into_mbuf, from_mbuf,
}
use async_dpdk.Packet.IntoMbuf.{fill_fits, fill_needs_room}

module _ {Mbuf Bytes : Type 0} (lib : Buffers Mbuf Bytes) (fresh : Mbuf → Type 0) (room : ℕ)
    (doc : Documented lib fresh room) where
  open lib use {segments, tailroom, content}

  -- The bytes of a packet, its fragments one behind another.
  abbrev pub bytes_of : List Bytes → List ℕ
  bytes_of [] = []
  bytes_of (f ∷ fs) = content f ++ bytes_of fs

  append_copy_small :
      (xs : List ℕ) (m m' : Mbuf) → append_copy lib (length xs) xs m ≡ ok m' → length xs < 65536
  append_copy_small xs m m' h = ground arith

  fill_small :
      (fuel : ℕ) (f : Bytes) (w w' : Work lib)
      → length (content f) ≤ tailroom w.tail
      → fill lib (suc fuel) f (length (content f)) w ≡ ok w'
      → length (content f) < 65536
  unfolding fill
  fill_small fuel f w w' fits h =
      let last : ltb (tailroom w.tail) (length (content f)) ≡ false = ground arith in
      let (m, e, _) =
        >>=-eq-ok (append_copy lib (length (content f)) (content f) w.tail) _
          (rw (last, fill) at h) in
      append_copy_small (content f) w.tail m e

  -- The mbuf at work is the only one, and holds `s`.
  record Single (w : Work lib) (s : List ℕ) : Type 0 where
    alone : w.head ≡ none
    holds : segments w.tail ≡ s ∷ []
    supply : All fresh w.pool

  fill-Single :
      (fuel : ℕ) (f : Bytes) (w w' : Work lib) (s : List ℕ)
      → 1 ≤ room
      → Single w s
      → fill lib fuel f (length (content f)) w ≡ ok w'
      → Single w' (s ++ content f) × (length (content f) + tailroom w'.tail ≡ tailroom w.tail)
  unfolding fill
  fill-Single zero f w w' s r v h = cc
  fill-Single (suc fuel) f w w' s r v h = elim (dec_le (length (content f)) (tailroom w.tail)) [
    | yes fits ↦
        let (m, e, q1, q2) =
          fill_fits lib fresh room doc fuel f w s fits (fill_small fuel f w w' fits h) v.holds in
        let same : record w { tail = m } ≡ w' = ground arith in
        (
          subst (λ (x : Work lib). Single x (s ++ content f)) same
              (record { alone = v.alone; holds = q1; supply = v.supply }),
          omega (arith, q2, ap (λ (x : Work lib). tailroom x.tail) same),
        )
    | no big ↦
        absurd (fill_needs_room lib fresh room doc (suc fuel) f w w' v.supply r (omega arith) h)
  ]

  fill_all-Single :
      (fuel : ℕ) (fs : List Bytes) (w w' : Work lib) (s : List ℕ)
      → 1 ≤ room
      → Single w s
      → fill_all lib fuel fs w ≡ ok w'
      → Single w' (s ++ bytes_of fs) × (length (bytes_of fs) + tailroom w'.tail ≡ tailroom w.tail)
  unfolding fill_all
  fill_all-Single fuel [] w w' s r v h =
      let same : w ≡ w' = ground arith in
      (
        subst (λ (x : Work lib). Single x (s ++ [])) same (subst (Single w) (sym (append-nil s)) v),
        omega (arith, ap (λ (x : Work lib). tailroom x.tail) same),
      )
  fill_all-Single fuel (f ∷ fs) w w' s r v h =
      let (w2, e, q) = >>=-eq-ok (fill lib fuel f (length (content f)) w) _ h in
      let (v2, n2) = fill-Single fuel f w w2 s r v e in
      let (v3, n3) = fill_all-Single fuel fs w2 w' (s ++ content f) r v2 q in
      (
        subst (Single w') (append_assoc s (content f) (bytes_of fs)) v3,
        omega (arith, n2, n3, length-append (content f) (bytes_of fs)),
      )

  fill_all_fits :
      (fuel : ℕ) (fs : List Bytes) (w : Work lib) (s : List ℕ)
      → Single w s
      → length (bytes_of fs) ≤ tailroom w.tail
      → length (bytes_of fs) < 65536
      → (w' : Work lib) × (fill_all lib (suc fuel) fs w ≡ ok w')
  unfolding fill_all
  fill_all_fits fuel [] w s v h k = (w, refl)
  fill_all_fits fuel (f ∷ fs) w s v h k =
      let n = length-append (content f) (bytes_of fs) in
      let (m, e, q1, q2) =
        fill_fits lib fresh room doc fuel f w s (omega arith) (omega arith) v.holds in
      let w2 : Work lib = record w { tail = m } in
      let (w', q) =
        fill_all_fits fuel fs w2 (s ++ content f)
          (record { alone = v.alone; holds = q1; supply = v.supply }) (omega arith) (omega arith) in
      (w', rw e q)

  module _ (c : Ptypes) where
    first_of_chain-alone : (w : Work lib) → w.head ≡ none → first_of_chain lib w ≡ w.tail
    first_of_chain-alone w e = ground arith

    -- A packet that is converted was no longer than the room of one mbuf, and the mbuf is a single
    -- segment that holds its bytes, in order. So a packet that is longer, however many mbufs the pool
    -- has, is never converted.
    pub into_mbuf-ok :
        (fuel : ℕ) (p : Packet Bytes) (pool : List Mbuf) (o : Outgoing Mbuf)
        → 1 ≤ room
        → All fresh pool
        → into_mbuf lib c fuel p pool ≡ ok o
        → (segments o.mbuf ≡ bytes_of p.frags ∷ []) × (length (bytes_of p.frags) ≤ room)
    unfolding into_mbuf
    into_mbuf-ok fuel p [] o r a h = cc
    into_mbuf-ok fuel p (m ∷ pool) o r a h =
        let start : Work lib = record { head = none; tail = m; pool = pool } in
        let (w, e, q) = >>=-eq-ok (fill_all lib fuel p.frags start) _ h in
        let begin : Single start [] = record {
          alone = refl;
          holds = doc.fresh_segments m a.0;
          supply = a.1;
        } in
        let (v, n) = fill_all-Single fuel p.frags start w [] r begin e in
        let first : o.mbuf ≡ w.tail = ground (arith, v.alone) in
        (ap segments first ∙ v.holds, omega (arith, n, doc.fresh_room m a.0))

    -- A packet that is no longer than the room of one mbuf is converted with one mbuf of the pool, when
    -- there is one and its room is less than 65536; any fuel is enough.
    pub into_mbuf_fits :
        (fuel : ℕ) (p : Packet Bytes) (m : Mbuf) (pool : List Mbuf)
        → All fresh (m ∷ pool)
        → room < 65536
        → length (bytes_of p.frags) ≤ room
        → (o : Outgoing Mbuf) × (into_mbuf lib c (suc fuel) p (m ∷ pool) ≡ ok o)
    unfolding into_mbuf
    into_mbuf_fits fuel p m pool a k h =
        let start : Work lib = record { head = none; tail = m; pool = pool } in
        let begin : Single start [] = record {
          alone = refl;
          holds = doc.fresh_segments m a.0;
          supply = a.1;
        } in
        let (w, e) =
          fill_all_fits fuel p.frags start [] begin (omega (arith, doc.fresh_room m a.0))
            (omega arith) in
        (finish lib c p w, rw e)

    into_mbuf-ptype :
        (fuel : ℕ) (p : Packet Bytes) (pool : List Mbuf) (o : Outgoing Mbuf)
        → into_mbuf lib c fuel p pool ≡ ok o
        → o.ptype ≡ packet_type c p.l3protocol p.l4protocol
    unfolding into_mbuf
    into_mbuf-ptype fuel p [] o h = cc
    into_mbuf-ptype fuel p (m ∷ pool) o h =
        let start : Work lib = record { head = none; tail = m; pool = pool } in
        let (w, e, q) = >>=-eq-ok (fill_all lib fuel p.frags start) _ h in ground arith

    -- What a receiver makes of a packet that `into_mbuf` converted has the sender's protocols and one
    -- fragment, with the packet's bytes. Here an mbuf of the pool is fresh and has room for a byte at
    -- least, `to_bytes` keeps the bytes of what fits an mbuf, and DPDK's packet-type constants tell
    -- the layers and the protocols in a layer apart (`Layered`).
    pub from_mbuf-into_mbuf :
        (to_bytes : List ℕ → Bytes) (fuel : ℕ) (p : Packet Bytes) (pool : List Mbuf)
        (o : Outgoing Mbuf)
        → ((xs : List ℕ) → length xs ≤ room → content (to_bytes xs) ≡ xs)
        → Layered c
        → 1 ≤ room
        → All fresh pool
        → into_mbuf lib c fuel p pool ≡ ok o
        → let p' = from_mbuf lib c to_bytes o in
          (p'.l3protocol ≡ p.l3protocol)
          × (p'.l4protocol ≡ p.l4protocol)
          × (p'.frags ≡ to_bytes (bytes_of p.frags) ∷ [])
          × (bytes_of p'.frags ≡ bytes_of p.frags)
    unfolding from_mbuf
    from_mbuf-into_mbuf to_bytes fuel p pool o same l r a h =
        let (e, n) = into_mbuf-ok fuel p pool o r a h in
        let t : protocols c o.ptype ≡ (p.l3protocol, p.l4protocol) =
          ap (protocols c) (into_mbuf-ptype fuel p pool o h)
          ∙ protocols-packet_type c l p.l3protocol p.l4protocol in
        (
          ap (λ (x : L3Protocol × L4Protocol). x.0) t,
          ap (λ (x : L3Protocol × L4Protocol). x.1) t,
          ap (map to_bytes) e,
          ap (λ (x : List (List ℕ)). bytes_of (map to_bytes x)) e
              ∙ append-nil (content (to_bytes (bytes_of p.frags)))
              ∙ same (bytes_of p.frags) n,
        )
