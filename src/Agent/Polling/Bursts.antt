-- ===== src/Agent/Polling/Bursts.antt =====
-- src/agent.rs: what a burst of received frames leaves in the mailboxes and in the memory.
use async_dpdk.Base.{
  ℕ, ◌+◌, ◌<◌, ◌≡◌, ◌≢◌, refl, sym, ap, ◌∙◌, subst, Bool, false, Option, some, List, [], ◌∷◌, ◌++◌,
  append_assoc, append-nil, map, length, drop, All, Distinct,
}
use async_dpdk.Errno.{ok}
use async_dpdk.Proto.{Ptypes}
use async_dpdk.Socket.{PortTable}
use async_dpdk.Mbuf.{RteMbuf, Mem, Store, Pktmbuf}
use async_dpdk.Mbuf.Chains.{Elsewhere, Frees, IsPacket, All-map, All-both}
use async_dpdk.Mbuf.Areas.{AreaDocs}
use async_dpdk.Mbuf.Reading.{Parsed, parsed, ignored, out_of_bounds}
use async_dpdk.Udp.Datagram.{Datagram}
use async_dpdk.Agent.Frames.{EtherTypes, Reassembly, handle_ether}
use async_dpdk.Agent.Frames.Single.{handle_ether-single}
use async_dpdk.Agent.Polling.{Rx, hand_over, absorb, poll_one, poll_burst}

-- An mbuf of one segment whose record is kept stays one.
pub IsPacket-same :
    (mem mem' : Mem) (m : ℕ) → mem' m ≡ mem m → IsPacket mem m [] → IsPacket mem' m []
IsPacket-same mem mem' m e v = record {
  linked = (ap (λ (r : RteMbuf). r.next) e ∙ v.linked.0, tt);
  bounded = v.bounded;
  distinct = v.distinct;
  counted = ap (λ (r : RteMbuf). r.nb_segs) e ∙ v.counted;
  measured =
      ap (λ (r : RteMbuf). r.pkt_len) e
      ∙ v.measured
      ∙ sym (ap (λ (r : RteMbuf). length r.content + 0) e);
}

module _ {Bytes : Type 0} (types : EtherTypes) (frag : Reassembly) (lib : Pktmbuf)
    (frees : Frees lib) (areas : AreaDocs lib) (c : Ptypes) (to_bytes : List ℕ → Bytes) (fuel : ℕ)
    (ports : PortTable) (gone : ℕ → Bool) where
  -- A received mbuf of one segment that is no fragment.
  abbrev pub IsWhole : Mem → ℕ → Type 0
  IsWhole mem m = IsPacket mem m [] × (frag.is_fragmented (drop 14 (mem m).content) ≡ false)

  IsWhole-same : (mem mem' : Mem) (m : ℕ) → mem' m ≡ mem m → IsWhole mem m → IsWhole mem' m
  IsWhole-same mem mem' m e h = (
    IsPacket-same mem mem' m e h.0,
    ap (λ (r : RteMbuf). frag.is_fragmented (drop 14 r.content)) e ∙ h.1,
  )

  -- The mbufs behind the first of a burst are as they were.
  rest-IsWhole :
      (m : ℕ) (ms : List ℕ) (mem mem' : Mem)
      → Elsewhere m mem mem'
      → All (λ x. m ≢ x) ms
      → All (IsWhole mem) ms
      → All (IsWhole mem') ms
  rest-IsWhole m ms mem mem' o d a =
      All-map ms (λ x h. IsWhole-same mem mem' x (o x h.0) h.1)
        (All-both (λ x. m ≢ x) (IsWhole mem) ms d a)

  pub poll_burst-poll_one :
      (m : ℕ) (ps : List (Option ℕ)) (w w' : Rx Bytes)
      → poll_one gone types lib frag c to_bytes fuel ports m w ≡ (parsed tt, w')
      → poll_burst gone types lib frag c to_bytes fuel ports (some m ∷ ps) w
        ≡ poll_burst gone types lib frag c to_bytes fuel ports ps w'
  unfolding poll_burst
  poll_burst-poll_one m ps w w' e =
      ap
        (λ (x : Parsed (Unit {0}) × Rx Bytes). elim x.0 [
          | parsed _ ↦ poll_burst gone types lib frag c to_bytes fuel ports ps x.1
          | ignored ↦ (ignored, x.1)
          | out_of_bounds ↦ (out_of_bounds, x.1)
        ])
        e

  -- Without a read out of bounds the agent goes on, with the mbufs of `handle_ether`.
  absorb_lem :
      (w : Rx Bytes) (r : Parsed (Datagram Bytes)) (st : Store)
      → r ≢ out_of_bounds
      → (w' : Rx Bytes) × (absorb gone (r, st) w ≡ (parsed tt, w')) × (w'.store ≡ st)
  absorb_lem w (parsed d) st n = (hand_over gone d (record w { store = st }), refl, refl)
  absorb_lem w ignored st n = (record w { store = st }, refl, refl)
  absorb_lem w out_of_bounds st n = absurd (n refl)

  -- A burst of distinct mbufs of one segment each that are no fragments, whatever their bytes: the agent
  -- handles all of them, reads behind the data of none, and gives each of them back once, in order.
  pub poll_burst-single :
      (ms : List ℕ) (w : Rx Bytes)
      → Distinct ms
      → All (IsWhole w.store.mem) ms
      → 0 < fuel
      → (w' : Rx Bytes) × (poll_burst gone types lib frag c to_bytes fuel ports
            (map (λ m. some m) ms)
            w
          ≡ (parsed (ok tt), w'))
        × (w'.store.freed ≡ w.store.freed ++ ms)
  unfolding poll_burst poll_one
  poll_burst-single [] w d a k = (w, refl, sym (append-nil w.store.freed))
  poll_burst-single (m ∷ ms) w d a k =
      let (r, st) = handle_ether types lib frag c to_bytes fuel ports m w.store in
      let (n, f, o) =
        handle_ether-single types frag lib frees areas c to_bytes fuel ports m w.store a.0.0 a.0.1
          k in
      let (w1, e, q) = absorb_lem w r st n in
      let rest : All (IsWhole w1.store.mem) ms =
        subst (λ (s : Store). All (IsWhole s.mem) ms) (sym q)
          (rest-IsWhole m ms w.store.mem st.mem o d.0 a.1) in
      let (w2, u, g) = poll_burst-single ms w1 d.1 rest k in
      (
        w2,
        poll_burst-poll_one m (map (λ x. some x) ms) w w1 e ∙ u,
        g
            ∙ ap (λ (s : Store). s.freed ++ ms) q
            ∙ ap (λ (xs : List ℕ). xs ++ ms) f
            ∙ append_assoc w.store.freed (m ∷ []) ms,
      )
