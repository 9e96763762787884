-- ===== src/Agent/TxBuffer/Header.antt =====
-- src/agent.rs: `TxBuffer::populate_ether_hdr`, which gives every fragment of a packet the Ethernet header of
-- the packet. The memory of the mbufs is that of `Mbuf`.
use mathlib.Core.Path.{fun_ext}
use async_dpdk.Base.{
  ℕ, ◌+◌, ◌≤◌, ◌≡◌, ◌≢◌, refl, sym, ap, ap₂, ◌∙◌, subst, Option, none, some, List, [], ◌∷◌, ◌++◌,
  append_assoc, length, take, drop, length-append, length-take, length-drop, take-append_length,
  drop-append_length, take-append-drop, update, All, Distinct, arith,
}
use async_dpdk.Mbuf.{RteMbuf, Mem, Pktmbuf}
use async_dpdk.Mbuf.Chains.{All-map, All-both}
use async_dpdk.Mbuf.Areas.{with_data, AreaDocs}

-- `rte_ether_hdr`
pub record EtherHdr : Type 0 where
  pub dst_addr : List ℕ
  pub src_addr : List ℕ
  pub ether_type : List ℕ

-- The fields at the front of some bytes, and the bytes of the fields.
abbrev pub hdr_at : List ℕ → EtherHdr
hdr_at bytes = record {
  dst_addr = take 6 bytes;
  src_addr = take 6 (drop 6 bytes);
  ether_type = take 2 (drop 6 (drop 6 bytes));
}

abbrev pub hdr_bytes : EtherHdr → List ℕ
hdr_bytes h = h.dst_addr ++ h.src_addr ++ h.ether_type

-- `xs` written over the bytes from `off` on
abbrev pub write_at : ℕ → List ℕ → List ℕ → List ℕ
write_at off xs content = take off content ++ xs ++ drop (off + length xs) content

-- The three assignments to the fields at the front of `content`.
abbrev pub copy_fields : EtherHdr → List ℕ → List ℕ
copy_fields h content =
    write_at 0 h.dst_addr (write_at 6 h.src_addr (write_at 12 h.ether_type content))

module _ (lib : Pktmbuf) where
  -- The memory with the header written at the start of a fragment's data.
  abbrev pub set_fields : EtherHdr → ℕ → Mem → Mem
  set_fields h m mem = update mem m (record (mem m) { content = copy_fields h (mem m).content })

  -- `TxBuffer::populate_ether_hdr`; `none` is a write through the null pointer of a `prepend` that failed.
  unfoldable pub populate_ether_hdr : EtherHdr → List ℕ → Mem → Option Mem
  populate_ether_hdr h [] mem = some mem
  populate_ether_hdr h (m ∷ ms) mem = elim (lib.prepend_data m 14 mem) [
    | none ↦ none
    | some mem' ↦ populate_ether_hdr h ms (set_fields h m mem')
  ]

-- The room in front of a segment's data depends on that segment only.
pub record HeadroomDocs (lib : Pktmbuf) : Type 0 where
  pub headroom_other :
      (m x n : ℕ) (xs : List ℕ) (mem : Mem)
      → m ≢ x
      → lib.headroom (with_data m xs n mem) x ≡ lib.headroom mem x

-- The sizes of the fields.
pub record Sized (h : EtherHdr) : Type 0 where
  pub dst : length h.dst_addr ≡ 6
  pub src : length h.src_addr ≡ 6
  pub type : length h.ether_type ≡ 2

write_at-append :
    (a b b' c : List ℕ) (n : ℕ)
    → length a ≡ n
    → length b ≡ length b'
    → write_at n b' (a ++ b ++ c) ≡ a ++ b' ++ c
write_at-append a b b' c n p q =
    ap₂ (λ x y. x ++ b' ++ y)
      (ap₂ take (sym p) (append_assoc a b c) ∙ take-append_length a (b ++ c))
      (ap (λ k. drop k (a ++ b ++ c)) (omega (arith, p, q, length-append a b))
        ∙ drop-append_length (a ++ b) c)

copy_fields-append :
    (h : EtherHdr) (x y z old : List ℕ)
    → Sized h
    → length x ≡ 6
    → length y ≡ 6
    → length z ≡ 2
    → copy_fields h (x ++ y ++ z ++ old) ≡ h.dst_addr ++ h.src_addr ++ h.ether_type ++ old
copy_fields-append h x y z old v p q r =
    let d = h.dst_addr in
    let s = h.src_addr in
    let t = h.ether_type in
    ap (λ k. write_at 0 d (write_at 6 s k))
      (write_at-append (x ++ y) z t old 12 (length-append x y ∙ ap₂ ◌+◌ p q) (r ∙ sym v.type)
        ∙ append_assoc (x ++ y) t old)
    ∙ ap (write_at 0 d)
        (write_at-append x y s (t ++ old) 6 p (q ∙ sym v.src) ∙ append_assoc x s (t ++ old))
    ∙ write_at-append [] x d (s ++ (t ++ old)) 0 refl (p ∙ sym v.dst)
    ∙ sym (append_assoc d s (t ++ old))
    ∙ sym (append_assoc (d ++ s) t old)

-- Any 14 bytes are three fields.
copy_fields_over :
    (h : EtherHdr) (xs old : List ℕ)
    → Sized h
    → length xs ≡ 14
    → copy_fields h (xs ++ old) ≡ hdr_bytes h ++ old
copy_fields_over h xs old v k =
    let x = take 6 xs in
    let ys = drop 6 xs in
    let y = take 6 ys in
    let z = drop 6 ys in
    let n : length ys ≡ 8 = omega (arith, length-drop 6 xs, k) in
    let split : x ++ y ++ z ≡ xs =
      append_assoc x y z ∙ ap (λ w. x ++ w) (take-append-drop 6 ys) ∙ take-append-drop 6 xs in
    ap (λ w. copy_fields h (w ++ old)) (sym split)
    ∙ copy_fields-append h x y z old v (omega (arith, length-take 6 xs, k))
        (omega (arith, length-take 6 ys, n)) (omega (arith, length-drop 6 ys, n))

-- A segment with a header in front of its data.
abbrev pub stamped : EtherHdr → RteMbuf → RteMbuf
stamped h b = record b { content = hdr_bytes h ++ b.content; pkt_len = b.pkt_len + 14 }

module _ (lib : Pktmbuf) (doc : AreaDocs lib) (room : HeadroomDocs lib) (h : EtherHdr)
    (v : Sized h) where
  -- The memory with a header in front of one segment's data.
  abbrev stamp : ℕ → Mem → Mem
  stamp m mem = with_data m (hdr_bytes h ++ (mem m).content) ((mem m).pkt_len + 14) mem

  set_fields-with_data :
      (m n : ℕ) (xs : List ℕ) (mem : Mem)
      → length xs ≡ 14
      → set_fields lib h m (with_data m (xs ++ (mem m).content) n mem)
        ≡ with_data m (hdr_bytes h ++ (mem m).content) n mem
  set_fields-with_data m n xs mem k =
      fun_ext λ x. ground (arith, copy_fields_over h xs (mem m).content v k)

  populate_some :
      (m : ℕ) (ms : List ℕ) (mem mem1 : Mem)
      → lib.prepend_data m 14 mem ≡ some mem1
      → populate_ether_hdr lib h (m ∷ ms) mem
        ≡ populate_ether_hdr lib h ms (set_fields lib h m mem1)
  unfolding populate_ether_hdr
  populate_some m ms mem mem1 e =
      ap
        (λ (o : Option Mem). elim o [
          | none ↦ none
          | some mem' ↦ populate_ether_hdr lib h ms (set_fields lib h m mem')
        ])
        e

  populate-next :
      (m : ℕ) (ms : List ℕ) (mem : Mem)
      → 14 ≤ lib.headroom mem m
      → populate_ether_hdr lib h (m ∷ ms) mem ≡ populate_ether_hdr lib h ms (stamp m mem)
  unfolding populate_ether_hdr
  populate-next m ms mem k =
      let (xs, l, e) = doc.prepend_fits m 14 mem k in
      populate_some m ms mem _ e
      ∙ ap (populate_ether_hdr lib h ms) (set_fields-with_data m ((mem m).pkt_len + 14) xs mem l)

  stamp_self : (m : ℕ) (mem : Mem) → stamp m mem m ≡ stamped h (mem m)
  stamp_self m mem = ground arith

  stamp_other : (m x : ℕ) (mem : Mem) → m ≢ x → stamp m mem x ≡ mem x
  stamp_other m x mem n = ground arith

  -- A header whose fields have 6, 6 and 2 bytes, and distinct fragments with room for its 14
  -- bytes in front of their data: `populate_ether_hdr` puts the header in front of the data of
  -- each, adds 14 to the length of each, and changes nothing else in the memory.
  pub populate_ether_hdr_lem :
      (ms : List ℕ) (mem : Mem)
      → Distinct ms
      → All (λ m. 14 ≤ lib.headroom mem m) ms
      → (mem' : Mem) × (populate_ether_hdr lib h ms mem ≡ some mem')
        × All (λ m. mem' m ≡ stamped h (mem m)) ms
        × ((x : ℕ) → All (λ m. m ≢ x) ms → mem' x ≡ mem x)
  unfolding populate_ether_hdr
  populate_ether_hdr_lem [] mem d r = (mem, refl, tt, λ x n. refl)
  populate_ether_hdr_lem (m ∷ ms) mem (a, d) (k, r) =
      let mem1 = stamp m mem in
      let (mem', e, all, other) = populate_ether_hdr_lem ms mem1 d (
        All-map ms (λ x (n, j). subst (λ z. 14 ≤ z) (sym (room.headroom_other m x _ _ mem n)) j)
          (All-both (λ x. m ≢ x) (λ x. 14 ≤ lib.headroom mem x) ms a r)) in
      (
        mem',
        populate-next m ms mem k ∙ e,
        (
          other m (All-map ms (λ x n q. n (sym q)) a) ∙ stamp_self m mem,
          All-map ms (λ x (n, q). q ∙ ap (stamped h) (stamp_other m x mem n))
              (All-both (λ x. m ≢ x) (λ x. mem' x ≡ stamped h (mem1 x)) ms a all),
        ),
        λ x (n, ns). other x ns ∙ stamp_other m x mem n,
      )
