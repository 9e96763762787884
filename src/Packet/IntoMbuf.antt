-- ===== src/Packet/IntoMbuf.antt =====
-- src/packet.rs: `into_mbuf` succeeds exactly for packets that fit one mbuf, and copies them whole.
use async_dpdk.Base.{
  ℕ, zero, suc, ◌+◌, ◌-◌, ◌*◌, ◌%◌, ◌≤◌, ◌<◌, All, ◌≡◌, ◌≢◌, inl, inr, true, Option, none, some,
  List, [], ◌∷◌, ◌++◌, length, ltb, ◌==◌, sub_usize, usize_size, Bool-cases, arith,
}
use async_dpdk.Errno.{Result, ok, err, panicked, ◌>>=◌, >>=-eq-ok}
use async_dpdk.Packet.{
  Buffers, Documented, append_copy, Work, push_tail, new_tail, or_panic, make_room, front, round,
  fill,
}

module _ {Mbuf Bytes : Type 0} (lib : Buffers Mbuf Bytes) (fresh : Mbuf → Type 0) (room : ℕ)
    (doc : Documented lib fresh room) where
  open lib use {segments, tailroom, append_bytes, chain, content, advance_mut}

  -- A fragment that fits the room of the first mbuf is added to its data.
  pub fill_fits :
      (fuel : ℕ) (f : Bytes) (w : Work lib) (s : List ℕ)
      → length (content f) ≤ tailroom w.tail
      → length (content f) < 65536
      → segments w.tail ≡ s ∷ []
      → (m : Mbuf) × (fill lib (suc fuel) f (length (content f)) w ≡ ok (record w { tail = m }))
        × (segments m ≡ (s ++ content f) ∷ [])
        × (tailroom m ≡ tailroom w.tail - length (content f))
  unfolding fill
  fill_fits fuel f w s h k e =
      let (m, q1, q2, q3) = doc.append_fits (content f) w.tail s h e in (m, ground arith, q2, q3)

  -- What holds while a fragment is split: `done` bytes of it have been copied, and as many have been
  -- added to its end, so that the bytes left to copy are fewer than those that it has.
  record Stretched (f : Bytes) (len done : ℕ) : Type 0 where
    some_done : 1 ≤ done
    small : len < usize_size
    within : done ≤ length (content f)
    stretched : (len + 2 * done) % usize_size ≡ length (content f)

  Stretched-ne : {f : Bytes} {len done : ℕ} → Stretched f len done → length (content f) ≢ len
  Stretched-ne {f} {len} {done} v e = absurd (omega (arith, doc.content_small f))

  new_tail_inv :
      (r : Result Mbuf) (pool : List Mbuf) (w' : Work lib)
      → All fresh pool
      → 1 ≤ room
      → new_tail lib r pool ≡ ok w'
      → 1 ≤ tailroom w'.tail
  new_tail_inv (ok h) [] w' f r e = cc
  new_tail_inv (ok h) (m ∷ pool) w' f r e = ground (arith, doc.fresh_room m f.0)
  new_tail_inv (err x) pool w' f r e = cc
  new_tail_inv panicked pool w' f r e = cc

  make_room_inv :
      (w w' : Work lib)
      → All fresh w.pool
      → 1 ≤ room
      → make_room lib w ≡ ok w'
      → 1 ≤ tailroom w'.tail
  unfolding make_room
  make_room_inv w w' h r e = elim (Bool-cases (tailroom w.tail == 0)) [
    | inl z ↦ new_tail_inv (push_tail lib w.head w.tail) w.pool w' h r (rw z at e)
    | inr n ↦ ground arith
  ]

  or_panic_inv :
      (o : Option Bytes) (len : ℕ) (w : Work lib) {f' : Bytes} {len' : ℕ} {w' : Work lib}
      → ◌>>=◌ {T = Bytes × ℕ × Work lib} (or_panic lib o) (λ g. ok (g, len, w)) ≡ ok (f', len', w')
      → (o ≡ some f') × (len' ≡ len)
  or_panic_inv none len w h = cc
  or_panic_inv (some g) len w h = ground arith

  front_inv : (n : ℕ) (xs ys : List ℕ) → front lib n xs ≡ ok ys → n ≤ length xs
  front_inv n xs ys h = ground arith

  -- One round of the loop copies the front of the bytes, takes them off the length, and adds as many
  -- bytes to the end of the fragment.
  round_inv :
      (f : Bytes) (len : ℕ) (w : Work lib) {f' : Bytes} {len' : ℕ} {w' : Work lib}
      → round lib f len w ≡ ok (f', len', w')
      → (delta : ℕ) × (len' ≡ sub_usize len delta)
        × (delta ≤ length (content f))
        × (length (content f') ≡ length (content f) + delta)
        × (All fresh w.pool → 1 ≤ room → 1 ≤ delta)
  unfolding round
  round_inv f len w {f'} {len'} h =
      let (w2, e1, h1) = >>=-eq-ok (make_room lib w) _ h in
      let delta = tailroom w2.tail in
      let (xs, e2, h2) = >>=-eq-ok (front lib delta (content f)) _ h1 in
      let (tail, e3, h3) = >>=-eq-ok (append_copy lib delta xs w2.tail) _ h2 in
      let (e4, e5) = or_panic_inv (advance_mut delta f) (sub_usize len delta) _ h3 in
      (
        delta,
        e5,
        front_inv delta (content f) xs e2,
        doc.advance_length delta f f' e4,
        λ q r. make_room_inv w w2 q r e1,
      )

  round-Stretched :
      (f : Bytes) (len done : ℕ) (w : Work lib) {f' : Bytes} {len' : ℕ} {w' : Work lib}
      → round lib f len w ≡ ok (f', len', w')
      → Stretched f len done
      → (done' : ℕ) × Stretched f' len' done'
  round-Stretched f len done w {f'} {len'} h v =
      let (delta, e1, e2, e3, _) = round_inv f len w h in
      (done + delta, omega (arith, doc.content_small f, doc.content_small f', v, e1, e2, e3))

  -- A fragment that does not fit at once is in that state after the first round.
  first_round-Stretched :
      (f : Bytes) (w : Work lib) {f' : Bytes} {len' : ℕ} {w' : Work lib}
      → All fresh w.pool
      → 1 ≤ room
      → round lib f (length (content f)) w ≡ ok (f', len', w')
      → (done' : ℕ) × Stretched f' len' done'
  first_round-Stretched f w {f'} {len'} a r h =
      let (delta, e1, e2, e3, p) = round_inv f (length (content f)) w h in
      (delta, omega (arith, doc.content_small f, doc.content_small f', p a r, e1, e2, e3))

  append_copy-ne :
      (len : ℕ) (xs : List ℕ) (m m' : Mbuf) → length xs ≢ len → append_copy lib len xs m ≡ ok m' → ⊥
  append_copy-ne len xs m m' n h = ground arith

  -- From that state the loop and the copy behind it never succeed, whatever the fuel.
  fill-Stretched :
      (fuel : ℕ) (f : Bytes) (len done : ℕ) (w w' : Work lib)
      → Stretched f len done
      → fill lib fuel f len w ≡ ok w'
      → ⊥
  unfolding fill
  fill-Stretched zero f len done w w' v h = cc
  fill-Stretched (suc fuel) f len done w w' v h = elim (Bool-cases (ltb (tailroom w.tail) len)) [
    | inl more ↦
        let ((f', len', w2), e, q) = >>=-eq-ok (round lib f len w) _ (rw (more, fill) at h) in
        let (done', v') = round-Stretched f len done w e v in
        fill-Stretched fuel f' len' done' w2 w' v' q
    | inr last ↦
        let (m, e, _) =
          >>=-eq-ok (append_copy lib len (content f) w.tail) _ (rw (last, fill) at h) in
        append_copy-ne len (content f) w.tail m (Stretched-ne v) e
  ]

  -- A fragment that does not fit the room of the mbuf at work is never copied.
  pub fill_needs_room :
      (fuel : ℕ) (f : Bytes) (w w' : Work lib)
      → All fresh w.pool
      → 1 ≤ room
      → tailroom w.tail < length (content f)
      → fill lib fuel f (length (content f)) w ≡ ok w'
      → ⊥
  unfolding fill
  fill_needs_room zero f w w' a r big h = cc
  fill_needs_room (suc fuel) f w w' a r big h =
      let more : ltb (tailroom w.tail) (length (content f)) ≡ true = ground arith in
      let ((f', len', w2), e, q) =
        >>=-eq-ok (round lib f (length (content f)) w) _ (rw (more, fill) at h) in
      let (done', v') = first_round-Stretched f w a r e in
      fill-Stretched fuel f' len' done' w2 w' v' q
