-- ===== src/Agent/TxBuffer/Order.antt =====
-- src/agent.rs: `TxBuffer::buffer` sends packets in the order of the queue, each once.
use native.Mathlib.Nat.{add-zero}
use async_dpdk.Base.{
  ℕ, zero, suc, ◌+◌, ◌%◌, ◌≤◌, ◌<◌, ◌≡◌, refl, sym, ap, ap₂, ◌∙◌, ◌⊎◌, inl, inr, List, [], ◌∷◌,
  ◌++◌, length, take, drop, take-append-drop, take_of_length_le, append-nil, length-take,
  length-drop, add_u16, u16_size, arith,
}
use async_dpdk.Errno.{ok}
use async_dpdk.Agent.TxBuffer.{
  Ptr, TxMbuf, TxLib, Documented, TxBuffer, burst, bursts, enqueue, transmit, buffer,
}

module _ {ℓ} {A : Type ℓ} where
  take-append_le : (n : ℕ) (xs ys : List A) → n ≤ length xs → take n (xs ++ ys) ≡ take n xs
  take-append_le zero xs ys h = refl
  take-append_le (suc n) [] ys h = absurd (omega arith)
  take-append_le (suc n) (x ∷ xs) ys h = ap (◌∷◌ x) (take-append_le n xs ys (omega arith))

  take-append_add : (xs ys : List A) (n : ℕ) → take (length xs + n) (xs ++ ys) ≡ xs ++ take n ys
  take-append_add [] ys n = ap (λ k. take k ys) add_zero
    where
      add_zero : 0 + n ≡ n
      add_zero = omega arith
  take-append_add (x ∷ xs) ys n =
      ap (λ k. take k (x ∷ (xs ++ ys))) shift ∙ ap (◌∷◌ x) (take-append_add xs ys n)
    where
      shift : suc (length xs) + n ≡ suc (length xs + n)
      shift = omega arith

  -- Fronts of two lists, the second's empty unless the first's is all of it.
  take_two :
      (s r : ℕ) (xs ys : List A)
      → s ≤ length xs
      → (r ≡ 0) ⊎ (s ≡ length xs)
      → take s xs ++ take r ys ≡ take (s + r) (xs ++ ys)
  take_two s r xs ys h (inl e) = rw e (
      append-nil (take s xs)
      ∙ sym (take-append_le s xs ys h)
      ∙ ap (λ k. take k (xs ++ ys)) (sym (add-zero s)))
  take_two s r xs ys h (inr e) = rw e (
      ap (λ (zs : List A). zs ++ take r ys) (take_of_length_le (length xs) xs (omega arith))
      ∙ sym (take-append_add xs ys r))

module _ (lib : TxLib) (doc : Documented lib) where
  burst-le : (b : TxBuffer) (ps : List Ptr) → burst lib b ps ≤ length ps
  unfolding burst
  burst-le b [] = omega arith
  burst-le b (p ∷ ps) =
      omega (arith, doc.burst_le b.port_id b.queue_id (p ∷ ps) (length (p ∷ ps) % u16_size))

  bursts-bounds :
      (b : TxBuffer) (xs ys : List Ptr)
      → let (s, r) = bursts lib b xs ys in
        (s ≤ length xs) × (r ≤ length ys) × ((r ≡ 0) ⊎ (s ≡ length xs))
  unfolding bursts
  bursts-bounds b xs ys = ground (arith, burst-le b xs, burst-le b ys)

  -- The packets that the NIC took, and then those that still wait, are the queue as it was.
  pub transmit-order :
      (cut : ℕ) (b : TxBuffer)
      → length b.mbufs < 65536
      → let (sent, b') = transmit lib cut b in sent ++ b'.mbufs ≡ b.mbufs
  unfolding transmit
  transmit-order cut b h =
      let msg1 = take cut b.mbufs in
      let msg2 = drop cut b.mbufs in
      let (s, r) = bursts lib b msg1 msg2 in
      let (n1, n2, two) = bursts-bounds b msg1 msg2 in
      let room : s + r < 65536 =
        omega (arith, n1, n2, length-take cut b.mbufs, length-drop cut b.mbufs) in
      let whole : add_u16 s r ≡ s + r = omega (arith, room) in
      ap₂ ◌++◌ (take_two s r msg1 msg2 n1 two ∙ ap (take (s + r)) (take-append-drop cut b.mbufs))
        (ap (λ (k : ℕ). drop k b.mbufs) whole)
      ∙ take-append-drop (s + r) b.mbufs

  buffer-queued :
      (cut : ℕ) (m : TxMbuf) (b queued : TxBuffer) (sent : List Ptr) (b' : TxBuffer)
      → enqueue lib m b ≡ ok queued
      → buffer lib cut m b ≡ ok (sent, b')
      → transmit lib cut queued ≡ (sent, b')
  unfolding buffer
  buffer-queued cut m b queued sent b' e q = ground arith

  -- A call of `buffer` that succeeds, on a queue that with the new packet holds fewer than 65536
  -- entries: what went to the NIC, followed by what waits behind the call, is the queue with the new
  -- packet. So packets are sent in their order, none twice, and none is lost.
  pub buffer-order :
      (cut : ℕ) (m : TxMbuf) (b queued : TxBuffer) (sent : List Ptr) (b' : TxBuffer)
      → enqueue lib m b ≡ ok queued
      → length queued.mbufs < 65536
      → buffer lib cut m b ≡ ok (sent, b')
      → sent ++ b'.mbufs ≡ queued.mbufs
  buffer-order cut m b queued sent b' e h q =
      let same : transmit lib cut queued ≡ (sent, b') = buffer-queued cut m b queued sent b' e q in
      ap (λ (x : List Ptr × TxBuffer). x.0 ++ x.1.mbufs) (sym same) ∙ transmit-order cut queued h
