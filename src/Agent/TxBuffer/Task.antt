-- ===== src/Agent/TxBuffer/Task.antt =====
-- src/agent.rs: the task that `spawn_new_task` spawns for a queue, which buffers what comes in its channel.
use async_dpdk.Base.{
  ℕ, ◌+◌, ◌%◌, ◌≤◌, ◌<◌, ◌≡◌, ◌≢◌, refl, sym, ap, ap₂, ◌∙◌, ◌⊎◌, inl, inr, subst, List, [], ◌∷◌,
  ◌++◌, append_assoc, append-nil, map, length, length-append, length-take, length-drop, take, drop,
  take_of_length_le, drop_of_length_le, take-append-drop, All, some, u16_size, add_u16, arith,
}
use native.Mathlib.Decide.{dec_lt}
use async_dpdk.Errno.{no_buf, Result, ok, err, panicked, ◌>>=◌}
use async_dpdk.Agent.TxBuffer.{
  Ptr, TxMbuf, TxLib, Documented, TxBuffer, burst, bursts, transmit, buffer,
}
use async_dpdk.Agent.TxBuffer.Order.{transmit-order}
use async_dpdk.Agent.TxBuffer.Capacity.{enqueue_short}

-- A packet in the channel, with the place at which the storage of the queue is split when it comes.
abbrev pub Item : Type 0
Item = ℕ × TxMbuf

-- What the loop gave, what the NIC took in all, and the queue at the end.
abbrev pub Outcome : Type 0
Outcome = Result (Unit {0}) × List Ptr × TxBuffer

-- The packets that the NIC took before the rest of the loop.
abbrev before : List Ptr → Outcome → Outcome
before sent (r, out, b) = (r, sent ++ out, b)

module _ (lib : TxLib) where
  -- The loop, until the channel is closed or a call of `buffer` fails.
  unfoldable pub send_task : List Item → TxBuffer → Outcome
  send_task [] b = (ok tt, [], b)
  send_task ((cut, m) ∷ js) b = elim (buffer lib cut m b) [
    | ok (sent, b') ↦ before sent (send_task js b')
    | err e ↦ (err e, [], b)
    | panicked ↦ (panicked, [], b)
  ]

abbrev pub ptrs : List Item → List Ptr
ptrs = map (λ j. some j.1.ptr)

-- The queue with one more packet.
abbrev queue_of : TxMbuf → TxBuffer → TxBuffer
queue_of m b = record b { mbufs = b.mbufs ++ some m.ptr ∷ [] }

module _ (lib : TxLib) where
  -- A step of the loop by what `enqueue` gives.
  abbrev behind : ℕ → List Item → TxBuffer → Result TxBuffer → Outcome
  behind cut js b r = elim (r >>= λ q. ok (transmit lib cut q)) [
    | ok (sent, b') ↦ before sent (send_task lib js b')
    | err e ↦ (err e, [], b)
    | panicked ↦ (panicked, [], b)
  ]

  send_task-fits :
      (cut : ℕ) (m : TxMbuf) (js : List Item) (b : TxBuffer)
      → m.pkt_len < lib.mtu
      → length b.mbufs ≤ 1024
      → let (sent, b') = transmit lib cut (queue_of m b) in
        send_task lib ((cut, m) ∷ js) b ≡ before sent (send_task lib js b')
  unfolding send_task buffer
  send_task-fits cut m js b s h = ap (behind cut js b) ((enqueue_short lib m b s).0 h).0

  send_task-full :
      (cut : ℕ) (m : TxMbuf) (js : List Item) (b : TxBuffer)
      → m.pkt_len < lib.mtu
      → 1024 < length b.mbufs
      → send_task lib ((cut, m) ∷ js) b ≡ (err no_buf, [], b)
  unfolding send_task buffer
  send_task-full cut m js b s h = ap (behind cut js b) ((enqueue_short lib m b s).1 h)

  -- The packets `done` were queued and those in `left` were not: the loop ended with the channel, or
  -- with `NoBuf` on a full queue.
  abbrev Ends : List Item → TxBuffer → Outcome → Type 0
  Ends js b (r, out, b') =
      (done : List Item) × (left : List Item) × (js ≡ done ++ left)
      × (out ++ b'.mbufs ≡ b.mbufs ++ ptrs done)
      × (((r ≡ ok tt) × (left ≡ [])) ⊎ ((r ≡ err no_buf) × (left ≢ []) × (length b'.mbufs ≡ 1025)))

  -- A NIC that always takes all that it is offered.
  abbrev pub IsWilling : Type 0
  IsWilling = (port queue : ℕ) (ps : List Ptr) (n : ℕ) → lib.tx_burst port queue ps n ≡ n

  burst_all :
      (b : TxBuffer) (ps : List Ptr) → IsWilling → length ps < 65536 → burst lib b ps ≡ length ps
  unfolding burst
  burst_all b [] w h = refl
  burst_all b (p ∷ ps) w h =
      w b.port_id b.queue_id (p ∷ ps) (length (p ∷ ps) % u16_size) ∙ omega arith

  bursts_all :
      (b : TxBuffer) (xs ys : List Ptr)
      → IsWilling
      → 0 < length xs
      → length xs + length ys < 65536
      → bursts lib b xs ys ≡ (length xs, length ys)
  unfolding bursts
  bursts_all b xs ys w n h =
      ground (arith, burst_all b xs w (omega arith), burst_all b ys w (omega arith))

  transmit_all :
      (cut : ℕ) (b : TxBuffer)
      → IsWilling
      → 0 < cut
      → 0 < length b.mbufs
      → length b.mbufs < 65536
      → transmit lib cut b ≡ (b.mbufs, record b { mbufs = [] })
  unfolding transmit
  transmit_all cut b w n k h =
      let xs = take cut b.mbufs in
      let ys = drop cut b.mbufs in
      let e =
        bursts_all b xs ys w (omega (arith, length-take cut b.mbufs))
          (omega (arith, length-take cut b.mbufs, length-drop cut b.mbufs)) in
      let m : add_u16 (length xs) (length ys) ≡ length b.mbufs =
        omega (arith, length-take cut b.mbufs, length-drop cut b.mbufs) in
      ap
        (λ (sr : ℕ × ℕ).
          (take sr.0 xs ++ take sr.1 ys, record b { mbufs = drop (add_u16 sr.0 sr.1) b.mbufs }))
        e
      ∙ ap₂ (λ (out rest : List Ptr). (out, record b { mbufs = rest }))
          (ap₂ ◌++◌ (take_of_length_le (length xs) xs (omega arith))
              (take_of_length_le (length ys) ys (omega arith))
            ∙ take-append-drop cut b.mbufs)
          (ap (λ (n : ℕ). drop n b.mbufs) m
            ∙ drop_of_length_le (length b.mbufs) b.mbufs (omega arith))

  -- On a NIC that takes all that it is offered, the task of an empty queue sends every packet that comes,
  -- all shorter than the MTU, at once and in their order, and its queue is empty when the channel
  -- closes. The first of the two slices of a queue's storage is empty only for an empty queue.
  pub send_task_drains :
      (js : List Item) (b : TxBuffer)
      → IsWilling
      → All (λ j. (0 < j.0) × (j.1.pkt_len < lib.mtu)) js
      → b.mbufs ≡ []
      → send_task lib js b ≡ (ok tt, ptrs js, b)
  unfolding send_task
  send_task_drains [] b w s e = refl
  send_task_drains ((cut, m) ∷ js) b w s e =
      let one : b.mbufs ++ some m.ptr ∷ [] ≡ some m.ptr ∷ [] =
        ap (λ (xs : List Ptr). xs ++ some m.ptr ∷ []) e in
      let gone : record (queue_of m b) { mbufs = [] } ≡ b =
        ap (λ (xs : List Ptr). record b { mbufs = xs }) (sym e) in
      let t =
        transmit_all cut (queue_of m b) w s.0.0 (omega (arith, ap length one))
          (omega (arith, ap length one)) in
      send_task-fits cut m js b s.0.1 (omega (arith, ap length e))
      ∙ ap (λ (x : List Ptr × TxBuffer). before x.0 (send_task lib js x.1))
          (t ∙ ap₂ (λ (out : List Ptr) (q : TxBuffer). (out, q)) one gone)
      ∙ ap (before (some m.ptr ∷ [])) (send_task_drains js b w s.1 e)

  module _ (doc : Documented lib) where
    Ends-before :
        (cut : ℕ) (m : TxMbuf) (js : List Item) (b : TxBuffer) (o : Outcome)
        → length b.mbufs ≤ 1024
        → let (sent, b') = transmit lib cut (queue_of m b) in
          Ends js b' o → Ends ((cut, m) ∷ js) b (before sent o)
    Ends-before cut m js b (r, out, b2) h (done, left, e, q, f) =
        let (sent, b') = transmit lib cut (queue_of m b) in
        let t =
          transmit-order lib doc cut (queue_of m b)
            (omega (arith, length-append b.mbufs (some m.ptr ∷ []))) in
        (
          (cut, m) ∷ done,
          left,
          ap (◌∷◌ (cut, m)) e,
          append_assoc sent out b2.mbufs
              ∙ ap (λ (xs : List Ptr). sent ++ xs) q
              ∙ sym (append_assoc sent b'.mbufs (ptrs done))
              ∙ ap (λ (xs : List Ptr). xs ++ ptrs done) t
              ∙ append_assoc b.mbufs (some m.ptr ∷ []) (ptrs done),
          f,
        )

    -- The task of a queue on packets shorter than the MTU, from a queue with at most 1025 entries: what the
    -- NIC took in all, followed by what waits at the end, is the queue and then the packets that came,
    -- in their order, none lost and none twice. The task ends with its channel, or with `NoBuf` at a
    -- packet that comes when 1025 entries wait, with that packet and those behind it not queued.
    pub send_task-order :
        (js : List Item) (b : TxBuffer)
        → All (λ j. j.1.pkt_len < lib.mtu) js
        → length b.mbufs ≤ 1025
        → let (r, out, b') = send_task lib js b in
          (done : List Item) × (left : List Item) × (js ≡ done ++ left)
          × (out ++ b'.mbufs ≡ b.mbufs ++ ptrs done)
          × (((r ≡ ok tt) × (left ≡ []))
              ⊎ ((r ≡ err no_buf) × (left ≢ []) × (length b'.mbufs ≡ 1025)))
    unfolding send_task
    send_task-order [] b s h = ([], [], refl, sym (append-nil b.mbufs), inl (refl, refl))
    send_task-order ((cut, m) ∷ js) b s h = elim (dec_lt 1024 (length b.mbufs)) [
      | yes k ↦
          subst (Ends ((cut, m) ∷ js) b) (sym (send_task-full cut m js b s.0 k))
            ([], (cut, m) ∷ js, refl, sym (append-nil b.mbufs), inr (refl, (λ q. cc), omega arith))
      | no k ↦
          let (sent, b') = transmit lib cut (queue_of m b) in
          let t =
            transmit-order lib doc cut (queue_of m b)
              (omega (arith, length-append b.mbufs (some m.ptr ∷ []))) in
          let small : length b'.mbufs ≤ 1025 = omega (
            arith,
            ap length t,
            length-append sent b'.mbufs,
            length-append b.mbufs (some m.ptr ∷ []),
          ) in
          subst (Ends ((cut, m) ∷ js) b) (sym (send_task-fits cut m js b s.0 (omega arith))) (
            Ends-before cut m js b (send_task lib js b') (omega arith)
              (send_task-order js b' s.1 small))
    ]
