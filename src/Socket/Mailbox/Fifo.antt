-- ===== src/Socket/Mailbox/Fifo.antt =====
-- src/proto/socket.rs: packets leave a mailbox in the order in which they came.
use mathlib.Core.List.{map-append}
use async_dpdk.Base.{
  ℕ, ◌≡◌, refl, sym, ap, ◌∙◌, Bool, true, false, none, some, List, [], ◌∷◌, ◌++◌, map, append-nil,
  append_assoc, arith, Option-cases, ◌⊎◌, inl, inr,
}
use async_dpdk.Socket.Mailbox.{Mailbox, Delivery, recv, put, new_mailbox, recv_from_front}

module _ (Packet : Type 0) where
  -- The calls that reach one mailbox: the agent's `put`, with what is known of the channels at the
  -- time, and a socket's `recv`, with its new channel.
  pub data Call : Type 0 where
    puts : (ℕ → Bool) → Packet → Call
    recvs : ℕ → Call

module _ {Packet : Type 0} where
  -- A mailbox holds packets or a waiting receiver, never both.
  abbrev pub IsValid : Mailbox Packet → Type 0
  IsValid m = (m.received ≡ []) ⊎ (m.watcher ≡ none)

  -- What a call delivers, and the mailbox behind it.
  unfoldable pub step : Call Packet → Mailbox Packet → List (Delivery Packet) × Mailbox Packet
  unfolding put recv
  step (puts gone p) m = let (_, ds, m') = put gone p m in (ds, m')
  step (recvs ch) m = let (_, ds, m') = recv ch m in (ds, m')

  unfoldable pub run : List (Call Packet) → Mailbox Packet → List (Delivery Packet) × Mailbox Packet
  run [] m = ([], m)
  run (c ∷ cs) m = let (ds, m') = step c m in let (es, m'') = run cs m' in (ds ++ es, m'')

  -- The packets that the calls bring, in order.
  abbrev pub arrivals : List (Call Packet) → List Packet
  arrivals [] = []
  arrivals (puts gone p ∷ cs) = p ∷ arrivals cs
  arrivals (recvs ch ∷ cs) = arrivals cs

  -- No receiver was dropped before its packet came.
  abbrev pub Live : List (Call Packet) → Type 0
  Live [] = Unit {0}
  Live (puts gone p ∷ cs) = ((ch : ℕ) → gone ch ≡ false) × Live cs
  Live (recvs ch ∷ cs) = Live cs

  abbrev pub packets : List (Delivery Packet) → List Packet
  packets = map (λ d. d.packet)

  step_puts :
      (gone : ℕ → Bool) (p : Packet) (m : Mailbox Packet)
      → ((ch : ℕ) → gone ch ≡ false)
      → IsValid m
      → let (ds, m') = step (puts gone p) m in
        (packets ds ++ m'.received ≡ m.received ++ p ∷ []) × IsValid m'
  unfolding step
  step_puts gone p m live v = elim (Option-cases m.watcher) [
    | inl e ↦ ground arith
    | inr (ch, e) ↦ ground (arith, live ch)
  ]

  recv_front :
      (ch : ℕ) (ps : List Packet) (m : Mailbox Packet)
      → m.received ≡ ps
      → IsValid m
      → let (_, ds, m') = recv_from_front ch ps m in
        (packets ds ++ m'.received ≡ m.received) × IsValid m'
  recv_front ch [] m e v = ground arith
  recv_front ch (p ∷ ps) m e v = ground arith

  step_recvs :
      (ch : ℕ) (m : Mailbox Packet)
      → IsValid m
      → let (ds, m') = step (recvs ch) m in (packets ds ++ m'.received ≡ m.received) × IsValid m'
  unfolding step
  step_recvs ch m v = recv_front ch m.received m refl v

  join :
      (ds es : List (Delivery Packet)) (r r' z ys : List Packet)
      → packets ds ++ r ≡ z
      → packets es ++ r' ≡ r ++ ys
      → packets (ds ++ es) ++ r' ≡ z ++ ys
  join ds es r r' z ys e q =
      ap (λ (x : List Packet). x ++ r') (map-append (λ d. d.packet) ds es)
      ∙ append_assoc (packets ds) (packets es) r'
      ∙ ap (◌++◌ (packets ds)) q
      ∙ sym (append_assoc (packets ds) r ys)
      ∙ ap (λ (x : List Packet). x ++ ys) e

  -- Packets leave in the order in which they came, and none is lost or made up: for any calls in which
  -- no receiver is dropped while it waits, what went into the channels and then what the mailbox still
  -- holds is what it held before and then what arrived. It never holds a packet while one waits.
  pub run-fifo :
      (cs : List (Call Packet)) (m : Mailbox Packet)
      → Live cs
      → IsValid m
      → let (ds, m') = run cs m in
        (packets ds ++ m'.received ≡ m.received ++ arrivals cs) × IsValid m'
  unfolding run
  run-fifo [] m live v = (sym (append-nil m.received), v)
  run-fifo (puts gone p ∷ cs) m live v =
      let (ds, m') = step (puts gone p) m in
      let (e, w) = step_puts gone p m live.0 v in
      let (q, x) = run-fifo cs m' live.1 w in
      (
        join ds (run cs m').0 m'.received (run cs m').1.received _ (arrivals cs) e q
            ∙ append_assoc m.received (p ∷ []) (arrivals cs),
        x,
      )
  run-fifo (recvs ch ∷ cs) m live v =
      let (ds, m') = step (recvs ch) m in
      let (e, w) = step_recvs ch m v in
      let (q, x) = run-fifo cs m' live w in
      (join ds (run cs m').0 m'.received (run cs m').1.received _ (arrivals cs) e q, x)

  -- A receiver that is dropped while it waits, as when a call of `recv_from` is cancelled, takes the
  -- next packet with it: the packet is neither delivered to the next receiver nor kept.
  pub cancelled_recv_loses :
      (first second : ℕ) (p : Packet) (gone : ℕ → Bool)
      → gone first ≡ true
      → run (recvs first ∷ puts gone p ∷ recvs second ∷ []) new_mailbox
        ≡ ([], record { received = []; watcher = some second })
  unfolding run step
  cancelled_recv_loses first second p gone h = ground arith

  -- Of two receivers that wait at once, the later one gets the packet, and the first nothing.
  pub second_recv_displaces :
      (first second : ℕ) (p : Packet) (gone : ℕ → Bool)
      → gone second ≡ false
      → run (recvs first ∷ recvs second ∷ puts gone p ∷ []) new_mailbox
        ≡ (record { channel = second; packet = p } ∷ [], new_mailbox)
  unfolding run step
  second_recv_displaces first second p gone h = ground arith
