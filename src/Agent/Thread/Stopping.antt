-- ===== src/Agent/Thread/Stopping.antt =====
-- src/agent.rs: the end of the thread of an `RxAgent`.
use async_dpdk.Base.{
  ℕ, zero, suc, ◌+◌, ◌≤◌, replicate, ◌≡◌, ◌≢◌, refl, sym, ap, ◌∙◌, Bool, true, false, Option, none,
  inl, inr, List, [], ◌∷◌, map, ℤ, subst, arith,
}
use async_dpdk.Errno.{no_mem, Result, ok, err}
use async_dpdk.Proto.{Ptypes}
use async_dpdk.Socket.{PortTable}
use async_dpdk.Mbuf.{Pktmbuf}
use async_dpdk.Mbuf.Reading.{parsed}
use async_dpdk.Agent.Registry.{
  Queue, RxAgent, rx_register, rx_unregister, rx_start, rx_stop, polled,
}
use async_dpdk.Agent.Frames.{EtherTypes, Reassembly}
use async_dpdk.Agent.Polling.{Rx, poll_burst, poll_round}
use async_dpdk.Agent.Thread.Lifetime.{make_tables-cases}
use async_dpdk.Agent.Thread.{
  Dpdk, Thread, spawned, polling, ended, broken, RxThread, Turn, polls, registers, unregisters,
  stops, drops, in_order, start, drop_handle, make_tables, poll, thread_turn, turn, run,
}

module _ {Bytes : Type 0} where
  module _ (dpdk : Dpdk) (socket_id : ℤ) (burst : ℕ → Queue → List (Option ℕ)) (gone : ℕ → Bool)
      (types : EtherTypes) (lib : Pktmbuf) (frag : Reassembly) (c : Ptypes)
      (to_bytes : List ℕ → Bytes) (fuel : ℕ) (ports : PortTable) where
    abbrev turn_of : RxThread Bytes → RxThread Bytes
    turn_of = thread_turn dpdk socket_id burst gone types lib frag c to_bytes fuel ports

    abbrev run_of : List Turn → RxThread Bytes → RxThread Bytes
    run_of = run dpdk socket_id burst gone types lib frag c to_bytes fuel ports

    abbrev turn_by : Turn → RxThread Bytes → RxThread Bytes
    turn_by = turn dpdk socket_id burst gone types lib frag c to_bytes fuel ports

    drop_handle_stopped :
        (s : RxThread Bytes) → s.agent.running ≡ false → (drop_handle s).agent ≡ s.agent
    drop_handle_stopped s n =
        let e : rx_stop s.agent ≡ s.agent = ap (λ b. record s.agent { running = b }) (sym n) in
        ground arith

    -- A turn of the thread of a stopped agent changes neither the agent nor the mailboxes.
    turn-spawned :
        (s : RxThread Bytes) → s.thread ≡ spawned → turn_of s ≡ make_tables dpdk socket_id s
    unfolding thread_turn
    turn-spawned s h = ground arith

    turn_stopped :
        (th : Thread) (s : RxThread Bytes)
        → s.thread ≡ th
        → s.agent.running ≡ false
        → ((turn_of s).agent ≡ s.agent) × ((turn_of s).world ≡ s.world)
    unfolding thread_turn poll
    turn_stopped spawned s h n = elim (make_tables-cases dpdk socket_id s) [
      | inl e ↦
          rw (turn-spawned s h ∙ e)
            (drop_handle_stopped (record s { thread = ended (err no_mem) }) n, refl)
      | inr (t, r, e) ↦ rw (turn-spawned s h ∙ e) (refl, refl)
    ]
    turn_stopped (polling t r) s h n =
        let e : rx_stop s.agent ≡ s.agent = ap (λ b. record s.agent { running = b }) (sym n) in
        (ground arith, ground arith)
    turn_stopped (ended x) s h n = (ground arith, ground arith)
    turn_stopped broken s h n = (ground arith, ground arith)

    call_stopped :
        (t : Turn) (s : RxThread Bytes)
        → s.agent.running ≡ false
        → ((turn_by t s).agent ≡ s.agent) × ((turn_by t s).world ≡ s.world)
    unfolding rx_register rx_unregister
    call_stopped polls s n = turn_stopped s.thread s refl n
    call_stopped (registers q) s n = (ground arith, ground arith)
    call_stopped (unregisters q) s n = (ground arith, ground arith)
    call_stopped stops s n =
        let e : rx_stop s.agent ≡ s.agent = ap (λ b. record s.agent { running = b }) (sym n) in
        (ground arith, ground arith)
    call_stopped drops s n =
        let e = drop_handle_stopped (record s { held = false }) n in (ground arith, ground arith)

    run_stopped :
        (ts : List Turn) (s : RxThread Bytes)
        → s.agent.running ≡ false
        → ((run_of ts s).agent ≡ s.agent) × ((run_of ts s).world ≡ s.world)
    run_stopped [] s n = (refl, refl)
    run_stopped (t ∷ ts) s n =
        let (a, w) = call_stopped t s n in
        let (b, v) = run_stopped ts (turn_by t s) (ap (λ (x : RxAgent). x.running) a ∙ n) in
        (b ∙ a, v ∙ w)

    poll_stopped :
        (t r : ℕ) (s : RxThread Bytes)
        → s.thread ≡ polling t r
        → s.agent.running ≡ false
        → (turn_of s).thread ≡ ended (ok tt)
    unfolding thread_turn poll
    poll_stopped t r s h n = ground arith

    turn_ended : (x : Result (Unit {0})) (s : RxThread Bytes) → s.thread ≡ ended x → turn_of s ≡ s
    unfolding thread_turn
    turn_ended x s h = ground arith

    made_stopped :
        (s : RxThread Bytes)
        → s.thread ≡ spawned
        → s.agent.running ≡ false
        → (x : Result (Unit {0})) × ((turn_of (turn_of s)).thread ≡ ended x)
    made_stopped s h n = elim (make_tables-cases dpdk socket_id s) [
      | inl e ↦
          let q = turn-spawned s h ∙ e in
          (
            err no_mem,
            ap (λ (z : RxThread Bytes). (turn_of z).thread) q
                ∙ ap (λ (z : RxThread Bytes). z.thread)
                    (turn_ended (err no_mem)
                      (drop_handle (record s { thread = ended (err no_mem) })) refl),
          )
      | inr (t, r, e) ↦ (
        ok tt,
        ap (λ (z : RxThread Bytes). (turn_of z).thread) (turn-spawned s h ∙ e)
            ∙ poll_stopped t r
                (record s { thread = polling t r; tables = t ∷ s.tables; rows = r ∷ s.rows }) refl
                n,
      )
    ]

    two_turns :
        (th : Thread) (s : RxThread Bytes)
        → s.thread ≡ th
        → th ≢ broken
        → s.agent.running ≡ false
        → (x : Result (Unit {0})) × ((turn_of (turn_of s)).thread ≡ ended x)
    two_turns spawned s h b n = made_stopped s h n
    two_turns (polling t r) s h b n =
        let e = poll_stopped t r s h n in
        (ok tt, ap (λ (z : RxThread Bytes). z.thread) (turn_ended (ok tt) (turn_of s) e) ∙ e)
    two_turns (ended x) s h b n =
        let e = turn_ended x s h in
        (x, ap (λ (z : RxThread Bytes). z.thread) (ap turn_of e ∙ e) ∙ h)
    two_turns broken s h b n = absurd (b refl)

    -- A thread that has not read behind the data of an mbuf, and a `stop` by the device that has
    -- its agent: whatever calls and turns follow, no mbuf, no mailbox and no channel changes and
    -- no queue is registered or unregistered; and after two turns the thread has ended.
    pub run-stops :
        (ts : List Turn) (s : RxThread Bytes)
        → s.held ≡ true
        → s.thread ≢ broken
        → ((run_of (stops ∷ ts) s).world ≡ s.world)
          × ((run_of (stops ∷ ts) s).agent ≡ rx_stop s.agent)
          × ((x : Result (Unit {0})) × ((run_of (stops ∷ polls ∷ polls ∷ []) s).thread ≡ ended x))
    run-stops ts s k b =
        let s1 : RxThread Bytes = record s { agent = rx_stop s.agent } in
        let q : turn_by stops s ≡ s1 = ground arith in
        let (a, w) = run_stopped ts s1 refl in
        subst
          (λ (z : RxThread Bytes).
            ((run_of ts z).world ≡ s.world)
            × ((run_of ts z).agent ≡ rx_stop s.agent)
            × ((x : Result (Unit {0})) × ((turn_of (turn_of z)).thread ≡ ended x)))
          (sym q) (w, a, two_turns s.thread s1 refl b refl)

    call_ended :
        (t : Turn) (x : Result (Unit {0})) (s : RxThread Bytes)
        → s.thread ≡ ended x
        → ((turn_by t s).thread ≡ ended x) × ((turn_by t s).world ≡ s.world)
    call_ended polls x s h =
        let e = turn_ended x s h in
        (ap (λ (z : RxThread Bytes). z.thread) e ∙ h, ap (λ (z : RxThread Bytes). z.world) e)
    call_ended (registers q) x s h = (ground arith, ground arith)
    call_ended (unregisters q) x s h = (ground arith, ground arith)
    call_ended stops x s h = (ground arith, ground arith)
    call_ended drops x s h = (ground arith, ground arith)

    run_ended :
        (ts : List Turn) (x : Result (Unit {0})) (s : RxThread Bytes)
        → s.thread ≡ ended x
        → ((run_of ts s).thread ≡ ended x) × ((run_of ts s).world ≡ s.world)
    run_ended [] x s h = (h, refl)
    run_ended (t ∷ ts) x s h =
        let (a, w) = call_ended t x s h in let (b, v) = run_ended ts x (turn_by t s) a in (b, v ∙ w)

    no_table :
        (w : Rx Bytes)
        → dpdk.frag_table_create 128 16 2048 dpdk.tsc_hz socket_id ≡ none
        → turn_of (start w) ≡ record (start w) { thread = ended (err no_mem); handles = 1 }
    unfolding thread_turn make_tables
    no_table w h = ground arith

    -- When the table of the reassembly cannot be made, the thread ends with `NoMem` at its first
    -- turn, and whatever calls and turns follow, it changes no mbuf and no mailbox; the agent
    -- counts as running, and `register` accepts a queue.
    pub register_unpolled :
        (q : Queue) (ts : List Turn) (w : Rx Bytes)
        → dpdk.frag_table_create 128 16 2048 dpdk.tsc_hz socket_id ≡ none
        → ((run_of (polls ∷ registers q ∷ ts) (start w)).thread ≡ ended (err no_mem))
          × ((run_of (polls ∷ registers q ∷ ts) (start w)).world ≡ w)
          × (rx_register q (run_of (polls ∷ []) (start w)).agent
              ≡ (ok tt, record rx_start { tasks = q ∷ [] }))
    unfolding rx_register polled
    register_unpolled q ts w h =
        let e = no_table w h in
        let (a, b) =
          run_ended (registers q ∷ ts) (err no_mem) (turn_of (start w))
            (ap (λ (z : RxThread Bytes). z.thread) e) in
        (
          a,
          b ∙ ap (λ (z : RxThread Bytes). z.world) e,
          ap (λ (z : RxThread Bytes). rx_register q z.agent) e,
        )

    poll_quiet :
        (qs : List Queue) (n : ℕ) (w : Rx Bytes)
        → ((q : Queue) → burst n q ≡ [])
        → poll_round gone types lib frag c to_bytes fuel ports (map (burst n) qs) w
          ≡ (parsed (ok tt), w)
    unfolding poll_round poll_burst
    poll_quiet [] n w h = refl
    poll_quiet (q ∷ qs) n w h = ground (arith, h q, poll_quiet qs n w h)

    quiet_turn :
        (t r : ℕ) (s : RxThread Bytes)
        → s.thread ≡ polling t r
        → s.agent.running ≡ true
        → s.agent.is_poisoned ≡ false
        → ((q : Queue) → burst s.round q ≡ [])
        → turn_of s ≡ record s { round = suc s.round }
    unfolding thread_turn poll
    quiet_turn t r s h u p e = ground (arith, poll_quiet (in_order s.agent.tasks) s.round s.world e)

    pub quiet_turns :
        (n t r : ℕ) (s : RxThread Bytes)
        → s.thread ≡ polling t r
        → s.agent.running ≡ true
        → s.agent.is_poisoned ≡ false
        → ((k : ℕ) (q : Queue) → s.round ≤ k → burst k q ≡ [])
        → ((run_of (replicate n polls) s).thread ≡ polling t r)
          × ((run_of (replicate n polls) s).round ≡ s.round + n)
    quiet_turns zero t r s h u p e = (h, omega arith)
    quiet_turns (suc n) t r s h u p e =
        let q = quiet_turn t r s h u p (λ q. e s.round q (omega arith)) in
        let s1 : RxThread Bytes = record s { round = suc s.round } in
        let (a, b) = quiet_turns n t r s1 h u p (λ k q l. e k q (omega (arith, l))) in
        (
          ap (λ (z : RxThread Bytes). (run_of (replicate n polls) z).thread) q ∙ a,
          ap (λ (z : RxThread Bytes). (run_of (replicate n polls) z).round) q ∙ b ∙ omega arith,
        )
