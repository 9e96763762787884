-- ===== src/Agent/Thread/Handles.antt =====
-- src/agent.rs: the handles of an `RxAgent`, and its drop.
use async_dpdk.Base.{
  ℕ, ◌+◌, ◌≤◌, replicate, ◌≡◌, refl, sym, ap, ◌∙◌, Bool, true, false, Bool-cases, Option, inl, inr,
  List, [], ◌∷◌, ℤ, subst, if◌then◌else◌, arith,
}
use async_dpdk.Errno.{poisoned, Result, ok, err, panicked}
use async_dpdk.Proto.{Ptypes}
use async_dpdk.Socket.{PortTable}
use async_dpdk.Mbuf.{Pktmbuf}
use async_dpdk.Mbuf.Reading.{Parsed, parsed, ignored, out_of_bounds}
use async_dpdk.Agent.Registry.{Queue}
use async_dpdk.Agent.Frames.{EtherTypes, Reassembly}
use async_dpdk.Agent.Polling.{Rx}
use async_dpdk.Agent.Thread.Lifetime.{make_tables-cases}
use async_dpdk.Agent.Thread.Stopping.{quiet_turns}
use async_dpdk.Agent.Thread.{
  Dpdk, Thread, spawned, polling, ended, broken, RxThread, Turn, polls, registers, unregisters,
  stops, drops, start, drop_handle, make_tables, finish, after_round, poll, thread_turn, run,
}

-- The handles of the device and of the thread, which has one until it ends.
abbrev of_device : Bool → ℕ
of_device true = 1
of_device false = 0

abbrev of_thread : Thread → ℕ
of_thread spawned = 1
of_thread (polling t r) = 1
of_thread (ended x) = 0
of_thread broken = 1

module _ {Bytes : Type 0} where
  abbrev Counted : RxThread Bytes → Type 0
  Counted s = s.handles ≡ of_device s.held + of_thread s.thread

  finish-Counted :
      (t r : ℕ) (x : Result (Unit {0})) (s : RxThread Bytes)
      → s.handles ≡ of_device s.held + 1
      → Counted (finish t r x s)
  finish-Counted t r x s c = omega arith

  make_tables-Counted :
      (dpdk : Dpdk) (i : ℤ) (s : RxThread Bytes)
      → s.handles ≡ of_device s.held + 1
      → Counted (make_tables dpdk i s)
  make_tables-Counted dpdk i s c = elim (make_tables-cases dpdk i s) [
    | inl e ↦ subst Counted (sym e) (omega arith)
    | inr (t, r, e) ↦ subst Counted (sym e) c
  ]

  after_round-Counted :
      (t r : ℕ) (s : RxThread Bytes) (x : Parsed (Result (Unit {0})) × Rx Bytes)
      → s.thread ≡ polling t r
      → s.handles ≡ of_device s.held + 1
      → Counted (after_round t r s x)
  after_round-Counted t r s (parsed (ok _), w) h c =
      c ∙ ap (λ n. of_device s.held + of_thread n) (sym h)
  after_round-Counted t r s (parsed (err e), w) h c =
      finish-Counted t r (err e) (record s { world = w }) c
  after_round-Counted t r s (parsed panicked, w) h c =
      finish-Counted t r panicked (record s { world = w }) c
  after_round-Counted t r s (ignored, w) h c = c
  after_round-Counted t r s (out_of_bounds, w) h c = c

  if-Counted :
      (b : Bool) (x y : RxThread Bytes) → Counted x → Counted y → Counted (if b then x else y)
  if-Counted true x y p q = p
  if-Counted false x y p q = q

  drop_handle-Counted :
      (b : Bool) (s : RxThread Bytes)
      → s.held ≡ b
      → Counted s
      → Counted (if b then drop_handle (record s { held = false }) else s)
  drop_handle-Counted true s h c = omega (arith, c, ap of_device h)
  drop_handle-Counted false s h c = c

  module _ (dpdk : Dpdk) (socket_id : ℤ) (burst : ℕ → Queue → List (Option ℕ)) (gone : ℕ → Bool)
      (types : EtherTypes) (lib : Pktmbuf) (frag : Reassembly) (c : Ptypes)
      (to_bytes : List ℕ → Bytes) (fuel : ℕ) (ports : PortTable) where
    abbrev turn_of : RxThread Bytes → RxThread Bytes
    turn_of = thread_turn dpdk socket_id burst gone types lib frag c to_bytes fuel ports

    abbrev run_of : List Turn → RxThread Bytes → RxThread Bytes
    run_of = run dpdk socket_id burst gone types lib frag c to_bytes fuel ports

    poll-Counted :
        (t r : ℕ) (s : RxThread Bytes)
        → s.thread ≡ polling t r
        → s.handles ≡ of_device s.held + 1
        → Counted (poll dpdk socket_id burst gone types lib frag c to_bytes fuel ports t r s)
    unfolding poll
    poll-Counted t r s h v =
        if-Counted s.agent.running _ _
          (if-Counted s.agent.is_poisoned _ _ (finish-Counted t r (err poisoned) s v)
            (after_round-Counted t r s _ h v))
          (finish-Counted t r (ok tt) s v)

    thread_turn-Counted :
        (th : Thread) (s : RxThread Bytes) → s.thread ≡ th → Counted s → Counted (turn_of s)
    unfolding thread_turn
    thread_turn-Counted spawned s h v =
        let q : turn_of s ≡ make_tables dpdk socket_id s = ground arith in
        subst Counted (sym q)
          (make_tables-Counted dpdk socket_id s (omega (arith, v, ap of_thread h)))
    thread_turn-Counted (polling t r) s h v =
        let q : turn_of s
            ≡ poll dpdk socket_id burst gone types lib frag c to_bytes fuel ports t r s =
          ground arith in
        subst Counted (sym q) (poll-Counted t r s h (omega (arith, v, ap of_thread h)))
    thread_turn-Counted (ended x) s h v =
        let q : turn_of s ≡ s = ground arith in subst Counted (sym q) v
    thread_turn-Counted broken s h v =
        let q : turn_of s ≡ s = ground arith in subst Counted (sym q) v

    run-Counted : (ts : List Turn) (s : RxThread Bytes) → Counted s → Counted (run_of ts s)
    run-Counted [] s v = v
    run-Counted (polls ∷ ts) s v =
        run-Counted ts (turn_of s) (thread_turn-Counted s.thread s refl v)
    run-Counted (registers q ∷ ts) s v = run-Counted ts _ (if-Counted s.held _ s v v)
    run-Counted (unregisters q ∷ ts) s v = run-Counted ts _ (if-Counted s.held _ s v v)
    run-Counted (stops ∷ ts) s v = run-Counted ts _ (if-Counted s.held _ s v v)
    run-Counted (drops ∷ ts) s v = run-Counted ts _ (drop_handle-Counted s.held s refl v)

    -- The drop of the device's handle leaves the agent of a polling thread alone.
    drops-running :
        (t r : ℕ) (s : RxThread Bytes)
        → s.thread ≡ polling t r
        → Counted s
        → (s' : RxThread Bytes) × (run_of (drops ∷ []) s ≡ s')
          × (s'.thread ≡ s.thread)
          × (s'.agent ≡ s.agent)
          × (s'.round ≡ s.round)
    drops-running t r s h v = elim (Bool-cases s.held) [
      | inl e ↦
          let two : s.handles ≡ 2 = omega (arith, v, ap of_device e, ap of_thread h) in
          (drop_handle (record s { held = false }), ground arith, refl, ground arith, refl)
      | inr e ↦ (s, ground arith, refl, refl, refl)
    ]

    -- After any turns of the thread of an `RxAgent` and calls on the agent since its start, let the
    -- thread poll, the flag of the agent be set and its lock not be poisoned, and let the queues
    -- receive nothing from then on. When the device then drops its handle, without a `stop`, the
    -- thread's own handle is left, so the agent is not dropped: the thread is still polling after any
    -- number of turns, and has polled in each of them.
    pub drop_polls_on :
        (ts : List Turn) (w : Rx Bytes) (n t r : ℕ)
        → (run_of ts (start w)).thread ≡ polling t r
        → (run_of ts (start w)).agent.running ≡ true
        → (run_of ts (start w)).agent.is_poisoned ≡ false
        → ((k : ℕ) (q : Queue) → (run_of ts (start w)).round ≤ k → burst k q ≡ [])
        → ((run_of (drops ∷ replicate n polls) (run_of ts (start w))).thread ≡ polling t r)
          × ((run_of (drops ∷ replicate n polls) (run_of ts (start w))).round
              ≡ (run_of ts (start w)).round + n)
    drop_polls_on ts w n t r h u p e =
        let s = run_of ts (start w) in
        let (s', q, th, a, m) = drops-running t r s h (run-Counted ts (start w) refl) in
        let (x, y) =
          quiet_turns dpdk socket_id burst gone types lib frag c to_bytes fuel ports n t r s'
            (th ∙ h) (ap (λ b. b.running) a ∙ u) (ap (λ b. b.is_poisoned) a ∙ p)
            (λ k b l. e k b (omega (arith, l, m))) in
        (
          ap (λ z. (run_of (replicate n polls) z).thread) q ∙ x,
          ap (λ z. (run_of (replicate n polls) z).round) q ∙ y ∙ ap (λ k. k + n) m,
        )
