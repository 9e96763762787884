-- ===== src/Agent/Thread/Lifetime.antt =====
-- src/agent.rs: what the thread of an `RxAgent` holds.
use async_dpdk.Base.{
  ℕ, ◌≡◌, ◌≢◌, refl, sym, ap, ◌∙◌, Bool, true, false, Option, Option-cases, inl, inr, ◌⊎◌, List, [],
  ◌∷◌, ==-refl, ℤ, subst, if◌then◌else◌, arith,
}
use async_dpdk.Errno.{no_mem, Result, ok, err, panicked}
use async_dpdk.Proto.{Ptypes}
use async_dpdk.Socket.{PortTable}
use async_dpdk.Mbuf.{Pktmbuf}
use async_dpdk.Mbuf.Reading.{Parsed, parsed, ignored, out_of_bounds}
use async_dpdk.Agent.Registry.{Queue}
use async_dpdk.Agent.Frames.{EtherTypes, Reassembly}
use async_dpdk.Agent.Polling.{Rx}
use async_dpdk.Agent.Thread.{
  Dpdk, Thread, spawned, polling, ended, broken, RxThread, Turn, polls, registers, unregisters,
  stops, drops, give_back, start, drop_handle, make_tables, finish, after_round, poll, thread_turn,
  run,
}

-- The tables and the death rows of a thread.
abbrev pub tables_of : Thread → List ℕ
tables_of spawned = []
tables_of (polling t r) = t ∷ []
tables_of (ended x) = []
tables_of broken = []

abbrev pub rows_of : Thread → List ℕ
rows_of spawned = []
rows_of (polling t r) = r ∷ []
rows_of (ended x) = []
rows_of broken = []

give_back_only : (x : ℕ) (xs : List ℕ) → xs ≡ x ∷ [] → give_back x xs ≡ []
give_back_only x xs e = ap (give_back x) e ∙ ground (arith, ==-refl x)

module _ {Bytes : Type 0} where
  -- What DPDK has handed out is what the thread has.
  abbrev pub Holds : RxThread Bytes → Type 0
  Holds s = s.thread ≢ broken → (s.tables ≡ tables_of s.thread) × (s.rows ≡ rows_of s.thread)

  finish-Holds :
      (t r : ℕ) (x : Result (Unit {0})) (s : RxThread Bytes)
      → s.tables ≡ t ∷ []
      → s.rows ≡ r ∷ []
      → Holds (finish t r x s)
  finish-Holds t r x s a b n = (give_back_only t s.tables a, give_back_only r s.rows b)

  -- Both tables are made, or none is left.
  pub make_tables-cases :
      (dpdk : Dpdk) (i : ℤ) (s : RxThread Bytes)
      → (make_tables dpdk i s ≡ drop_handle (record s { thread = ended (err no_mem) }))
        ⊎ ((t r : ℕ) × (make_tables dpdk i s
              ≡ record s { thread = polling t r; tables = t ∷ s.tables; rows = r ∷ s.rows }))
  unfolding make_tables
  make_tables-cases dpdk i s =
      elim (Option-cases (dpdk.frag_table_create 128 16 2048 dpdk.tsc_hz i)) [
        | inl e ↦ inl (ground arith)
        | inr (t, e) ↦ elim (Option-cases (dpdk.zmalloc_socket dpdk.row_size i)) [
          | inl k ↦ inl (ground (arith, ==-refl t))
          | inr (r, k) ↦ inr (t, r, ground arith)
        ]
      ]

  make_tables-Holds :
      (dpdk : Dpdk) (i : ℤ) (s : RxThread Bytes)
      → s.tables ≡ []
      → s.rows ≡ []
      → Holds (make_tables dpdk i s)
  make_tables-Holds dpdk i s a b = elim (make_tables-cases dpdk i s) [
    | inl e ↦ subst Holds (sym e) (λ n. (a, b))
    | inr (t, r, e) ↦ subst Holds (sym e) (λ n. (ap (◌∷◌ t) a, ap (◌∷◌ r) b))
  ]

  after_round-Holds :
      (t r : ℕ) (s : RxThread Bytes) (x : Parsed (Result (Unit {0})) × Rx Bytes)
      → s.thread ≡ polling t r
      → s.tables ≡ t ∷ []
      → s.rows ≡ r ∷ []
      → Holds (after_round t r s x)
  after_round-Holds t r s (parsed (ok _), w) h a b n =
      (a ∙ ap tables_of (sym h), b ∙ ap rows_of (sym h))
  after_round-Holds t r s (parsed (err e), w) h a b n =
      finish-Holds t r (err e) (record s { world = w }) a b n
  after_round-Holds t r s (parsed panicked, w) h a b n =
      finish-Holds t r panicked (record s { world = w }) a b n
  after_round-Holds t r s (ignored, w) h a b n = absurd (n refl)
  after_round-Holds t r s (out_of_bounds, w) h a b n = absurd (n refl)

  if-Holds : (b : Bool) (x y : RxThread Bytes) → Holds x → Holds y → Holds (if b then x else y)
  if-Holds true x y p q = p
  if-Holds false x y p q = q

  module _ (dpdk : Dpdk) (socket_id : ℤ) (burst : ℕ → Queue → List (Option ℕ)) (gone : ℕ → Bool)
      (types : EtherTypes) (lib : Pktmbuf) (frag : Reassembly) (c : Ptypes)
      (to_bytes : List ℕ → Bytes) (fuel : ℕ) (ports : PortTable) where
    abbrev poll_of : ℕ → ℕ → RxThread Bytes → RxThread Bytes
    poll_of = poll dpdk socket_id burst gone types lib frag c to_bytes fuel ports

    abbrev turn_of : RxThread Bytes → RxThread Bytes
    turn_of = thread_turn dpdk socket_id burst gone types lib frag c to_bytes fuel ports

    abbrev run_of : List Turn → RxThread Bytes → RxThread Bytes
    run_of = run dpdk socket_id burst gone types lib frag c to_bytes fuel ports

    poll-Holds :
        (t r : ℕ) (s : RxThread Bytes) → s.thread ≡ polling t r → Holds s → Holds (poll_of t r s)
    unfolding poll
    poll-Holds t r s h v =
        let (a, b) = v (λ e. cc (h, e)) in
        let a' = a ∙ ap tables_of h in
        let b' = b ∙ ap rows_of h in
        if-Holds s.agent.running _ _
          (if-Holds s.agent.is_poisoned _ _ (finish-Holds t r _ s a' b')
            (after_round-Holds t r s _ h a' b'))
          (finish-Holds t r (ok tt) s a' b')

    turn-polling :
        (t r : ℕ) (s : RxThread Bytes) → s.thread ≡ polling t r → turn_of s ≡ poll_of t r s
    unfolding thread_turn
    turn-polling t r s h = ground arith

    thread_turn-Holds :
        (th : Thread) (s : RxThread Bytes) → s.thread ≡ th → Holds s → Holds (turn_of s)
    unfolding thread_turn
    thread_turn-Holds spawned s h v =
        let (a, b) = v (λ e. cc (h, e)) in
        let q : turn_of s ≡ make_tables dpdk socket_id s = ground arith in
        subst Holds (sym q)
          (make_tables-Holds dpdk socket_id s (a ∙ ap tables_of h) (b ∙ ap rows_of h))
    thread_turn-Holds (polling t r) s h v =
        subst Holds (sym (turn-polling t r s h)) (poll-Holds t r s h v)
    thread_turn-Holds (ended x) s h v =
        let q : turn_of s ≡ s = ground arith in subst Holds (sym q) v
    thread_turn-Holds broken s h v = let q : turn_of s ≡ s = ground arith in subst Holds (sym q) v

    run-Holds : (ts : List Turn) (s : RxThread Bytes) → Holds s → Holds (run_of ts s)
    run-Holds [] s v = v
    run-Holds (polls ∷ ts) s v = run-Holds ts (turn_of s) (thread_turn-Holds s.thread s refl v)
    run-Holds (registers q ∷ ts) s v = run-Holds ts _ (if-Holds s.held _ s v v)
    run-Holds (unregisters q ∷ ts) s v = run-Holds ts _ (if-Holds s.held _ s v v)
    run-Holds (stops ∷ ts) s v = run-Holds ts _ (if-Holds s.held _ s v v)
    run-Holds (drops ∷ ts) s v = run-Holds ts _ (if-Holds s.held _ s v v)

    -- After any turns of the thread and calls on its agent, unless the thread read behind the data of an
    -- mbuf, what DPDK has handed out is what the thread has: a table and a death row while it polls, and
    -- nothing before it starts and when it has ended, with an error or without.
    pub run-tables_of :
        (ts : List Turn) (w : Rx Bytes)
        → (run_of ts (start w)).thread ≢ broken
        → ((run_of ts (start w)).tables ≡ tables_of (run_of ts (start w)).thread)
          × ((run_of ts (start w)).rows ≡ rows_of (run_of ts (start w)).thread)
    run-tables_of ts w = run-Holds ts (start w) (λ n. (refl, refl))
