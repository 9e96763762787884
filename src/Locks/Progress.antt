-- ===== src/Locks/Progress.antt =====
-- src/proto/socket.rs, src/agent.rs, src/net_dev.rs, src/eal.rs and src/mempool.rs: no set of threads waits for locks for ever.
use async_dpdk.Base.{
  ℕ, zero, suc, ◌+◌, ◌≤◌, ◌<◌, ◌≡◌, refl, sym, ap, ◌∙◌, subst, ◌⊎◌, inl, inr, true, false,
  Bool-cases, ◌&&◌, ◌==◌, List, [], ◌∷◌, ◌++◌, append_assoc, All, arith,
}
use async_dpdk.Locks.{
  Lock, Action, acquires, releases, Call, Holder, contains, is_held, dropped, Move, takes, gives,
  Moves, still, then_move, at_start,
}
use async_dpdk.Locks.Order.{Ordered, InOrder, at_start-InOrder}

-- Of threads in order, a thread among others.
All-at :
    (P : Holder → Type 0) (front back : List Holder) (t : Holder) → All P (front ++ t ∷ back) → P t
All-at P [] back t (p, ps) = p
All-at P (u ∷ front) back t (p, ps) = All-at P front back t ps

All-put :
    (P : Holder → Type 0) (front back : List Holder) (t u : Holder)
    → All P (front ++ t ∷ back)
    → P u
    → All P (front ++ u ∷ back)
All-put P [] back t u (p, ps) q = (q, ps)
All-put P (v ∷ front) back t u (p, ps) q = (p, All-put P front back t u ps q)

Move-InOrder : {ts us : List Holder} → Move ts us → All InOrder ts → All InOrder us
Move-InOrder (takes front back held l rest n) a =
    let (_, _, o) =
      All-at InOrder front back (record { held = held; todo = acquires l ∷ rest }) a in
    All-put InOrder front back _ _ a o
Move-InOrder (gives front back held rest) a =
    let o = All-at InOrder front back (record { held = held; todo = releases ∷ rest }) a in
    All-put InOrder front back _ _ a o

Moves-InOrder : {ts us : List Holder} → Moves ts us → All InOrder ts → All InOrder us
Moves-InOrder still a = a
Moves-InOrder (then_move ms m) a = Move-InOrder m (Moves-InOrder ms a)

-- A lock that is held has a holder.
holder :
    (l : Lock) (ts : List Holder)
    → is_held l ts ≡ true
    → (front back : List Holder) × (t : Holder) × (ts ≡ front ++ t ∷ back)
      × (contains l t.held ≡ true)
holder l [] h = cc
holder l (t ∷ ts) h = elim (Bool-cases (contains l t.held)) [
  | inl e ↦ ([], ts, t, refl, e)
  | inr e ↦
      let (front, back, u, q, k) = holder l ts (ground arith) in
      (t ∷ front, back, u, ap (◌∷◌ t) q, k)
]

-- A lock that is held is of a kind below all that comes.
below :
    (l k : Lock) (held : List Lock) → contains l held ≡ true → All (λ h. h.0 < k.0) held → l.0 < k.0
below l k [] h a = cc
below l k (j ∷ held) h (b, a) = elim (Bool-cases (l.0 == j.0 && l.1 == j.1)) [
  | inl e ↦ ground arith
  | inr e ↦ below l k held (ground arith) a
]

module _ (ts : List Holder) (a : All InOrder ts) where
  -- Some thread moves.
  abbrev Moving : Type 0
  Moving = (us : List Holder) × Move ts us

  taker :
      (front back : List Holder) (k : Lock) (held : List Lock) (rest : List Action)
      → ts ≡ front ++ record { held = held; todo = acquires k ∷ rest } ∷ back
      → is_held k ts ≡ false
      → Moving
  taker front back k held rest q e = (
    _,
    subst (λ z. Move z (front ++ record { held = k ∷ held; todo = rest } ∷ back)) (sym q)
        (takes front back held k rest (ap (is_held k) (sym q) ∙ e)),
  )

  -- A thread that holds a lock of the kind `k` or a higher one moves, or waits for a lock of a higher kind.
  mover :
      (fuel : ℕ) (front back : List Holder) (l : Lock) (held : List Lock) (todo : List Action)
      → 9 ≤ fuel + l.0
      → ts ≡ front ++ record { held = held; todo = todo } ∷ back
      → contains l held ≡ true
      → Ordered held todo
      → Moving
  mover fuel front back l held [] n q c o = cc (c, ap (contains l) o)
  mover fuel front back l held (releases ∷ rest) n q c o = (
    _,
    subst (λ z. Move z (front ++ record { held = dropped held; todo = rest } ∷ back)) (sym q)
        (gives front back held rest),
  )
  mover zero front back l held (acquires k ∷ rest) n q c (b, m, o) =
      absurd (omega (arith, n, m, below l k held c b))
  mover (suc fuel) front back l held (acquires k ∷ rest) n q c (b, m, o) =
      elim (Bool-cases (is_held k ts)) [
        | inl e ↦
            let (front', back', u, p, d) = holder k ts e in
            mover fuel front' back' k u.held u.todo (omega (arith, n, below l k held c b)) p d
              (All-at InOrder front' back' u (subst (All InOrder) p a))
        | inr e ↦ taker front back k held rest q e
      ]

  -- A thread has ended, or some thread moves.
  first_mover :
      (front back : List Holder) (held : List Lock) (todo : List Action)
      → ts ≡ front ++ record { held = held; todo = todo } ∷ back
      → (todo ≡ []) ⊎ Moving
  first_mover front back held [] q = inl refl
  first_mover front back held (releases ∷ rest) q = inr (
    _,
    subst (λ z. Move z (front ++ record { held = dropped held; todo = rest } ∷ back)) (sym q)
        (gives front back held rest),
  )
  first_mover front back held (acquires k ∷ rest) q = elim (Bool-cases (is_held k ts)) [
    | inl e ↦
        let (front', back', u, p, d) = holder k ts e in
        inr (
          mover 9 front' back' k u.held u.todo (omega arith) p d
            (All-at InOrder front' back' u (subst (All InOrder) p a)))
    | inr e ↦ inr (taker front back k held rest q e)
  ]

  search_mover :
      (back front : List Holder)
      → ts ≡ front ++ back
      → All (λ (t : Holder). t.todo ≡ []) back ⊎ Moving
  search_mover [] front q = inl tt
  search_mover (t ∷ back) front q = elim (first_mover front back t.held t.todo q) [
    | inl e ↦
        elim (search_mover back (front ++ t ∷ []) (q ∙ sym (append_assoc front (t ∷ []) back))) [
          | inl es ↦ inl (e, es)
          | inr m ↦ inr m
        ]
    | inr m ↦ inr m
  ]

-- No deadlock: threads that run any sequences of the calls of the crate that take locks, in any state
-- that they reach by taking and giving back locks in any interleaving, have all ended, or one of them
-- takes its next step.
pub Moves-at_start :
    (css : List (List Call)) (ts : List Holder)
    → Moves (at_start css) ts
    → All (λ (t : Holder). t.todo ≡ []) ts ⊎ ((us : List Holder) × Move ts us)
Moves-at_start css ts ms = search_mover ts (Moves-InOrder ms (at_start-InOrder css)) ts [] refl
