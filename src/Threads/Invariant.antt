-- ===== src/Threads/Invariant.antt =====
-- src/proto/udp.rs, src/proto/socket.rs and src/agent.rs together: every step keeps the invariant.
use async_dpdk.Base.{
  ℕ, ◌≡◌, refl, sym, ap, ◌∙◌, subst, Bool, false, none, some, Option-cases, List, ◌∷◌, ◌++◌, lookup,
  insert, lookup-insert_self, lookup-insert_ne, ℕ_discrete, inl, inr, arith,
}
use async_dpdk.Socket.Mailbox.{Mailbox, MailboxTable, put, put_mailbox, recv}
use async_dpdk.Threads.{
  Arrived, live, abandoned, System, delivered, Step, binds, bind_fails, opens, abandons, gives_back,
  deallocs, frees, looks, puts, reads, Steps, done, next, Reach,
}
use async_dpdk.Threads.Phases.{port_in, has_box, Inv, start-Inv}
use async_dpdk.Threads.Changes.{binds-Inv, alloc-Inv, dealloc-Inv, given_back-Inv}
use async_dpdk.Threads.Failing.{bind_fails-Inv}

module _ {Packet : Type 0} (s : System Packet) (v : Inv s) where
  -- Other mailboxes for the same descriptors.
  reboxed-Inv :
      (boxes : MailboxTable (Arrived Packet)) (rest : List (ℕ × Arrived Packet))
      → boxes.is_poisoned ≡ false
      → ((g : ℕ) → lookup g s.mailboxes.boxes ≡ none → lookup g boxes.boxes ≡ none)
      → ((g : ℕ) (m : Mailbox (Arrived Packet))
          → lookup g s.mailboxes.boxes ≡ some m
          → (m' : Mailbox (Arrived Packet)) × (lookup g boxes.boxes ≡ some m'))
      → Inv (record s { mailboxes = boxes; looked = rest })
  reboxed-Inv boxes rest u o i = record {
    socks_open = v.socks_open;
    ports_open = v.ports_open;
    boxes_open = u;
    valid = v.valid;
    counted = v.counted;
    used = v.used;
    unheld = v.unheld;
    boxed = λ g e. let (m, q) = v.boxed g e in i g m q;
    unboxed = λ g e. o g (v.unboxed g e);
  }

  inserted-Inv :
      (fd : ℕ) (m m' : Mailbox (Arrived Packet)) (rest : List (ℕ × Arrived Packet))
      → lookup fd s.mailboxes.boxes ≡ some m
      → Inv (record s {
        mailboxes = record s.mailboxes { boxes = insert fd m' s.mailboxes.boxes };
        looked = rest;
      })
  inserted-Inv fd m m' rest h =
      reboxed-Inv (record s.mailboxes { boxes = insert fd m' s.mailboxes.boxes }) rest v.boxes_open
        (λ g e.
          lookup-insert_ne g fd m' s.mailboxes.boxes
            (λ k. cc (h, e, ap (λ x. lookup x s.mailboxes.boxes) k))
          ∙ e)
        (λ g x e. elim (ℕ_discrete g fd) [
          | yes k ↦ (
            m',
            ap (λ y. lookup y (insert fd m' s.mailboxes.boxes)) k
                ∙ lookup-insert_self fd m' s.mailboxes.boxes,
          )
          | no k ↦ (x, lookup-insert_ne g fd m' s.mailboxes.boxes k ∙ e)
        ])

  puts-Inv :
      (gone : ℕ → Bool) (fd : ℕ) (d : Arrived Packet) (rest : List (ℕ × Arrived Packet))
      → Inv (delivered gone fd d rest s)
  unfolding put_mailbox
  puts-Inv gone fd d rest = elim (Option-cases (lookup fd s.mailboxes.boxes)) [
    | inl e ↦
        let q : (put_mailbox gone fd d s.mailboxes).2 ≡ s.mailboxes =
          ground (arith, v.boxes_open) in
        subst
          (λ (x : MailboxTable (Arrived Packet)). Inv (record s { mailboxes = x; looked = rest }))
          (sym q) (reboxed-Inv s.mailboxes rest v.boxes_open (λ g k. k) (λ g m k. (m, k)))
    | inr (m, e) ↦
        let m' = (put gone d m).2 in
        let q : (put_mailbox gone fd d s.mailboxes).2
            ≡ record s.mailboxes { boxes = insert fd m' s.mailboxes.boxes } =
          ground (arith, v.boxes_open) in
        subst
          (λ (x : MailboxTable (Arrived Packet)). Inv (record s { mailboxes = x; looked = rest }))
          (sym q) (inserted-Inv fd m m' rest e)
  ]

module _ {Packet : Type 0} where
  -- Every step of any thread keeps the invariant.
  pub Step-Inv : {s t : System Packet} → Step s t → Inv s → Inv t
  Step-Inv {s} (binds addr fd p t h) v = binds-Inv s v addr fd p t h
  Step-Inv {s} (bind_fails addr e t h) v = bind_fails-Inv s addr e t v h
  Step-Inv {s} (opens fd p h) v = alloc-Inv s v fd p (live p) h refl refl
  Step-Inv {s} (abandons fd p h) v = alloc-Inv s v fd p (abandoned p) h refl refl
  Step-Inv {s} (gives_back fd p h) v = given_back-Inv s v fd p (ap port_in h) (ap has_box h)
  Step-Inv {s} (deallocs fd p h) v = dealloc-Inv s v fd p h
  Step-Inv {s} (frees fd p h) v = given_back-Inv s v fd p (ap port_in h) (ap has_box h)
  Step-Inv {s} (looks fd ip d h) v =
      reboxed-Inv s v s.mailboxes ((fd, d) ∷ s.looked) v.boxes_open (λ g k. k) (λ g m k. (m, k))
  Step-Inv {s} (puts gone fd d front back h) v = puts-Inv s v gone fd d (front ++ back)
  Step-Inv {s} (reads ch fd p m h l) v = inserted-Inv s v fd m (recv ch m).2 s.looked l

  pub Steps-Inv : {s t : System Packet} → Steps s t → Inv s → Inv t
  Steps-Inv done v = v
  Steps-Inv (next r st) v = Step-Inv st (Steps-Inv r v)

  pub Reach-Inv : (s : System Packet) → Reach s → Inv s
  Reach-Inv s r = Steps-Inv r start-Inv
