-- ===== src/Socket/Freeing.antt =====
-- src/proto/socket.rs: `free_fd` on a descriptor in use, and the tables at the start of the program.
use async_dpdk.Base.{
  ℕ, Distinct, zero, suc, ◌+◌, ◌≤◌, ◌<◌, ◌≡◌, refl, sym, ap, ◌∙◌, ◌≢◌, false, some, List, [], ◌∷◌,
  get_elem?, set, replicate, All, length-set, length-replicate, get_elem?-set_self,
  get_elem?-set_ne, get_elem?-lt, lookup, erase, lookup-erase_ne, lookup-erase_self, arith,
}
use async_dpdk.Socket.{
  SockState, unused, in_use, PortInfo, Tables, range_from, fresh_socks, fresh_ports, max_sock_num,
  free_fd,
}
use async_dpdk.Socket.Fds.{IsValid, All-set}
use async_dpdk.Socket.Binding.{free_fd-in_use}

not_queued :
    (opened : List SockState) (fd p : ℕ) (fds : List ℕ)
    → get_elem? opened fd ≡ some (in_use p)
    → All (λ y. get_elem? opened y ≡ some unused) fds
    → All (λ y. fd ≢ y) fds
not_queued opened fd p [] e h = tt
not_queued opened fd p (y ∷ fds) e h =
    ((λ (k : fd ≡ y). cc (e, h.0, ap (get_elem? opened) k)), not_queued opened fd p fds e h.1)

module _ (fd p : ℕ) (t : Tables) (v : IsValid t)
    (e : get_elem? t.socks.opened fd ≡ some (in_use p)) where
  -- The tables behind `free_fd`.
  abbrev freed : Tables
  freed = record {
    socks = record t.socks {
      opened = set t.socks.opened fd unused;
      free_fds = fd ∷ t.socks.free_fds;
    };
    ports = record t.ports { info = erase p t.ports.info };
  }

  freed_self : get_elem? freed.socks.opened fd ≡ some unused
  freed_self = get_elem?-set_self t.socks.opened fd unused (get_elem?-lt t.socks.opened fd e)

  freed_owned :
      (g q : ℕ)
      → get_elem? freed.socks.opened g ≡ some (in_use q)
      → (i : PortInfo) × (lookup q freed.ports.info ≡ some i) × (i.fd ≡ g)
  freed_owned g q h =
      let ne : fd ≢ g = λ (k : fd ≡ g). cc (h, freed_self, ap (get_elem? freed.socks.opened) k) in
      let (i, q1, q2) = v.owned g q (sym (get_elem?-set_ne t.socks.opened fd g unused ne) ∙ h) in
      let (j, p1, p2) = v.owned fd p e in
      let other : q ≢ p = λ (k : q ≡ p).
        let same : j ≡ i = cc (p1, q1, ap (λ (x : ℕ). lookup x t.ports.info) k) in
        ne (sym p2 ∙ ap (λ (x : PortInfo). x.fd) same ∙ q2) in
      (i, lookup-erase_ne q p t.ports.info other ∙ q1, q2)

  freed_held :
      (q : ℕ) (i : PortInfo)
      → lookup q freed.ports.info ≡ some i
      → get_elem? freed.socks.opened i.fd ≡ some (in_use q)
  freed_held q i h =
      let other : q ≢ p = λ (k : q ≡ p).
        cc (h, lookup-erase_self p t.ports.info, ap (λ (x : ℕ). lookup x freed.ports.info) k) in
      let kept = v.held q i (sym (lookup-erase_ne q p t.ports.info other) ∙ h) in
      let ne : fd ≢ i.fd =
        λ (k : fd ≡ i.fd). other (cc (kept, e, ap (get_elem? t.socks.opened) k)) in
      get_elem?-set_ne t.socks.opened fd i.fd unused ne ∙ kept

  -- Freeing a descriptor in use, with neither lock poisoned, keeps the tables valid.
  pub free_fd-IsValid :
      t.socks.is_poisoned ≡ false → t.ports.is_poisoned ≡ false → IsValid (free_fd fd t).1
  free_fd-IsValid u w =
      let absent = not_queued t.socks.opened fd p t.socks.free_fds e v.free_unused in
      rw (free_fd-in_use fd p t u w e) (record {
        size = length-set t.socks.opened fd unused ∙ v.size;
        free_unused =
            (freed_self, All-set t.socks.opened fd unused t.socks.free_fds absent v.free_unused);
        free_distinct = (absent, v.free_distinct);
        owned = freed_owned;
        held = freed_held;
      })

range_from-unused :
    (i n m : ℕ)
    → i + n ≤ m
    → All (λ fd. get_elem? (replicate m unused) fd ≡ some unused) (range_from i n)
range_from-unused i zero m h = tt
range_from-unused i (suc n) m h =
    (get_elem?-replicate m i (omega arith), range_from-unused (suc i) n m (omega arith))
  where
    get_elem?-replicate : (k j : ℕ) → j < k → get_elem? (replicate k unused) j ≡ some unused
    get_elem?-replicate zero j q = elim q [ ]
    get_elem?-replicate (suc k) zero q = refl
    get_elem?-replicate (suc k) (suc j) q = get_elem?-replicate k j (omega arith)

range_from-Above : (x i n : ℕ) → x < i → All (λ y. x ≢ y) (range_from i n)
range_from-Above x i zero h = tt
range_from-Above x i (suc n) h = (omega arith, range_from-Above x (suc i) n (omega arith))

range_from-Distinct : (i n : ℕ) → Distinct (range_from i n)
range_from-Distinct i zero = tt
range_from-Distinct i (suc n) =
    (range_from-Above i (suc i) n (omega arith), range_from-Distinct (suc i) n)

not_in_use : (m fd p : ℕ) → get_elem? (replicate m unused) fd ≡ some (in_use p) → ⊥
not_in_use zero fd p h = cc
not_in_use (suc m) zero p h = cc
not_in_use (suc m) (suc fd) p h = not_in_use m fd p h

-- The tables of a program that has opened no socket are valid.
pub fresh-IsValid : IsValid (record { socks = fresh_socks; ports = fresh_ports })
unfolding fresh_socks
fresh-IsValid = record {
  size = length-replicate max_sock_num unused;
  free_unused = range_from-unused 0 max_sock_num max_sock_num (omega arith);
  free_distinct = range_from-Distinct 0 max_sock_num;
  owned = λ fd p h. absurd (not_in_use max_sock_num fd p h);
  held = λ p i h. cc;
}
