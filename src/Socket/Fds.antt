-- ===== src/Socket/Fds.antt =====
-- src/proto/socket.rs: the file descriptors that `bind_fd` hands out and `free_fd` takes back.
use async_dpdk.Base.{
  ℕ, ◌<◌, ◌≡◌, refl, sym, ap, subst, ◌∙◌, ◌≢◌, inl, inr, false, none, some, List, [], ◌∷◌, length,
  get_elem?, set, All, Distinct, length-set, get_elem?-set_self, get_elem?-set_ne, get_elem?-lt,
  lookup, insert, lookup-insert_self, lookup-insert_ne, Bool-cases, Option-cases, arith, ℕ_discrete,
}
use async_dpdk.Errno.{Result, ok, err, panicked}
use async_dpdk.Addr.{SocketAddr}
use async_dpdk.Socket.{
  SockState, unused, in_use, SockTable, PortInfo, PortTable, Tables, max_sock_num, bind_port,
  mark_in_use, bind_front, bind_fd,
}
use async_dpdk.Socket.Ports.{with_port, bind_port-ok}

-- What holds of the tables between two calls: there are 8192 states; a queued descriptor is unused
-- and queued once; a descriptor in use and the port that it is bound to name each other.
pub record IsValid (t : Tables) : Type 0 where
  pub size : length t.socks.opened ≡ max_sock_num
  pub free_unused : All (λ fd. get_elem? t.socks.opened fd ≡ some unused) t.socks.free_fds
  pub free_distinct : Distinct t.socks.free_fds
  pub owned :
      (fd p : ℕ)
      → get_elem? t.socks.opened fd ≡ some (in_use p)
      → (i : PortInfo) × (lookup p t.ports.info ≡ some i) × (i.fd ≡ fd)
  pub held :
      (p : ℕ) (i : PortInfo)
      → lookup p t.ports.info ≡ some i
      → get_elem? t.socks.opened i.fd ≡ some (in_use p)

-- What a successful call has done: it took the front of the queue, bound the port, and marked the
-- descriptor.
pub record Bound (addr : SocketAddr) (t : Tables) (fd p : ℕ) (t' : Tables) : Type 0 where
  pub rest : List ℕ
  pub front : t.socks.free_fds ≡ fd ∷ rest
  pub inside : fd < length t.socks.opened
  pub absent : lookup p t.ports.info ≡ none
  pub unlocked : t.ports.is_poisoned ≡ false
  pub unlocked_socks : t.socks.is_poisoned ≡ false
  pub ports_after : t'.ports ≡ with_port addr.ip fd p t'.ports.next_port t.ports
  pub socks_after :
      t'.socks ≡ record t.socks { free_fds = rest; opened = set t.socks.opened fd (in_use p) }

pub mark_in_use-Bound :
    (addr : SocketAddr) (t : Tables) (fd' : ℕ) (rest : List ℕ) (r : Result ℕ × PortTable) (fd p : ℕ)
    (t' : Tables)
    → t.socks.free_fds ≡ fd' ∷ rest
    → t.socks.is_poisoned ≡ false
    → bind_port addr.port addr.ip fd' t.ports ≡ r
    → mark_in_use fd' r (record t.socks { free_fds = rest }) ≡ (ok (fd, p), t')
    → Bound addr t fd p t'
mark_in_use-Bound addr t fd' rest (ok q, ports) fd p t' f u b h =
    elim (Option-cases (get_elem? t.socks.opened fd')) [
      | inl e ↦ ground arith
      | inr (x, e) ↦
          let (unlocked, room, absent, after) =
            bind_port-ok addr.ip fd' addr.port t.ports q ports b in
          let inside : fd' < length t.socks.opened = get_elem?-lt t.socks.opened fd' e in
          record {
            rest = rest;
            front = ground arith;
            inside = ground arith;
            absent = ground arith;
            unlocked = unlocked;
            unlocked_socks = u;
            ports_after = ground arith;
            socks_after = ground arith;
          }
    ]
mark_in_use-Bound addr t fd' rest (err e, ports) fd p t' f u b h = cc
mark_in_use-Bound addr t fd' rest (panicked, ports) fd p t' f u b h = cc

bind_front-Bound :
    (addr : SocketAddr) (t : Tables) (fds : List ℕ) (fd p : ℕ) (t' : Tables)
    → t.socks.free_fds ≡ fds
    → t.socks.is_poisoned ≡ false
    → bind_front addr fds t ≡ (ok (fd, p), t')
    → Bound addr t fd p t'
bind_front-Bound addr t [] fd p t' f u h = cc
bind_front-Bound addr t (fd' ∷ rest) fd p t' f u h =
    mark_in_use-Bound addr t fd' rest _ fd p t' f u refl h

-- A successful `bind_fd` is described by `Bound`.
pub bind_fd-Bound :
    (addr : SocketAddr) (t : Tables) (fd p : ℕ) (t' : Tables)
    → bind_fd addr t ≡ (ok (fd, p), t')
    → Bound addr t fd p t'
unfolding bind_fd
bind_fd-Bound addr t fd p t' h = elim (Bool-cases t.socks.is_poisoned) [
  | inl e ↦ ground arith
  | inr e ↦ bind_front-Bound addr t t.socks.free_fds fd p t' refl e (ground arith)
]

pub All-set :
    (opened : List SockState) (fd : ℕ) (s : SockState) (fds : List ℕ)
    → All (λ y. fd ≢ y) fds
    → All (λ y. get_elem? opened y ≡ some unused) fds
    → All (λ y. get_elem? (set opened fd s) y ≡ some unused) fds
All-set opened fd s [] d h = tt
All-set opened fd s (y ∷ fds) d h =
    (get_elem?-set_ne opened fd y s d.0 ∙ h.0, All-set opened fd s fds d.1 h.1)

-- The parts of a valid queue behind its front.
pub front-unused :
    {t : Tables} {fd : ℕ} {rest : List ℕ}
    → IsValid t
    → t.socks.free_fds ≡ fd ∷ rest
    → (get_elem? t.socks.opened fd ≡ some unused)
      × All (λ y. get_elem? t.socks.opened y ≡ some unused) rest
      × All (λ y. fd ≢ y) rest
      × Distinct rest
front-unused {t} {fd} {rest} v e =
    let u = subst (All (λ y. get_elem? t.socks.opened y ≡ some unused)) e v.free_unused in
    let d = subst Distinct e v.free_distinct in (u.0, u.1, d.0, d.1)

module _ (addr : SocketAddr) (t : Tables) (fd p : ℕ) (t' : Tables) (v : IsValid t)
    (b : Bound addr t fd p t') where
  abbrev pub entry : PortInfo
  entry = record { fd = fd; ip = addr.ip }

  pub lookup_after : (q : ℕ) → lookup q t'.ports.info ≡ lookup q (insert p entry t.ports.info)
  lookup_after q = ap (λ (x : PortTable). lookup q x.info) b.ports_after

  pub state_after :
      (g : ℕ) → get_elem? t'.socks.opened g ≡ get_elem? (set t.socks.opened fd (in_use p)) g
  state_after g = ap (λ (x : SockTable). get_elem? x.opened g) b.socks_after

  pub self_after : get_elem? t'.socks.opened fd ≡ some (in_use p)
  self_after = state_after fd ∙ get_elem?-set_self t.socks.opened fd (in_use p) b.inside

  pub port_after : lookup p t'.ports.info ≡ some entry
  port_after = lookup_after p ∙ lookup-insert_self p entry t.ports.info

  pub was_unused : get_elem? t.socks.opened fd ≡ some unused
  was_unused = (front-unused {t = t} v b.front).0

  owned_after :
      (g q : ℕ)
      → get_elem? t'.socks.opened g ≡ some (in_use q)
      → (i : PortInfo) × (lookup q t'.ports.info ≡ some i) × (i.fd ≡ g)
  owned_after g q h = elim (ℕ_discrete fd g) [
    | yes e ↦
        let q_eq : p ≡ q = cc (h, self_after, ap (get_elem? t'.socks.opened) e) in
        (entry, ap (λ (k : ℕ). lookup k t'.ports.info) (sym q_eq) ∙ port_after, e)
    | no n ↦
        let old : get_elem? t.socks.opened g ≡ some (in_use q) =
          sym (get_elem?-set_ne t.socks.opened fd g (in_use p) n) ∙ sym (state_after g) ∙ h in
        let (i, q1, q2) = v.owned g q old in
        (
          i,
          lookup_after q
              ∙ lookup-insert_ne q p entry t.ports.info
                  (λ k. cc (q1, b.absent, ap (λ (k : ℕ). lookup k t.ports.info) k))
              ∙ q1,
          q2,
        )
  ]

  held_after :
      (q : ℕ) (i : PortInfo)
      → lookup q t'.ports.info ≡ some i
      → get_elem? t'.socks.opened i.fd ≡ some (in_use q)
  held_after q i h = elim (ℕ_discrete q p) [
    | yes e ↦
        let i_eq : entry ≡ i = cc (h, port_after, ap (λ (k : ℕ). lookup k t'.ports.info) e) in
        ap (λ (x : PortInfo). get_elem? t'.socks.opened x.fd) (sym i_eq)
        ∙ self_after
        ∙ ap (λ (k : ℕ). some (in_use k)) (sym e)
    | no n ↦
        let old : lookup q t.ports.info ≡ some i =
          sym (lookup-insert_ne q p entry t.ports.info n) ∙ sym (lookup_after q) ∙ h in
        let kept : get_elem? t.socks.opened i.fd ≡ some (in_use q) = v.held q i old in
        state_after i.fd
        ∙ get_elem?-set_ne t.socks.opened fd i.fd (in_use p)
            (λ k. cc (kept, was_unused, ap (get_elem? t.socks.opened) k))
        ∙ kept
  ]

  pub Bound-IsValid : IsValid t'
  Bound-IsValid = record {
    size =
        ap (λ (x : SockTable). length x.opened) b.socks_after
        ∙ length-set t.socks.opened fd (in_use p)
        ∙ v.size;
    free_unused =
        subst (λ (x : SockTable). All (λ y. get_elem? x.opened y ≡ some unused) x.free_fds)
          (sym b.socks_after) (All-set t.socks.opened fd (in_use p) b.rest parts.2 parts.1);
    free_distinct = subst (λ (x : SockTable). Distinct x.free_fds) (sym b.socks_after) parts.3;
    owned = owned_after;
    held = held_after;
  }
    where
      parts :
          (get_elem? t.socks.opened fd ≡ some unused)
          × All (λ y. get_elem? t.socks.opened y ≡ some unused) b.rest
          × All (λ y. fd ≢ y) b.rest
          × Distinct b.rest
      parts = front-unused {t = t} v b.front
