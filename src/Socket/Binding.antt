-- ===== src/Socket/Binding.antt =====
-- src/proto/socket.rs: `bind_fd` and `free_fd` as operations on valid tables, and what the agents
-- find after them.
use async_dpdk.Base.{
  ℕ, ◌≡◌, refl, sym, ap, ◌∙◌, ◌≢◌, inl, inr, Bool, false, ◌||◌, none, some, List, [], ◌∷◌,
  get_elem?, set, set-set, set_same, lookup, erase, erase-insert, lookup-insert_self,
  lookup-insert_ne, if◌then◌else◌, Bool-cases, arith,
}
use async_dpdk.Errno.{Error, poisoned, Result, ok, err, panicked}
use async_dpdk.Addr.{IpAddr, SocketAddr, is_unspecified, ip_eq, ip_eq_refl}
use async_dpdk.Socket.{
  unused, in_use, SockTable, PortInfo, PortTable, Tables, bind_port, mark_in_use, bind_front,
  bind_fd, free_port, free_fd, addr_2_sockfd,
}
use async_dpdk.Socket.Ports.{bind_port-err, bind_port-panicked}
use async_dpdk.Socket.Fds.{
  IsValid, bind_fd-Bound, mark_in_use-Bound, Bound-IsValid, front-unused, self_after, was_unused,
}

-- The tables without the front of the queue.
abbrev pub without_front : List ℕ → Tables → Tables
without_front rest t = record t { socks = record t.socks { free_fds = rest } }

bind_fd-cons :
    (addr : SocketAddr) (t : Tables) (fd : ℕ) (rest : List ℕ)
    → t.socks.is_poisoned ≡ false
    → t.socks.free_fds ≡ fd ∷ rest
    → bind_fd addr t
      ≡ mark_in_use fd (bind_port addr.port addr.ip fd t.ports) (record t.socks { free_fds = rest })
unfolding bind_fd
bind_fd-cons addr t fd rest u f =
    ap (λ (b : Bool). if b then (err poisoned, t) else bind_front addr t.socks.free_fds t) u
    ∙ ap (λ (q : List ℕ). bind_front addr q t) f

mark_in_use-err :
    (fd : ℕ) (t : Tables) (rest : List ℕ) (e : Error) (r : Result ℕ × PortTable)
    → r.0 ≡ err e
    → r.1 ≡ t.ports
    → mark_in_use fd r (record t.socks { free_fds = rest }) ≡ (err e, without_front rest t)
mark_in_use-err fd t rest e (ok q, ports) b same = cc
mark_in_use-err fd t rest e (err x, ports) b same = ground arith
mark_in_use-err fd t rest e (panicked, ports) b same = cc

-- A port that cannot be bound costs a descriptor: `bind_fd` returns the error of `bind_port`, and the
-- front of the queue is gone from the tables, which are otherwise unchanged.
pub bind_fd_leaks :
    (addr : SocketAddr) (t : Tables) (fd : ℕ) (rest : List ℕ) (e : Error)
    → t.socks.is_poisoned ≡ false
    → t.socks.free_fds ≡ fd ∷ rest
    → (bind_port addr.port addr.ip fd t.ports).0 ≡ err e
    → bind_fd addr t ≡ (err e, without_front rest t)
bind_fd_leaks addr t fd rest e u f b =
    bind_fd-cons addr t fd rest u f
    ∙ mark_in_use-err fd t rest e (bind_port addr.port addr.ip fd t.ports) b
        (bind_port-err addr.ip fd addr.port t.ports e b)

without_front-IsValid :
    {t : Tables} {fd : ℕ} {rest : List ℕ}
    → IsValid t
    → t.socks.free_fds ≡ fd ∷ rest
    → IsValid (without_front rest t)
without_front-IsValid {t} v f =
    let (_, u, _, d) = front-unused {t = t} v f in
    record { size = v.size; free_unused = u; free_distinct = d; owned = v.owned; held = v.held }

module _ (addr : SocketAddr) (t : Tables) (v : IsValid t) where
  mark_in_use-IsValid :
      (fd : ℕ) (rest : List ℕ) (r : Result ℕ × PortTable)
      → t.socks.free_fds ≡ fd ∷ rest
      → t.socks.is_poisoned ≡ false
      → bind_port addr.port addr.ip fd t.ports ≡ r
      → IsValid (mark_in_use fd r (record t.socks { free_fds = rest })).1
  mark_in_use-IsValid fd rest (ok p, ports) f u b =
      let here = (front-unused {t = t} v f).0 in
      let e : mark_in_use fd (ok p, ports) (record t.socks { free_fds = rest }) ≡ (
        ok (fd, p),
        record {
          socks = record t.socks { free_fds = rest; opened = set t.socks.opened fd (in_use p) };
          ports = ports;
        },
      ) =
        ground arith in
      rw e (
        Bound-IsValid addr t fd p _ v
          (mark_in_use-Bound addr t fd rest (ok p, ports) fd p _ f u b e))
  mark_in_use-IsValid fd rest (err e, ports) f u b =
      let same : ports ≡ t.ports =
        sym (ap (λ (x : Result ℕ × PortTable). x.1) b)
        ∙ bind_port-err addr.ip fd addr.port t.ports e (ap (λ (x : Result ℕ × PortTable). x.0) b) in
      rw same (without_front-IsValid {t = t} v f)
  mark_in_use-IsValid fd rest (panicked, ports) f u b =
      let same : ports ≡ t.ports =
        sym (ap (λ (x : Result ℕ × PortTable). x.1) b)
        ∙ bind_port-panicked addr.ip fd addr.port t.ports
            (ap (λ (x : Result ℕ × PortTable). x.0) b) in
      rw same (without_front-IsValid {t = t} v f)

  bind_front-IsValid :
      (fds : List ℕ)
      → t.socks.free_fds ≡ fds
      → t.socks.is_poisoned ≡ false
      → IsValid (bind_front addr fds t).1
  bind_front-IsValid [] f u = v
  bind_front-IsValid (fd ∷ rest) f u = mark_in_use-IsValid fd rest _ f u refl

  -- `bind_fd` keeps the tables valid, however it ends.
  pub bind_fd-IsValid : IsValid (bind_fd addr t).1
  unfolding bind_fd
  bind_fd-IsValid = elim (Bool-cases t.socks.is_poisoned) [
    | inl u ↦ simp u v
    | inr u ↦ simp u (bind_front-IsValid t.socks.free_fds refl u)
  ]

-- What a descriptor that is in use and its port are for `free_fd`: the descriptor goes to the front of
-- the queue, and neither it nor the port is bound any more.
pub free_fd-in_use :
    (fd p : ℕ) (t : Tables)
    → t.socks.is_poisoned ≡ false
    → t.ports.is_poisoned ≡ false
    → get_elem? t.socks.opened fd ≡ some (in_use p)
    → free_fd fd t ≡ (
      ok tt,
      record {
        socks = record t.socks {
          opened = set t.socks.opened fd unused;
          free_fds = fd ∷ t.socks.free_fds;
        };
        ports = record t.ports { info = erase p t.ports.info };
      },
    )
unfolding free_fd free_port
free_fd-in_use fd p t u w e = ground arith

-- Closing undoes binding: after a successful `bind_fd` on valid tables, `free_fd` of the descriptor
-- succeeds and leaves the tables as they were before both, but for the start of the port search.
pub free_fd-bind_fd :
    (addr : SocketAddr) (t : Tables) (fd p : ℕ) (t' : Tables)
    → IsValid t
    → bind_fd addr t ≡ (ok (fd, p), t')
    → free_fd fd t'
      ≡ (ok tt, record t { ports = record t.ports { next_port = t'.ports.next_port } })
free_fd-bind_fd addr t fd p t' v h =
    let b = bind_fd-Bound addr t fd p t' h in
    let here = was_unused addr t fd p t' v b in
    let u : t'.socks.is_poisoned ≡ false =
      ap (λ (x : SockTable). x.is_poisoned) b.socks_after ∙ b.unlocked_socks in
    let w : t'.ports.is_poisoned ≡ false =
      ap (λ (x : PortTable). x.is_poisoned) b.ports_after ∙ b.unlocked in
    let restored : set (set t.socks.opened fd (in_use p)) fd unused ≡ t.socks.opened =
      set-set t.socks.opened fd (in_use p) unused ∙ set_same t.socks.opened fd unused here in
    let erased = erase-insert p (record { fd = fd; ip = addr.ip }) t.ports.info b.absent in
    free_fd-in_use fd p t' u w (self_after addr t fd p t' v b)
    ∙ ground (arith, b.socks_after, b.ports_after, b.front, restored, erased)

addr_2_sockfd-entry :
    (port : ℕ) (dst : IpAddr) (i : PortInfo) (t : PortTable)
    → t.is_poisoned ≡ false
    → lookup port t.info ≡ some i
    → addr_2_sockfd port dst t ≡ (if is_unspecified i.ip || ip_eq i.ip dst then some i.fd else none)
unfolding addr_2_sockfd
addr_2_sockfd-entry port dst i t u e = ground arith

addr_2_sockfd-same :
    (port : ℕ) (dst : IpAddr) (t t' : PortTable)
    → t.is_poisoned ≡ t'.is_poisoned
    → lookup port t.info ≡ lookup port t'.info
    → addr_2_sockfd port dst t ≡ addr_2_sockfd port dst t'
unfolding addr_2_sockfd
addr_2_sockfd-same port dst t t' u e = ground arith

-- After a successful `bind_fd` the agent finds the descriptor for the port, from any address if the
-- socket's own is unspecified and else from that address alone; other ports are found as before.
pub addr_2_sockfd-bind_fd :
    (addr : SocketAddr) (t : Tables) (fd p : ℕ) (t' : Tables)
    → bind_fd addr t ≡ (ok (fd, p), t')
    → (addr_2_sockfd p addr.ip t'.ports ≡ some fd)
      × ((dst : IpAddr)
          → addr_2_sockfd p dst t'.ports
            ≡ (if is_unspecified addr.ip || ip_eq addr.ip dst then some fd else none))
      × ((q : ℕ) (dst : IpAddr)
          → q ≢ p
          → addr_2_sockfd q dst t'.ports ≡ addr_2_sockfd q dst t.ports)
addr_2_sockfd-bind_fd addr t fd p t' h =
    let b = bind_fd-Bound addr t fd p t' h in
    let w : t'.ports.is_poisoned ≡ false =
      ap (λ (x : PortTable). x.is_poisoned) b.ports_after ∙ b.unlocked in
    let entry : PortInfo = record { fd = fd; ip = addr.ip } in
    let here : lookup p t'.ports.info ≡ some entry =
      ap (λ (x : PortTable). lookup p x.info) b.ports_after
      ∙ lookup-insert_self p entry t.ports.info in
    let at = λ (dst : IpAddr). addr_2_sockfd-entry p dst entry t'.ports w here in
    (
      at addr.ip ∙ ground (arith, ip_eq_refl addr.ip),
      at,
      λ q dst n.
          addr_2_sockfd-same q dst t'.ports t.ports
            (ap (λ (x : PortTable). x.is_poisoned) b.ports_after)
            (ap (λ (x : PortTable). lookup q x.info) b.ports_after
              ∙ lookup-insert_ne q p entry t.ports.info n),
    )
