-- ===== src/Threads/Safety.antt =====
-- src/proto/udp.rs, src/proto/socket.rs and src/agent.rs together: what holds whenever threads interleave.
use async_dpdk.Base.{
  ℕ, ◌<◌, ◌≡◌, ◌≢◌, refl, sym, ap, ◌∙◌, subst, Bool, true, false, none, some, Option-cases, List,
  [], ◌∷◌, length, lookup, insert, ℕ_discrete, inl, inr, arith,
}
use async_dpdk.Errno.{bad_fd, Result, ok, err, panicked}
use async_dpdk.Addr.{IpAddr, SocketAddr}
use async_dpdk.Socket.{
  SockTable, PortTable, PortInfo, Tables, mark_in_use, bind_front, bind_port, bind_fd, free_fd,
  addr_2_sockfd,
}
use async_dpdk.Socket.Ports.{bind_port_any, bind_port_given}
use async_dpdk.Socket.Binding.{free_fd-in_use}
use async_dpdk.Socket.Mailbox.{
  Mailbox, new_mailbox, alloc_mailbox, dealloc_mailbox, put, put_mailbox,
}
use async_dpdk.Threads.{Arrived, idle, System, Reach}
use async_dpdk.Threads.Phases.{port_in, has_box}
use async_dpdk.Threads.Invariant.{Reach-Inv}

module _ {Packet : Type 0} (s : System Packet) (r : Reach s) where
  -- Two descriptors that are bound to the same port are the same: two sockets never share a port.
  pub bound_once :
      (fd g p : ℕ) → port_in (s.phase fd) ≡ some p → port_in (s.phase g) ≡ some p → fd ≡ g
  bound_once fd g p h k =
      let v = Reach-Inv s r in
      let (i, a, b) = v.valid.owned fd p (v.used fd p h) in
      let (j, c, d) = v.valid.owned g p (v.used g p k) in
      let same : i ≡ j = cc (a, c) in sym b ∙ ap (λ (x : PortInfo). x.fd) same ∙ d

  addr_2_sockfd-found :
      (port fd : ℕ) (ip : IpAddr) (t : PortTable)
      → addr_2_sockfd port ip t ≡ some fd
      → (i : PortInfo) × (lookup port t.info ≡ some i) × (i.fd ≡ fd)
  unfolding addr_2_sockfd
  addr_2_sockfd-found port fd ip t h = elim (Option-cases (lookup port t.info)) [
    | inl e ↦ ground arith
    | inr (i, e) ↦ (i, e, ground arith)
  ]

  -- The descriptor that an agent looks up is bound, at that time, to the port of the packet.
  pub looked_up_port :
      (port fd : ℕ) (ip : IpAddr)
      → addr_2_sockfd port ip s.tables.ports ≡ some fd
      → port_in (s.phase fd) ≡ some port
  looked_up_port port fd ip h =
      let v = Reach-Inv s r in
      let (i, e, q) = addr_2_sockfd-found port fd ip s.tables.ports h in
      subst (λ x. port_in (s.phase x) ≡ some port) q (v.unheld i.fd port (v.valid.held port i e))

  -- When no socket is left and no `bind` or drop is under way, no port is bound and no mailbox is left.
  pub all_idle_clean :
      ((fd : ℕ) → s.phase fd ≡ idle)
      → ((p : ℕ) → lookup p s.tables.ports.info ≡ none)
        × ((fd : ℕ) → lookup fd s.mailboxes.boxes ≡ none)
  all_idle_clean h =
      let v = Reach-Inv s r in
      (
        (λ p. elim (Option-cases (lookup p s.tables.ports.info)) [
          | inl e ↦ e
          | inr (i, e) ↦ let q = v.unheld i.fd p (v.valid.held p i e) in cc (q, ap port_in (h i.fd))
        ]),
        λ fd. v.unboxed fd (ap has_box (h fd)),
      )

  bind_port_total :
      (port : ℕ) (ip : IpAddr) (fd : ℕ) → (bind_port port ip fd s.tables.ports).0 ≢ panicked
  bind_port_total port ip fd q =
      let v = Reach-Inv s r in
      let few : length s.tables.ports.info < 65534 = omega (arith, v.counted) in
      elim (ℕ_discrete port 0) [
        | yes z ↦
            let (p, _, _, e) = bind_port_any ip fd s.tables.ports v.ports_open few in
            cc (
              q,
              ap (λ (x : Result ℕ × PortTable). x.0) e,
              ap (λ n. (bind_port n ip fd s.tables.ports).0) z,
            )
        | no z ↦
            let (_, used, free) = bind_port_given ip fd port s.tables.ports z v.ports_open in
            elim (Option-cases (lookup port s.tables.ports.info)) [
              | inl e ↦ cc (q, ap (λ (x : Result ℕ × PortTable). x.0) (free (omega (arith, few)) e))
              | inr (i, e) ↦ cc (
                q,
                ap (λ (x : Result ℕ × PortTable). x.0) (used (omega (arith, few)) (λ n. cc (e, n))),
              )
            ]
      ]

  bind_front_total :
      (addr : SocketAddr) (fds : List ℕ) → (bind_front addr fds s.tables).0 ≢ panicked
  bind_front_total addr [] q = cc
  bind_front_total addr (fd ∷ rest) q =
      mark_in_use_total fd _ (record s.tables.socks { free_fds = rest })
        (bind_port_total addr.port addr.ip fd) q
    where
      mark_in_use_total :
          (fd : ℕ) (x : Result ℕ × PortTable) (t : SockTable)
          → x.0 ≢ panicked
          → (mark_in_use fd x t).0 ≢ panicked
      mark_in_use_total fd (ok p, ports) t n k = ground arith
      mark_in_use_total fd (err e, ports) t n k = cc
      mark_in_use_total fd (panicked, ports) t n k = n refl

  -- In any reachable state: `bind_fd` does not panic, so its search for a port ends;
  -- `alloc_mailbox` and `dealloc_mailbox` succeed for every descriptor; and `free_fd` succeeds
  -- for each descriptor that a socket, a `bind` or a drop has. So the two `unwrap`s in the drop
  -- of a socket never fail, whatever other threads do.
  pub never_panics :
      ((addr : SocketAddr) → (bind_fd addr s.tables).0 ≢ panicked)
      × ((fd : ℕ) → (m : Mailbox (Arrived Packet)) × ((alloc_mailbox fd s.mailboxes).0 ≡ ok m))
      × ((fd : ℕ) → (dealloc_mailbox fd s.mailboxes).0 ≡ ok tt)
      × ((fd p : ℕ) → port_in (s.phase fd) ≡ some p → (free_fd fd s.tables).0 ≡ ok tt)
  unfolding bind_fd alloc_mailbox dealloc_mailbox
  never_panics =
      let v = Reach-Inv s r in
      (
        (λ addr q. bind_front_total addr s.tables.socks.free_fds (ground (arith, v.socks_open))),
        (λ fd. (new_mailbox, ground (arith, v.boxes_open))),
        (λ fd. ground (arith, v.boxes_open)),
        λ fd p h.
            ap (λ (x : Result (Unit {0}) × Tables). x.0)
              (free_fd-in_use fd p s.tables v.socks_open v.ports_open (v.used fd p h)),
      )

  -- What `put_mailbox` does, in any reachable state: for a descriptor between `alloc_mailbox` and
  -- `dealloc_mailbox` it puts the packet into that descriptor's mailbox and leaves the other mailboxes
  -- alone; for any other descriptor it fails with `BadFd`, and the packet is lost.
  pub put_mailbox-Reach :
      (gone : ℕ → Bool) (fd : ℕ) (d : Arrived Packet)
      → (has_box (s.phase fd) ≡ true
          → (m : Mailbox (Arrived Packet)) × (lookup fd s.mailboxes.boxes ≡ some m)
            × (put_mailbox gone fd d s.mailboxes ≡ (
                let (x, sent, m') = put gone d m in
                (x, sent, record s.mailboxes { boxes = insert fd m' s.mailboxes.boxes }))))
        × (has_box (s.phase fd) ≡ false
            → put_mailbox gone fd d s.mailboxes ≡ (err bad_fd, [], s.mailboxes))
  unfolding put_mailbox
  put_mailbox-Reach gone fd d =
      let v = Reach-Inv s r in
      (
        (λ h. let (m, e) = v.boxed fd h in (m, e, ground (arith, v.boxes_open))),
        λ h. ground (arith, v.boxes_open, v.unboxed fd h),
      )
