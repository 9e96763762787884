-- ===== src/Threads/Reuse.antt =====
-- src/proto/udp.rs, src/proto/socket.rs and src/agent.rs together: an agent calls `addr_2_sockfd` and
-- `put_mailbox` under different locks, and `free_fd` puts a descriptor where the next `bind_fd` takes it.
use async_dpdk.Base.{
  ℕ, ◌≡◌, ◌≢◌, refl, ap, ◌∙◌, Bool, false, none, some, List, [], ◌∷◌, length, get_elem?, set,
  get_elem?-set_self, get_elem?-lt, lookup, erase, lookup-insert_self, lookup-erase_ne, update_self,
  arith,
}
use async_dpdk.Errno.{Result, ok}
use async_dpdk.Addr.{IpAddr, SocketAddr}
use async_dpdk.Socket.{
  unused, in_use, PortTable, Tables, mark_in_use, bind_front, bind_fd, addr_2_sockfd,
}
use async_dpdk.Socket.Ports.{with_port, bind_port_given}
use async_dpdk.Socket.Binding.{free_fd-in_use}
use async_dpdk.Socket.Mailbox.{Mailbox, MailboxTable, new_mailbox, alloc_mailbox, put, put_mailbox}
use async_dpdk.Threads.{
  Arrived, opening, live, closing, System, bound, with_mailbox, without_mailbox, given_back,
  delivered, binds, opens, deallocs, frees, looks, puts, Steps, done, next, Reach,
}
use async_dpdk.Threads.Phases.{port_in}
use async_dpdk.Threads.Invariant.{Steps-Inv, Reach-Inv}

-- `bind_fd` takes the front of the queue, for a port that is not bound.
bind_fd_front :
    (addr : SocketAddr) (fd : ℕ) (rest : List ℕ) (t : Tables)
    → t.socks.is_poisoned ≡ false
    → t.ports.is_poisoned ≡ false
    → t.socks.free_fds ≡ fd ∷ rest
    → get_elem? t.socks.opened fd ≡ some unused
    → addr.port ≢ 0
    → length t.ports.info ≢ 65534
    → lookup addr.port t.ports.info ≡ none
    → (t' : Tables) × (bind_fd addr t ≡ (ok (fd, addr.port), t'))
unfolding bind_fd
bind_fd_front addr fd rest t u w f o z n e =
    let b = (bind_port_given addr.ip fd addr.port t.ports z w).2 n e in
    (
      record {
        socks = record t.socks {
          free_fds = rest;
          opened = set t.socks.opened fd (in_use addr.port);
        };
        ports = with_port addr.ip fd addr.port t.ports.next_port t.ports;
      },
      ground (arith, u)
          ∙ ap (λ (fds : List ℕ). bind_front addr fds t) f
          ∙ ap (λ (x : Result ℕ × PortTable). mark_in_use fd x (record t.socks { free_fds = rest }))
              b
          ∙ ground (arith, o),
    )

module _ {Packet : Type 0} (gone : ℕ → Bool) where
  put_mailbox-alloc_mailbox :
      (fd : ℕ) (d : Arrived Packet) (t : MailboxTable (Arrived Packet))
      → t.is_poisoned ≡ false
      → lookup fd (put_mailbox gone fd d (alloc_mailbox fd t).1).2.boxes
        ≡ some (record new_mailbox { received = d ∷ [] })
  unfolding put_mailbox alloc_mailbox put
  put_mailbox-alloc_mailbox fd d t u =
      ground (arith, lookup-insert_self {A = Mailbox (Arrived Packet)} fd new_mailbox t.boxes)

  -- A packet for the wrong socket: in any reachable state let `fd` be the descriptor of a socket on
  -- the destination port of a packet `d`, which `addr_2_sockfd` finds for that port, and `q` a port
  -- that is not bound, not 0 and not that port. Then a run of the threads from there leads to a state
  -- in which `fd` is the descriptor of a socket on `q`, in whose mailbox lies exactly `d`, a packet
  -- for another port.
  pub put_mailbox-reused :
      (s : System Packet) (fd q : ℕ) (ip : IpAddr) (d : Arrived Packet)
      → Reach s
      → s.phase fd ≡ live d.port
      → addr_2_sockfd d.port ip s.tables.ports ≡ some fd
      → q ≢ 0
      → q ≢ d.port
      → lookup q s.tables.ports.info ≡ none
      → (s' : System Packet) × Steps s s'
        × (s'.phase fd ≡ live q)
        × (lookup fd s'.mailboxes.boxes ≡ some (record new_mailbox { received = d ∷ [] }))
  put_mailbox-reused s fd q ip d r h l z n e =
      let p = d.port in
      let v = Reach-Inv s r in
      let s0 = record s { looked = (fd, d) ∷ s.looked } in
      let r0 : Steps s s0 = next done (looks fd ip d l) in
      let s1 = without_mailbox fd p s0 in
      let r1 : Steps s s1 = next r0 (deallocs fd p h) in
      let s2 = given_back fd s1 in
      let r2 : Steps s s2 = next r1 (frees fd p (update_self s.phase fd (closing p))) in
      let v2 = Steps-Inv r2 v in
      let used = v.used fd p (ap port_in h) in
      let f = free_fd-in_use fd p s.tables v.socks_open v.ports_open used in
      let info : s2.tables.ports.info ≡ erase p s.tables.ports.info =
        ap (λ (x : Result (Unit {0}) × Tables). x.1.ports.info) f in
      let addr : SocketAddr = record { ip = ip; port = q } in
      let (t, b) =
        bind_fd_front addr fd s.tables.socks.free_fds s2.tables v2.socks_open v2.ports_open
          (ap (λ (x : Result (Unit {0}) × Tables). x.1.socks.free_fds) f)
          (ap (λ (x : Result (Unit {0}) × Tables). get_elem? x.1.socks.opened fd) f
            ∙ get_elem?-set_self s.tables.socks.opened fd unused
                (get_elem?-lt s.tables.socks.opened fd used))
          z (omega (arith, v2.counted))
          (ap (lookup q) info ∙ lookup-erase_ne q p s.tables.ports.info n ∙ e) in
      let s3 = bound fd q t s2 in
      let r3 : Steps s s3 = next r2 (binds addr fd q t b) in
      let s4 = with_mailbox fd (live q) s3 in
      let r4 : Steps s s4 = next r3 (opens fd q (update_self s2.phase fd (opening q))) in
      let s5 = delivered gone fd d s.looked s4 in
      (
        s5,
        next r4 (puts gone fd d [] s.looked refl),
        update_self s3.phase fd (live q),
        put_mailbox-alloc_mailbox fd d s3.mailboxes (Steps-Inv r3 v).boxes_open,
      )
