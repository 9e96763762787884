-- ===== src/Threads/Runs.antt =====
-- src/proto/udp.rs: `UdpSocket::bind` and the drop of a socket are runs of the steps of `Threads`.
use async_dpdk.Base.{
  ℕ, zero, suc, ◌≡◌, refl, sym, ap, subst, false, Option, some, List, ◌∷◌, update, update_self,
  arith,
}
use async_dpdk.Errno.{Result, ok, err, panicked}
use async_dpdk.Addr.{IpAddr, v4, v6, SocketAddr}
use async_dpdk.Socket.{Tables, bind_fd, free_fd}
use async_dpdk.Socket.Mailbox.{alloc_mailbox, dealloc_mailbox}
use async_dpdk.Udp.{UdpSocket, World, open_socket, after_bind_fd, bind, drop_socket}
use async_dpdk.Udp.Binding.{with_box, opened, opened_v6, open_socket-refused}
use async_dpdk.Threads.{
  Arrived, Phase, idle, opening, live, abandoned, closing, System, bound, with_mailbox,
  without_mailbox, given_back, binds, bind_fails, opens, abandons, gives_back, deallocs, frees,
  Steps, done, next, Reach,
}
use async_dpdk.Threads.Phases.{port_in}
use async_dpdk.Threads.Invariant.{Reach-Inv}
use async_dpdk.Threads.Safety.{never_panics}

module _ {Packet : Type 0} where
  pub Steps-trans : {s t u : System Packet} → Steps s t → Steps t u → Steps s u
  Steps-trans r done = r
  Steps-trans r (next q st) = next (Steps-trans r q) st

module _ {Device Packet : Type 0} where
  -- The tables of a state.
  abbrev pub world : System Packet → World Device (Arrived Packet)
  world s = record { tables = s.tables; mailboxes = s.mailboxes }

  -- A drop whose two calls succeed.
  drop_socket-ok :
      (sock : UdpSocket Device (Arrived Packet)) (w : World Device (Arrived Packet))
      → (dealloc_mailbox sock.sockfd w.mailboxes).0 ≡ ok tt
      → (free_fd sock.sockfd w.tables).0 ≡ ok tt
      → drop_socket sock w ≡ (
        ok tt,
        record {
          tables = (free_fd sock.sockfd w.tables).1;
          mailboxes = (dealloc_mailbox sock.sockfd w.mailboxes).1;
        },
      )
  unfolding drop_socket
  drop_socket-ok sock w a b = ground arith

  -- The drop of a socket, in any reachable state: it does not panic, it is a run of the steps of the
  -- threads, and behind it no thread has the descriptor.
  pub drop_socket-Steps :
      (s : System Packet) (sock : UdpSocket Device (Arrived Packet)) (p : ℕ)
      → Reach s
      → s.phase sock.sockfd ≡ live p
      → (s' : System Packet) × Steps s s'
        × (drop_socket sock (world s) ≡ (ok tt, world s'))
        × (s'.phase sock.sockfd ≡ idle)
  drop_socket-Steps s sock p r h =
      let fd = sock.sockfd in
      let s1 = without_mailbox fd p s in
      let r1 : Steps s s1 = next done (deallocs fd p h) in
      let (_, _, a, b) = never_panics s r in
      (
        given_back fd s1,
        next r1 (frees fd p (update_self s.phase fd (closing p))),
        drop_socket-ok sock (world s) (a fd) (b fd p (ap port_in h)),
        update_self s1.phase fd idle,
      )

  -- What a run from `s` with the answer `x` has to show: it ends in the tables of the answer, and a socket
  -- of the answer has its descriptor and its port.
  abbrev pub RunTo :
      System Packet
      → Result (UdpSocket Device (Arrived Packet)) × World Device (Arrived Packet)
      → Type 0
  RunTo s x =
      (s' : System Packet) × Steps s s'
      × (world s' ≡ x.1)
      × ((sock : UdpSocket Device (Arrived Packet))
          → x.0 ≡ ok sock
          → s'.phase sock.sockfd ≡ live sock.port)

  module _ (find_dev : IpAddr → Result Device) (addr : SocketAddr) where
    world_alloc :
        (fd : ℕ) (ph : Phase) (s : System Packet)
        → s.mailboxes.is_poisoned ≡ false
        → world (with_mailbox fd ph s)
          ≡ record (world s) { mailboxes = with_box find_dev addr fd s.mailboxes }
    unfolding alloc_mailbox
    world_alloc fd ph s u = ground arith

    with_device-Steps :
        (ip : IpAddr) (fd p : ℕ) (dev : Device) (s : System Packet)
        → Reach s
        → s.phase fd ≡ opening p
        → find_dev addr.ip ≡ ok dev
        → addr.ip ≡ ip
        → RunTo s (open_socket find_dev addr fd p (world s))
    with_device-Steps (v4 a b c d) fd p dev s r h f i =
        let u = (Reach-Inv s r).boxes_open in
        subst (RunTo s) (sym (opened find_dev addr a b c d fd p (world s) dev i u f)) (
          with_mailbox fd (live p) s,
          next done (opens fd p h),
          world_alloc fd (live p) s u,
          λ sock e.
              let sock' : UdpSocket Device (Arrived Packet) = record {
                sockfd = fd;
                ip = v4 a b c d;
                port = p;
                device = dev;
              } in
              let same : sock' ≡ sock = cc (e) in
              subst
                (λ (x : UdpSocket Device (Arrived Packet)).
                  update s.phase fd (live p) x.sockfd ≡ live x.port)
                same (update_self s.phase fd (live p)),
        )
    with_device-Steps (v6 n) fd p dev s r h f i =
        let u = (Reach-Inv s r).boxes_open in
        subst (RunTo s) (sym (opened_v6 find_dev addr n fd p (world s) dev i u f)) (
          with_mailbox fd (abandoned p) s,
          next done (abandons fd p h),
          world_alloc fd (abandoned p) s u,
          λ sock e. cc,
        )

    open_socket-panicked :
        (fd p : ℕ) (w : World Device (Arrived Packet))
        → find_dev addr.ip ≡ panicked
        → open_socket find_dev addr fd p w ≡ (panicked, w)
    unfolding open_socket
    open_socket-panicked fd p w f = ground arith

    open_socket-Steps :
        (fd p : ℕ) (s : System Packet)
        → Reach s
        → s.phase fd ≡ opening p
        → (x : Result Device) → find_dev addr.ip ≡ x
        → RunTo s (open_socket find_dev addr fd p (world s))
    open_socket-Steps fd p s r h (ok dev) f = with_device-Steps addr.ip fd p dev s r h f refl
    open_socket-Steps fd p s r h (err e) f =
        let (_, _, _, b) = never_panics s r in
        let q =
          open_socket-refused find_dev addr fd p (world s) e _ f
            (ap (λ x. (x, (free_fd fd s.tables).1)) (b fd p (ap port_in h))) in
        subst (RunTo s) (sym q) (given_back fd s, next done (gives_back fd p h), refl, λ sock k. cc)
    open_socket-Steps fd p s r h panicked f =
        subst (RunTo s) (sym (open_socket-panicked fd p (world s) f)) (s, done, refl, λ sock k. cc)

    bind-round :
        (again : World Device (Arrived Packet)
          → Option (Result (UdpSocket Device (Arrived Packet)) × World Device (Arrived Packet)))
        (s : System Packet)
        (x : Result (UdpSocket Device (Arrived Packet)) × World Device (Arrived Packet))
        (y : Result (ℕ × ℕ) × Tables)
        → Reach s
        → ((s1 : System Packet) → Reach s1 → again (world s1) ≡ some x → RunTo s1 x)
        → bind_fd addr s.tables ≡ y
        → after_bind_fd find_dev addr again (world s) y ≡ some x
        → RunTo s x
    bind-round again s x (ok (fd, p), t) r rest q k =
        let s1 = bound fd p t s in
        let r1 : Steps s s1 = next done (binds addr fd p t q) in
        let (s', r', e, o) =
          open_socket-Steps fd p s1 (Steps-trans r r1) (update_self s.phase fd (opening p))
            (find_dev addr.ip) refl in
        subst (RunTo s) (cc (k)) (s', Steps-trans r1 r', e, o)
    bind-round again s x (err e, t) r rest q k =
        let s1 = record s { tables = t } in
        let r1 : Steps s s1 = next done (bind_fails addr e t q) in
        let (s', r', e', o) = rest s1 (Steps-trans r r1) k in (s', Steps-trans r1 r', e', o)
    bind-round again s x (panicked, t) r rest q k =
        absurd ((never_panics s r).0 addr (ap (λ (z : Result (ℕ × ℕ) × Tables). z.0) q))

    -- A call of `bind` whose address resolves, from any reachable state: when it returns, a run
    -- of the steps of the threads leads to the tables that it leaves, and when it returns a
    -- socket, that run ends with a socket of its port on its descriptor.
    pub bind-Steps :
        (more : List SocketAddr) (fuel : ℕ) (s : System Packet)
        (x : Result (UdpSocket Device (Arrived Packet)) × World Device (Arrived Packet))
        → Reach s
        → bind find_dev (ok (addr ∷ more)) fuel (world s) ≡ some x
        → (s' : System Packet) × Steps s s'
          × (world s' ≡ x.1)
          × ((sock : UdpSocket Device (Arrived Packet))
              → x.0 ≡ ok sock
              → s'.phase sock.sockfd ≡ live sock.port)
    unfolding bind
    bind-Steps more zero s x r h = cc
    bind-Steps more (suc fuel) s x r h =
        bind-round (bind find_dev (ok (addr ∷ more)) fuel) s x (bind_fd addr s.tables) r
          (λ s1. bind-Steps more fuel s1 x) refl h
