-- ===== src/Threads/Changes.antt =====
-- src/proto/udp.rs and src/proto/socket.rs: what the steps of `bind` and of a drop keep.
use async_dpdk.Base.{
  ℕ, length, length-erase-le, length-erase-lt, ◌≡◌, ◌≢◌, refl, sym, ap, ◌∙◌, subst, true, false,
  Option, none, some, List, get_elem?, set, lookup, insert, erase, update, lookup-insert_self,
  lookup-insert_ne, lookup-erase_self, lookup-erase_ne, get_elem?-set_self, get_elem?-set_ne,
  get_elem?-lt, arith,
}
use async_dpdk.Errno.{Result, ok}
use async_dpdk.Addr.{SocketAddr}
use async_dpdk.Socket.{SockState, unused, in_use, SockTable, PortTable, Tables, bind_fd, free_fd}
use async_dpdk.Socket.Fds.{bind_fd-Bound, Bound-IsValid, state_after, self_after, was_unused}
use async_dpdk.Socket.Binding.{free_fd-in_use}
use async_dpdk.Socket.Freeing.{free_fd-IsValid}
use async_dpdk.Socket.Mailbox.{Mailbox, MailboxTable, new_mailbox, alloc_mailbox, dealloc_mailbox}
use async_dpdk.Threads.{
  Arrived, Phase, idle, opening, live, closing, System, bound, with_mailbox, without_mailbox,
  given_back,
}
use async_dpdk.Threads.Phases.{port_in, has_box, Inv, Change-Inv, unused_unboxed}

abbrev in_use_of : Option ℕ → Option SockState
in_use_of none = none
in_use_of (some p) = some (in_use p)

module _ {Packet : Type 0} (s : System Packet) (v : Inv s) where
  pub binds-Inv :
      (addr : SocketAddr) (fd p : ℕ) (t : Tables)
      → bind_fd addr s.tables ≡ (ok (fd, p), t)
      → Inv (bound fd p t s)
  binds-Inv addr fd p t h =
      let b = bind_fd-Bound addr s.tables fd p t h in
      let here = self_after addr s.tables fd p t v.valid b in
      Change-Inv s (bound fd p t s) fd (opening p) v (record {
        socks_open = ap (λ (x : SockTable). x.is_poisoned) b.socks_after ∙ v.socks_open;
        ports_open = ap (λ (x : PortTable). x.is_poisoned) b.ports_after ∙ v.ports_open;
        boxes_open = v.boxes_open;
        valid = Bound-IsValid addr s.tables fd p t v.valid b;
        counted = omega (
          arith,
          v.counted,
          ap length b.front,
          ap (λ (x : SockTable). length x.free_fds) b.socks_after,
          ap (λ (x : PortTable). length x.info) b.ports_after,
          length-erase-le p s.tables.ports.info,
        );
        phase = refl;
        used = λ q e. here ∙ ap in_use_of e;
        unheld = λ q e. cc (e, here);
        boxed = λ e. cc;
        unboxed = λ _. unused_unboxed s fd v (was_unused addr s.tables fd p t v.valid b);
        states_same = λ g n.
            state_after addr s.tables fd p t v.valid b g
            ∙ get_elem?-set_ne s.tables.socks.opened fd g (in_use p) n;
        boxes_same = λ g n. refl;
      })

  -- A phase with the same port, and other mailboxes.
  rephased-Inv :
      (fd p : ℕ) (ph : Phase) (boxes : MailboxTable (Arrived Packet))
      → port_in (s.phase fd) ≡ some p
      → port_in ph ≡ some p
      → boxes.is_poisoned ≡ false
      → (has_box ph ≡ true → (m : Mailbox (Arrived Packet)) × (lookup fd boxes.boxes ≡ some m))
      → (has_box ph ≡ false → lookup fd boxes.boxes ≡ none)
      → ((g : ℕ) → fd ≢ g → lookup g boxes.boxes ≡ lookup g s.mailboxes.boxes)
      → Inv (record s { mailboxes = boxes; phase = update s.phase fd ph })
  rephased-Inv fd p ph boxes h e u i o same =
      let here = v.used fd p h in
      Change-Inv s (record s { mailboxes = boxes; phase = update s.phase fd ph }) fd ph v
        (record {
          socks_open = v.socks_open;
          ports_open = v.ports_open;
          boxes_open = u;
          valid = v.valid;
          counted = v.counted;
          phase = refl;
          used = λ q k. here ∙ ap in_use_of (sym e ∙ k);
          unheld = λ q k. e ∙ cc (here, k);
          boxed = i;
          unboxed = o;
          states_same = λ g n. refl;
          boxes_same = same;
        })

  pub alloc-Inv :
      (fd p : ℕ) (ph : Phase)
      → s.phase fd ≡ opening p
      → port_in ph ≡ some p
      → has_box ph ≡ true
      → Inv (with_mailbox fd ph s)
  unfolding alloc_mailbox
  alloc-Inv fd p ph h e b =
      let boxes : MailboxTable (Arrived Packet) = record s.mailboxes {
        boxes = insert fd new_mailbox s.mailboxes.boxes;
      } in
      let q : (alloc_mailbox fd s.mailboxes).1 ≡ boxes = ground (arith, v.boxes_open) in
      subst
        (λ (x : MailboxTable (Arrived Packet)).
          Inv (record s { mailboxes = x; phase = update s.phase fd ph }))
        (sym q)
        (rephased-Inv fd p ph boxes (ap port_in h) e v.boxes_open
          (λ _. (new_mailbox, lookup-insert_self fd new_mailbox s.mailboxes.boxes)) (λ k. cc (b, k))
          (λ g n. lookup-insert_ne g fd new_mailbox s.mailboxes.boxes (λ k. n (sym k))))

  pub dealloc-Inv : (fd p : ℕ) → s.phase fd ≡ live p → Inv (without_mailbox fd p s)
  unfolding dealloc_mailbox
  dealloc-Inv fd p h =
      let boxes : MailboxTable (Arrived Packet) = record s.mailboxes {
        boxes = erase fd s.mailboxes.boxes;
      } in
      let q : (dealloc_mailbox fd s.mailboxes).1 ≡ boxes = ground (arith, v.boxes_open) in
      subst
        (λ (x : MailboxTable (Arrived Packet)).
          Inv (record s { mailboxes = x; phase = update s.phase fd (closing p) }))
        (sym q)
        (rephased-Inv fd p (closing p) boxes (ap port_in h) refl v.boxes_open (λ k. cc)
          (λ _. lookup-erase_self fd s.mailboxes.boxes)
          (λ g n. lookup-erase_ne g fd s.mailboxes.boxes (λ k. n (sym k))))

  -- `free_fd` of a descriptor with a port and without a mailbox.
  pub given_back-Inv :
      (fd p : ℕ)
      → port_in (s.phase fd) ≡ some p
      → has_box (s.phase fd) ≡ false
      → Inv (given_back fd s)
  given_back-Inv fd p h n =
      let here = v.used fd p h in
      let q = free_fd-in_use fd p s.tables v.socks_open v.ports_open here in
      let opened : (free_fd fd s.tables).1.socks.opened ≡ set s.tables.socks.opened fd unused =
        ap (λ (x : Result (Unit {0}) × Tables). x.1.socks.opened) q in
      let gone : get_elem? (free_fd fd s.tables).1.socks.opened fd ≡ some unused =
        ap (λ (o : List SockState). get_elem? o fd) opened
        ∙ get_elem?-set_self s.tables.socks.opened fd unused
            (get_elem?-lt s.tables.socks.opened fd here) in
      Change-Inv s (given_back fd s) fd idle v (record {
        socks_open =
            ap (λ (x : Result (Unit {0}) × Tables). x.1.socks.is_poisoned) q ∙ v.socks_open;
        ports_open =
            ap (λ (x : Result (Unit {0}) × Tables). x.1.ports.is_poisoned) q ∙ v.ports_open;
        boxes_open = v.boxes_open;
        valid = free_fd-IsValid fd p s.tables v.valid here v.socks_open v.ports_open;
        counted =
            let (i, l, _) = v.valid.owned fd p here in
            omega (
              arith,
              v.counted,
              length-erase-lt p s.tables.ports.info (λ n. cc (l, n)),
              ap (λ (x : Result (Unit {0}) × Tables). length x.1.socks.free_fds) q,
              ap (λ (x : Result (Unit {0}) × Tables). length x.1.ports.info) q,
            );
        phase = refl;
        used = λ k e. cc;
        unheld = λ k e. cc (gone, e);
        boxed = λ e. cc;
        unboxed = λ _. v.unboxed fd n;
        states_same = λ g k.
            ap (λ (o : List SockState). get_elem? o g) opened
            ∙ get_elem?-set_ne s.tables.socks.opened fd g unused k;
        boxes_same = λ g k. refl;
      })
