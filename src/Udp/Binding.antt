-- ===== src/Udp/Binding.antt =====
-- src/proto/udp.rs: `UdpSocket::bind` and the drop of a socket.
use async_dpdk.Base.{
  ℕ, zero, suc, ◌≡◌, refl, ap, ◌∙◌, ◌≢◌, false, none, some, List, [], ◌∷◌, length, lookup, insert,
  erase-insert, arith,
}
use async_dpdk.Errno.{Error, invalid_arg, no_buf, Result, ok, err}
use async_dpdk.Addr.{IpAddr, v4, v6, SocketAddr}
use async_dpdk.Socket.{Tables, PortTable, bind_port, bind_fd, free_fd}
use async_dpdk.Socket.Ports.{bind_port_given}
use async_dpdk.Socket.Fds.{IsValid}
use async_dpdk.Socket.Binding.{bind_fd_leaks, without_front, free_fd-bind_fd}
use async_dpdk.Socket.Mailbox.{new_mailbox, MailboxTable, alloc_mailbox, dealloc_mailbox}
use async_dpdk.Udp.{UdpSocket, World, open_socket, after_bind_fd, bind, drop_socket}

bind_fd_empty :
    (addr : SocketAddr) (t : Tables)
    → t.socks.is_poisoned ≡ false
    → t.socks.free_fds ≡ []
    → bind_fd addr t ≡ (err no_buf, t)
unfolding bind_fd
bind_fd_empty addr t u e = ground arith

-- The port that an address asks for is bound, the lock of neither table is poisoned, and the table of
-- ports is not full.
pub record Blocked (addr : SocketAddr) (t : Tables) : Type 0 where
  pub explicit : addr.port ≢ 0
  pub bound : lookup addr.port t.ports.info ≢ none
  pub room : length t.ports.info ≢ 65534
  pub ports_open : t.ports.is_poisoned ≡ false
  pub socks_open : t.socks.is_poisoned ≡ false

refused :
    (addr : SocketAddr) (fd : ℕ) (t : Tables)
    → Blocked addr t
    → (bind_port addr.port addr.ip fd t.ports).0 ≡ err invalid_arg
refused addr fd t b =
    ap (λ (x : Result ℕ × PortTable). x.0)
      ((bind_port_given addr.ip fd addr.port t.ports b.explicit b.ports_open).1 b.room b.bound)

-- Such a bind fails, and leaves the tables such that the next one fails too.
bind_fd-Blocked :
    (addr : SocketAddr) (t : Tables) (fds : List ℕ)
    → t.socks.free_fds ≡ fds
    → Blocked addr t
    → (e : Error) × (t' : Tables) × (bind_fd addr t ≡ (err e, t')) × Blocked addr t'
bind_fd-Blocked addr t [] f b = (no_buf, t, bind_fd_empty addr t b.socks_open f, b)
bind_fd-Blocked addr t (fd ∷ rest) f b = (
  invalid_arg,
  without_front rest t,
  bind_fd_leaks addr t fd rest invalid_arg b.socks_open f (refused addr fd t b),
  record {
    explicit = b.explicit;
    bound = b.bound;
    room = b.room;
    ports_open = b.ports_open;
    socks_open = b.socks_open;
  },
)

module _ {Device Packet : Type 0} (find_dev : IpAddr → Result Device) (addr : SocketAddr) where
  bind-again :
      (more : List SocketAddr) (fuel : ℕ) (w : World Device Packet) (e : Error) (t : Tables)
      → bind_fd addr w.tables ≡ (err e, t)
      → bind find_dev (ok (addr ∷ more)) (suc fuel) w
        ≡ bind find_dev (ok (addr ∷ more)) fuel (record w { tables = t })
  unfolding bind
  bind-again more fuel w e t h =
      ap (after_bind_fd find_dev addr (bind find_dev (ok (addr ∷ more)) fuel) w) h

  bind-found :
      (more : List SocketAddr) (fuel fd p : ℕ) (w : World Device Packet) (t : Tables)
      → bind_fd addr w.tables ≡ (ok (fd, p), t)
      → bind find_dev (ok (addr ∷ more)) (suc fuel) w
        ≡ some (open_socket find_dev addr fd p (record w { tables = t }))
  unfolding bind
  bind-found more fuel fd p w t h =
      ap (after_bind_fd find_dev addr (bind find_dev (ok (addr ∷ more)) fuel) w) h

  -- A call of `bind` for a port that is bound already never returns, whatever the fuel: the loop tries
  -- the same address again and again.
  pub bind_bound_port_diverges :
      (more : List SocketAddr) (fuel : ℕ) (w : World Device Packet)
      → Blocked addr w.tables
      → bind find_dev (ok (addr ∷ more)) fuel w ≡ none
  unfolding bind
  bind_bound_port_diverges more zero w b = refl
  bind_bound_port_diverges more (suc fuel) w b =
      let (e, t, q, b') = bind_fd-Blocked addr w.tables w.tables.socks.free_fds refl b in
      bind-again more fuel w e t q ∙ bind_bound_port_diverges more fuel (record w { tables = t }) b'

  pub open_socket-refused :
      (fd p : ℕ) (w : World Device Packet) (e : Error) (t : Tables)
      → find_dev addr.ip ≡ err e
      → free_fd fd w.tables ≡ (ok tt, t)
      → open_socket find_dev addr fd p w ≡ (err invalid_arg, record w { tables = t })
  unfolding open_socket
  open_socket-refused fd p w e t d f = ground arith

  -- Without a device for the address, `bind` gives the descriptor and the port back: it ends at once
  -- with `InvalidArg`, and the tables are as before, but for the start of the port search.
  pub bind_without_device :
      (more : List SocketAddr) (fuel fd p : ℕ) (w : World Device Packet) (t : Tables) (e : Error)
      → IsValid w.tables
      → find_dev addr.ip ≡ err e
      → bind_fd addr w.tables ≡ (ok (fd, p), t)
      → bind find_dev (ok (addr ∷ more)) (suc fuel) w
        ≡ some (
          err invalid_arg,
          record w {
            tables = record w.tables {
              ports = record w.tables.ports { next_port = t.ports.next_port };
            };
          },
        )
  bind_without_device more fuel fd p w t e v d h =
      bind-found more fuel fd p w t h
      ∙ ap some (
          open_socket-refused fd p (record w { tables = t }) e _ d
            (free_fd-bind_fd addr w.tables fd p t v h))

  -- The mailboxes with a new one.
  abbrev pub with_box : ℕ → MailboxTable Packet → MailboxTable Packet
  with_box fd m = record m { boxes = insert fd new_mailbox m.boxes }

  pub opened :
      (a b c d fd p : ℕ) (w : World Device Packet) (dev : Device)
      → addr.ip ≡ v4 a b c d
      → w.mailboxes.is_poisoned ≡ false
      → find_dev addr.ip ≡ ok dev
      → open_socket find_dev addr fd p w ≡ (
        ok (record { sockfd = fd; ip = v4 a b c d; port = p; device = dev }),
        record w { mailboxes = with_box fd w.mailboxes },
      )
  unfolding open_socket alloc_mailbox
  opened a b c d fd p w dev i m f = ground arith

  pub opened_v6 :
      (n fd p : ℕ) (w : World Device Packet) (dev : Device)
      → addr.ip ≡ v6 n
      → w.mailboxes.is_poisoned ≡ false
      → find_dev addr.ip ≡ ok dev
      → open_socket find_dev addr fd p w
        ≡ (err invalid_arg, record w { mailboxes = with_box fd w.mailboxes })
  unfolding open_socket alloc_mailbox
  opened_v6 n fd p w dev i m f = ground arith

  -- For an IPv6 address with a device, `bind` fails with `InvalidArg` and gives nothing back: the port
  -- and the descriptor stay bound, and the mailbox stays in the table.
  pub bind_v6_leaks :
      (more : List SocketAddr) (fuel fd p n : ℕ) (w : World Device Packet) (t : Tables)
      (dev : Device)
      → addr.ip ≡ v6 n
      → w.mailboxes.is_poisoned ≡ false
      → find_dev addr.ip ≡ ok dev
      → bind_fd addr w.tables ≡ (ok (fd, p), t)
      → bind find_dev (ok (addr ∷ more)) (suc fuel) w
        ≡ some (err invalid_arg, record { tables = t; mailboxes = with_box fd w.mailboxes })
  bind_v6_leaks more fuel fd p n w t dev i m f h =
      bind-found more fuel fd p w t h
      ∙ ap some (opened_v6 n fd p (record w { tables = t }) dev i m f)

  -- For an IPv4 address with a device, `bind` returns a socket with the descriptor, the port and the
  -- device, and an empty mailbox is in the table under the descriptor.
  pub bind_v4 :
      (more : List SocketAddr) (fuel fd p a b c d : ℕ) (w : World Device Packet) (t : Tables)
      (dev : Device)
      → addr.ip ≡ v4 a b c d
      → w.mailboxes.is_poisoned ≡ false
      → find_dev addr.ip ≡ ok dev
      → bind_fd addr w.tables ≡ (ok (fd, p), t)
      → bind find_dev (ok (addr ∷ more)) (suc fuel) w
        ≡ some (
          ok (record { sockfd = fd; ip = v4 a b c d; port = p; device = dev }),
          record { tables = t; mailboxes = with_box fd w.mailboxes },
        )
  bind_v4 more fuel fd p a b c d w t dev i m f h =
      bind-found more fuel fd p w t h
      ∙ ap some (opened a b c d fd p (record w { tables = t }) dev i m f)

  -- `drop_socket` on the state behind `bind_fd` and `alloc_mailbox`.
  drop_socket-bind_fd :
      (s : UdpSocket Device Packet) (p : ℕ) (w : World Device Packet) (t : Tables)
      → IsValid w.tables
      → w.mailboxes.is_poisoned ≡ false
      → lookup s.sockfd w.mailboxes.boxes ≡ none
      → bind_fd addr w.tables ≡ (ok (s.sockfd, p), t)
      → drop_socket s (record { tables = t; mailboxes = with_box s.sockfd w.mailboxes }) ≡ (
        ok tt,
        record w {
          tables = record w.tables {
            ports = record w.tables.ports { next_port = t.ports.next_port };
          };
        },
      )
  unfolding drop_socket dealloc_mailbox
  drop_socket-bind_fd s p w t v m l h = ground (
    arith,
    free_fd-bind_fd addr w.tables s.sockfd p t v h,
    erase-insert s.sockfd new_mailbox w.mailboxes.boxes l,
  )

  -- Let the tables be valid, the lock of the mailboxes not poisoned, the address an IPv4 one with a
  -- device, `bind_fd` for it succeed with a descriptor, and no mailbox be in the table under that
  -- descriptor. Then `bind` returns a socket, and dropping that socket at once does not panic and
  -- frees all that `bind` took: descriptor, port and mailbox; only the start of the next port search
  -- stays changed.
  pub drop_socket-bind :
      (more : List SocketAddr) (fuel fd p a b c d : ℕ) (w : World Device Packet) (t : Tables)
      (dev : Device)
      → IsValid w.tables
      → w.mailboxes.is_poisoned ≡ false
      → lookup fd w.mailboxes.boxes ≡ none
      → addr.ip ≡ v4 a b c d
      → find_dev addr.ip ≡ ok dev
      → bind_fd addr w.tables ≡ (ok (fd, p), t)
      → (sock : UdpSocket Device Packet) × (w' : World Device Packet) × (bind find_dev
            (ok (addr ∷ more))
            (suc fuel)
            w
          ≡ some (ok sock, w'))
        × (drop_socket sock w' ≡ (
          ok tt,
          record w {
            tables = record w.tables {
              ports = record w.tables.ports { next_port = t.ports.next_port };
            };
          },
        ))
  drop_socket-bind more fuel fd p a b c d w t dev v m l i f h =
      let sock : UdpSocket Device Packet = record {
        sockfd = fd;
        ip = v4 a b c d;
        port = p;
        device = dev;
      } in
      (
        sock,
        record { tables = t; mailboxes = with_box fd w.mailboxes },
        bind_v4 more fuel fd p a b c d w t dev i m f h,
        drop_socket-bind_fd sock p w t v m l h,
      )
