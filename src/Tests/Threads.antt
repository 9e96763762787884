-- ===== src/Tests/Threads.antt =====
-- Tests of src/proto/udp.rs, src/proto/socket.rs and src/agent.rs together.
use async_dpdk.Base.{ℕ, ◌≡◌, ◌≢◌, refl, false, none, some, [], ◌∷◌, lookup, arith}
use async_dpdk.Errno.{Result, ok, panicked}
use async_dpdk.Addr.{IpAddr, SocketAddr}
use async_dpdk.Socket.{fresh_socks, bind_port, bind_fd, free_fd, addr_2_sockfd}
use async_dpdk.Socket.Mailbox.{Mailbox, new_mailbox, alloc_mailbox, dealloc_mailbox}
use async_dpdk.Udp.{UdpSocket, bind, drop_socket, open_socket}
use async_dpdk.Threads.{
  Arrived, idle, live, System, start_state, bound, with_mailbox, binds, opens, looks, Steps, done,
  next, Reach,
}
use async_dpdk.Threads.Phases.{port_in}
use async_dpdk.Threads.Safety.{never_panics}
use async_dpdk.Threads.Reuse.{put_mailbox-reused}
use async_dpdk.Threads.Runs.{world, drop_socket-Steps, bind-Steps}
use async_dpdk.Tests.Sockets.{host, dns, opened, bind_dns}

abbrev query : Arrived ℕ
query = record { port = 53; packet = 9 }

-- A thread has bound the port 53, and an agent has looked up its descriptor for a packet.
abbrev one_bound : System ℕ
one_bound = bound 0 53 opened start_state

abbrev one_open : System ℕ
one_open = with_mailbox 0 (live 53) one_bound

abbrev one_looked : System ℕ
one_looked = record one_open { looked = (0, query) ∷ [] }

dns_found : addr_2_sockfd 53 host opened.ports ≡ some 0
unfolding addr_2_sockfd
dns_found = refl

one_open-Reach : Reach one_open
one_open-Reach = next (next done (binds dns 0 53 opened bind_dns)) (opens 0 53 refl)

one_looked-Reach : Reach one_looked
one_looked-Reach = next one_open-Reach (looks 0 host query dns_found)

never_panics_example :
    ((addr : SocketAddr) → (bind_fd addr opened).0 ≢ panicked)
    × ((fd : ℕ) → (m : Mailbox (Arrived ℕ)) × ((alloc_mailbox fd one_looked.mailboxes).0 ≡ ok m))
    × ((fd : ℕ) → (dealloc_mailbox fd one_looked.mailboxes).0 ≡ ok tt)
    × ((fd p : ℕ) → port_in (one_looked.phase fd) ≡ some p → (free_fd fd opened).0 ≡ ok tt)
never_panics_example = never_panics one_looked one_looked-Reach

unbound_54 : lookup 54 opened.ports.info ≡ none
unbound_54 = refl

put_mailbox-reused_example :
    (s' : System ℕ) × Steps one_open s'
    × (s'.phase 0 ≡ live 54)
    × (lookup 0 s'.mailboxes.boxes ≡ some (record new_mailbox { received = query ∷ [] }))
put_mailbox-reused_example =
    put_mailbox-reused (λ fd. false) one_open 0 54 host query one_open-Reach refl dns_found
      (λ e. omega (arith, e)) (λ e. omega (arith, e)) unbound_54

abbrev dns_socket : UdpSocket ℕ (Arrived ℕ)
dns_socket = record { sockfd = 0; ip = host; port = 53; device = 7 }

drop_socket-Steps_example :
    (s' : System ℕ) × Steps one_looked s'
    × (drop_socket dns_socket (world one_looked) ≡ (ok tt, world s'))
    × (s'.phase 0 ≡ idle)
drop_socket-Steps_example = drop_socket-Steps one_looked dns_socket 53 one_looked-Reach refl

abbrev find_seven : IpAddr → Result ℕ
find_seven ip = ok 7

bind_returns :
    bind find_seven (ok (dns ∷ [])) 1 (world start_state) ≡ some (ok dns_socket, world one_open)
unfolding bind bind_fd bind_port fresh_socks open_socket alloc_mailbox
bind_returns = refl

bind-Steps_example :
    (s' : System ℕ) × Steps start_state s'
    × (world {Device = ℕ} s' ≡ world one_open)
    × ((sock : UdpSocket ℕ (Arrived ℕ))
        → ok dns_socket ≡ ok sock
        → s'.phase sock.sockfd ≡ live sock.port)
bind-Steps_example =
    bind-Steps find_seven dns [] 1 start_state (ok dns_socket, world one_open) done bind_returns
