-- ===== src/Tests/Sockets.antt =====
-- Tests of src/proto/socket.rs and src/proto/udp.rs.
use async_dpdk.Base.{
  ℕ, ◌≡◌, refl, ◌<◌, false, none, some, List, [], ◌∷◌, get_elem?, set, lookup, arith,
}
use async_dpdk.Errno.{no_dev, invalid_arg, Result, ok, err}
use async_dpdk.Addr.{IpAddr, v4, v6, SocketAddr}
use async_dpdk.Socket.{
  in_use, PortTable, Tables, fresh_socks, fresh_ports, bind_port, choose_port, bind_fd, free_fd,
  range_from,
}
use async_dpdk.Socket.Ports.{with_port, bind_port_any}
use async_dpdk.Socket.Fds.{IsValid}
use async_dpdk.Socket.Binding.{bind_fd-IsValid, free_fd-bind_fd}
use async_dpdk.Socket.Freeing.{fresh-IsValid}
use async_dpdk.Socket.Reachable.{Reachable, binds, frees, Reachable-IsValid}
use async_dpdk.Udp.{UdpSocket, World, bind, drop_socket}
use async_dpdk.Udp.Binding.{Blocked, bind_bound_port_diverges, drop_socket-bind}

abbrev pub host : IpAddr
host = v4 10 0 0 1

abbrev pub dns : SocketAddr
dns = record { ip = host; port = 53 }

abbrev pub fresh : Tables
fresh = record { socks = fresh_socks; ports = fresh_ports }

-- The tables with the port 53 bound to the descriptor 0.
abbrev pub opened : Tables
opened = record {
  socks = record fresh_socks {
    opened = set fresh_socks.opened 0 (in_use 53);
    free_fds = range_from 1 8191;
  };
  ports = with_port host 0 53 0 fresh_ports;
}

pub bind_dns : bind_fd dns fresh ≡ (ok (0, 53), opened)
unfolding bind_fd bind_port fresh_socks
bind_dns = refl

opened-IsValid : IsValid opened
unfolding bind_fd bind_port fresh_socks
opened-IsValid = bind_fd-IsValid dns fresh fresh-IsValid

free_fd-bind_fd_example : free_fd 0 opened ≡ (ok tt, fresh)
free_fd-bind_fd_example = free_fd-bind_fd dns fresh 0 53 opened fresh-IsValid bind_dns

opened_unlocked : opened.socks.is_poisoned ≡ false
unfolding fresh_socks
opened_unlocked = refl

opened_front : get_elem? opened.socks.opened 0 ≡ some (in_use 53)
unfolding fresh_socks
opened_front = refl

-- A socket is bound and dropped.
opened-Reachable : Reachable opened
unfolding bind_fd bind_port fresh_socks
opened-Reachable = binds Reachable.fresh dns

Reachable-IsValid_example : IsValid (free_fd 0 opened).1
Reachable-IsValid_example =
    Reachable-IsValid (free_fd 0 opened).1
      (frees opened-Reachable 0 53 opened_front opened_unlocked refl)

bind_port_any_example :
    (p : ℕ) × (p < 65536)
    × (lookup p opened.ports.info ≡ none)
    × (bind_port 0 host 1 opened.ports ≡ (ok p, with_port host 1 p p opened.ports))
bind_port_any_example = bind_port_any host 1 opened.ports refl (omega arith)

abbrev at_last_port : PortTable
at_last_port = record fresh_ports { next_port = 65535 }

abbrev opened_front_rest : List ℕ
opened_front_rest = range_from 2 8190

bound_again : (bind_port 53 host 1 opened.ports).0 ≡ err invalid_arg
unfolding bind_port choose_port
bound_again = refl

-- A device is a number, and a packet a list of bytes.
abbrev pub world : Tables → World ℕ (List ℕ)
world t = record { tables = t; mailboxes = record { is_poisoned = false; boxes = [] } }

abbrev all_devices : IpAddr → Result ℕ
all_devices a = ok 7

abbrev no_devices : IpAddr → Result ℕ
no_devices a = err no_dev

opened-Blocked : Blocked dns opened
unfolding fresh_socks
opened-Blocked = record {
  explicit = omega arith;
  bound = λ e. cc;
  room = omega arith;
  ports_open = refl;
  socks_open = refl;
}

bind_bound_port_diverges_example : bind all_devices (ok (dns ∷ [])) 1000 (world opened) ≡ none
bind_bound_port_diverges_example =
    bind_bound_port_diverges all_devices dns [] 1000 (world opened) opened-Blocked

abbrev dns6 : SocketAddr
dns6 = record { ip = v6 1; port = 53 }

abbrev opened6 : Tables
opened6 = record opened { ports = with_port (v6 1) 0 53 0 fresh_ports }

bind_dns6 : bind_fd dns6 fresh ≡ (ok (0, 53), opened6)
unfolding bind_fd bind_port fresh_socks
bind_dns6 = refl

drop_socket-bind_example :
    (sock : UdpSocket ℕ (List ℕ)) × (w' : World ℕ (List ℕ)) × (bind all_devices
        (ok (dns ∷ []))
        2
        (world fresh)
      ≡ some (ok sock, w'))
    × (drop_socket sock w' ≡ (ok tt, world fresh))
drop_socket-bind_example =
    drop_socket-bind all_devices dns [] 1 0 53 10 0 0 1 (world fresh) opened 7 fresh-IsValid refl
      refl refl refl bind_dns
