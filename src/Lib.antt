-- ===== src/Lib.antt =====
-- async-dpdk: asynchronous networking over DPDK. Sockets are bound in global tables, agents poll
-- the queues of Ethernet devices, and packets go between the two through mailboxes and channels.
--
-- The parts and their files, by the source file:
--   src/errno.rs          Errno (the errors, their codes, from_ret), Errno/Codes
--   src/proto/socket.rs   Socket (descriptors and ports), Socket/Ports, Fds, Binding, Freeing,
--                         Reachable (the tables after any calls);
--                         Socket/Mailbox (the mailboxes), Socket/Mailbox/Fifo
--   src/proto/mod.rs      Proto (protocols and packet types)
--   src/mbuf.rs           Mbuf (segments in memory), Mbuf/Chains, Areas, IterMut; Mbuf/Reading and
--                         Reading/Steps (what the receive functions do with an mbuf that they own)
--   src/alloc.rs          Alloc
--   src/mempool.rs        Mempool (handles and the table of pools), Mempool/Handles (the invariant),
--                         Mempool/Lifecycle, Mempool/Objects, Mempool/Generic (the objects of a generic pool)
--                         with Balance
--   src/packet.rs         Packet (from and to mbufs), Packet/IntoMbuf, Packet/RoundTrip
--   src/proto/udp.rs      Udp (bind, drop, the copy of recv_from), Udp/Binding, Udp/Receive,
--                         Udp/Devices (bind on the table of devices); Udp/Datagram
--                         (handle_ipv4_udp) with Parsing and Single; Udp/Sending (send_to) with Delivery;
--                         Udp/RecvFrom (recv_from), with Roundtrip from send_to to recv_from
--   src/agent.rs          Agent/Frames (parse_ether_proto, handle_ether) with Offloads, Dispatch and Single,
--                         Agent/Polling (the loop over received packets) with Bursts and Frames,
--                         Agent/TxBuffer (with Order, Capacity, Task and Header), Agent/Registry,
--                         Agent/Thread (the thread of an RxAgent and its tables), with Lifetime,
--                         Stopping and Handles (the Arcs of the agent and its drop)
--   udp, socket, agent    Threads (the global tables under any interleaving of threads that bind, read
--                         and drop sockets and of agents that deliver), with Phases, Changes, Failing and
--                         Invariant (what every step keeps), Safety, Runs (bind and drop as runs of the steps),
--                         Reuse (a descriptor that changes its port)
--   all of these          Locks (the locks that each call takes, those of eal, net_dev,
--                         eth_dev and mempool too), with Order and Progress
--   src/eth_dev.rs        EthDev (new, start, stop, sender), EthDev/Lifecycle
--   src/net_dev.rs        NetDev (the table of devices), NetDev/Lookup, NetDev/Stopping
--   src/eal.rs            Eal (the configuration, enter), Eal/Enter; Eal/Shutdown (the drop of
--                         Eal, of the devices, and parse_err)
--   src/lcore.rs          Lcore (role, socket_id)
-- Addr has the addresses of the standard library, Base the shared helpers, Tests the theorems at
-- concrete inputs.
--
-- How they meet. `UdpSocket::bind` (Udp) calls `bind_fd` (Socket), `find_dev_by_ip` (NetDev;
-- a parameter of Udp, which Udp/Devices fills) and `alloc_mailbox` (Socket/Mailbox). NetDev starts
-- and stops the devices of EthDev, which register their queues with the agents of Agent/Registry. A queue's packets wait in
-- Agent/TxBuffer, and Agent/TxBuffer/Task is the loop that sends them. A frame goes from `handle_ether`
-- (Agent/Frames) to `handle_ipv4_udp` (Udp/Datagram), which looks the socket up in the port table,
-- and Agent/Polling puts it into the socket's mailbox, where `recv_from` (Udp/RecvFrom) finds it. In
-- Agent/Polling the table of ports stays as it is during a burst; Threads has the steps of `bind` and
-- of a drop between the two calls of an agent.
-- Every part returns the `Result` of Errno.
--
-- State. A global table is a record with a mark for a poisoned lock, an operation takes the tables
-- that it locks and returns them, also when it fails. A panic is the outcome `panicked`. A map is an
-- association list. A sender of a queue and a receiver of a channel are named by numbers.
--
-- Parameters. What is not the crate's own code is an argument: the constants of libc and of DPDK,
-- what DPDK's calls return, mbufs and `BytesMut` with their documented behaviour, the resolution of
-- names, the texts of numbers, and what `rte_exit` does before it ends the process.
--
-- The machine is one that keeps the low byte of a number first, so `to_be` swaps the bytes.
--
-- Bounds and fuel. A `u16` and a `usize` wrap as in the source. The search for a port has fuel 65537,
-- one more than the numbers of a `u16`: it meets each of them before the fuel runs out. The loops of
-- `UdpSocket::bind` and of `into_mbuf` take their fuel as an argument, and a theorem on them holds for
-- every fuel, or for every fuel of one or more. The iteration over the segments of an mbuf has as fuel
-- at least their number.
--
-- Not modelled: the counts and the number of a core in src/lcore.rs, and has_hugepages, has_pci and
-- runtime_dir of src/eal.rs, which wrap calls of C; the `Debug` implementations; src/test_utils.rs.
pub mod Base
pub mod Errno
pub mod Addr
pub mod Socket
pub mod Proto
pub mod Agent
pub mod Mbuf
pub mod Mempool
pub mod Alloc
pub mod Threads
pub mod Locks
pub mod Packet
pub mod Udp
pub mod EthDev
pub mod NetDev
pub mod Eal
pub mod Lcore
mod Tests
