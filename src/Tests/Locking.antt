-- ===== src/Tests/Locking.antt =====
-- Tests of the order of locks.
use async_dpdk.Base.{◌≡◌, ◌⊎◌, refl, none, some, List, [], ◌∷◌, All}
use async_dpdk.Locks.{
  Call, binds_fd, frees_fd, receives, polls_round, reads_context, sets_context, probes, stops_all,
  Action, acquires, releases, sock_table, port_table, Holder, program, Move, takes, Moves, still,
  then_move, at_start,
}
use async_dpdk.Locks.Progress.{Moves-at_start}

-- A thread that enters the EAL while another one has, and one that stops two devices.
abbrev admins : List (List Call)
admins =
    (reads_context ∷ sets_context (some (0 ∷ 1 ∷ [])) ∷ probes 4 ∷ [])
    ∷ (stops_all (
          record { tx = 0; rx = 0; tx_queues = 2; rx_queues = 1; gone = 0 ∷ [] }
          ∷ record { tx = 1; rx = 1; tx_queues = 1; rx_queues = 1; gone = 1 ∷ [] }
          ∷ [])
        ∷ [])
    ∷ []

-- A thread that binds a socket and reads from it, one that drops a socket, an agent with a packet, and these.
abbrev threads : List (List Call)
threads =
    (binds_fd ∷ receives 3 ∷ [])
    ∷ (frees_fd ∷ [])
    ∷ (polls_round 0 (some 3 ∷ none ∷ []) ∷ [])
    ∷ admins

-- The first one has the table of the sockets.
abbrev behind : List Action
behind = acquires port_table ∷ releases ∷ releases ∷ program (receives 3 ∷ [])

abbrev others : List Holder
others = at_start ((frees_fd ∷ []) ∷ (polls_round 0 (some 3 ∷ none ∷ []) ∷ []) ∷ admins)

abbrev one_taken : List Holder
one_taken = record { held = sock_table ∷ []; todo = behind } ∷ others

one_taken-Moves : Moves (at_start threads) one_taken
one_taken-Moves = then_move still (takes [] others [] sock_table behind refl)

Moves-at_start_example :
    All (λ (t : Holder). t.todo ≡ []) one_taken ⊎ ((us : List Holder) × Move one_taken us)
Moves-at_start_example = Moves-at_start threads one_taken one_taken-Moves
