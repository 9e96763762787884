-- ===== src/Tests/Rounds.antt =====
-- Tests of the thread of an `RxAgent` in src/agent.rs.
use async_dpdk.Base.{
  ℕ, replicate, ◌+◌, ◌≡◌, refl, true, false, Option, none, some, List, [], ◌∷◌, ◌==◌, if◌then◌else◌,
  pos,
}
use async_dpdk.Errno.{no_mem, Result, ok, err}
use async_dpdk.Agent.Registry.{Queue, rx_start, rx_stop, rx_register, polled}
use async_dpdk.Agent.Thread.{
  Dpdk, polling, ended, RxThread, Turn, polls, registers, stops, drops, start, make_tables,
  thread_turn, run,
}
use async_dpdk.Agent.Thread.Lifetime.{tables_of, rows_of, run-tables_of}
use async_dpdk.Agent.Thread.Stopping.{run-stops, register_unpolled}
use async_dpdk.Agent.Thread.Handles.{drop_polls_on}
use async_dpdk.Tests.Values.{dpdk_ptypes}
use async_dpdk.Tests.Mbufs.{pktmbuf}
use async_dpdk.Tests.Frames.{ether_types, no_fragments, bound}
use async_dpdk.Tests.Polling.{received}

-- One address for each table and each death row.
abbrev memory : Dpdk
memory = record {
  tsc_hz = 1000000;
  frag_table_create = λ buckets size entries cycles socket. some 100;
  zmalloc_socket = λ size socket. some 200;
  row_size = 512;
}

-- The queue of the port 0 has two packets in the first round.
abbrev first_burst : ℕ → Queue → List (Option ℕ)
first_burst n q = if n == 0 then some 1 ∷ some 2 ∷ [] else []

abbrev silence : ℕ → Queue → List (Option ℕ)
silence n q = []

abbrev run_here : Dpdk → List Turn → RxThread (List ℕ) → RxThread (List ℕ)
run_here dpdk =
    run dpdk (pos 0) first_burst (λ ch. false) ether_types pktmbuf no_fragments dpdk_ptypes
      (λ xs. xs) 1 bound

abbrev served : List Turn
served = registers (0, 0) ∷ polls ∷ []

served_thread : (run_here memory served (start received)).thread ≡ polling 100 200
unfolding thread_turn make_tables rx_register polled
served_thread = refl

run-tables_of_example :
    ((run_here memory served (start received)).tables
      ≡ tables_of (run_here memory served (start received)).thread)
    × ((run_here memory served (start received)).rows
        ≡ rows_of (run_here memory served (start received)).thread)
run-tables_of_example =
    run-tables_of memory (pos 0) first_burst (λ ch. false) ether_types pktmbuf no_fragments
      dpdk_ptypes (λ xs. xs) 1 bound served received (λ e. cc (e, served_thread))

abbrev at_work : RxThread (List ℕ)
at_work = record (start received) {
  thread = polling 100 200;
  tables = 100 ∷ [];
  rows = 200 ∷ [];
  agent = record rx_start { tasks = (0, 0) ∷ [] };
}

run-stops_example :
    ((run_here memory (stops ∷ polls ∷ registers (0, 1) ∷ polls ∷ []) at_work).world ≡ received)
    × ((run_here memory (stops ∷ polls ∷ registers (0, 1) ∷ polls ∷ []) at_work).agent
        ≡ rx_stop at_work.agent)
    × ((x : Result (Unit {0})) × ((run_here memory (stops ∷ polls ∷ polls ∷ []) at_work).thread
          ≡ ended x))
run-stops_example =
    run-stops memory (pos 0) first_burst (λ ch. false) ether_types pktmbuf no_fragments dpdk_ptypes
      (λ xs. xs) 1 bound (polls ∷ registers (0, 1) ∷ polls ∷ []) at_work refl (λ e. cc (e))

abbrev no_memory : Dpdk
no_memory = record memory { frag_table_create = λ buckets size entries cycles socket. none }

register_unpolled_example :
    ((run_here no_memory (polls ∷ registers (0, 0) ∷ polls ∷ []) (start received)).thread
      ≡ ended (err no_mem))
    × ((run_here no_memory (polls ∷ registers (0, 0) ∷ polls ∷ []) (start received)).world
        ≡ received)
    × (rx_register (0, 0) (run_here no_memory (polls ∷ []) (start received)).agent
        ≡ (ok tt, record rx_start { tasks = (0, 0) ∷ [] }))
register_unpolled_example =
    register_unpolled no_memory (pos 0) first_burst (λ ch. false) ether_types pktmbuf no_fragments
      dpdk_ptypes (λ xs. xs) 1 bound (0, 0) (polls ∷ []) received refl

abbrev run_silent : List Turn → RxThread (List ℕ) → RxThread (List ℕ)
run_silent =
    run memory (pos 0) silence (λ ch. false) ether_types pktmbuf no_fragments dpdk_ptypes (λ xs. xs)
      1 bound

silent_thread : (run_silent served (start received)).thread ≡ polling 100 200
unfolding thread_turn make_tables rx_register polled
silent_thread = refl

silent_running : (run_silent served (start received)).agent.running ≡ true
unfolding thread_turn make_tables rx_register polled
silent_running = refl

silent_open : (run_silent served (start received)).agent.is_poisoned ≡ false
unfolding thread_turn make_tables rx_register polled
silent_open = refl

drop_polls_on_example :
    ((run_silent (drops ∷ replicate 5 polls) (run_silent served (start received))).thread
      ≡ polling 100 200)
    × ((run_silent (drops ∷ replicate 5 polls) (run_silent served (start received))).round
        ≡ (run_silent served (start received)).round + 5)
drop_polls_on_example =
    drop_polls_on memory (pos 0) silence (λ ch. false) ether_types pktmbuf no_fragments dpdk_ptypes
      (λ xs. xs) 1 bound served received 5 100 200 silent_thread silent_running silent_open
      (λ k q l. refl)
