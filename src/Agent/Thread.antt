-- ===== src/Agent/Thread.antt =====
-- src/agent.rs: the thread of an `RxAgent`, from `start` to its end, with the tables of the reassembly
-- that it makes and gives back, and the calls on its agent in between. What the calls of DPDK return is the
-- argument `dpdk`; a burst of a queue has the number of its round.
pub mod Lifetime
pub mod Stopping
pub mod Handles
use async_dpdk.Base.{
  ℕ, suc, ◌-◌, Bool, true, false, Option, none, some, List, [], ◌∷◌, map, ◌==◌, ltb, ◌||◌, ◌&&◌,
  if◌then◌else◌, ℤ,
}
use async_dpdk.Errno.{Error, no_mem, poisoned, Result, ok, err, panicked, ok_or}
use async_dpdk.Proto.{Ptypes}
use async_dpdk.Socket.{PortTable}
use async_dpdk.Mbuf.{Pktmbuf}
use async_dpdk.Mbuf.Reading.{Parsed, parsed, ignored, out_of_bounds}
use async_dpdk.Agent.Registry.{Queue, RxAgent, rx_start, rx_stop, rx_register, rx_unregister}
use async_dpdk.Agent.Frames.{EtherTypes, Reassembly}
use async_dpdk.Agent.Polling.{Rx, poll_round}

-- `rte_get_tsc_hz`, `rte_ip_frag_table_create`, `rte_zmalloc_socket` (its size and socket) and the size of an
-- `rte_ip_frag_death_row`
pub record Dpdk : Type 0 where
  pub tsc_hz : ℕ
  pub frag_table_create : ℕ → ℕ → ℕ → ℕ → ℤ → Option ℕ
  pub zmalloc_socket : ℕ → ℤ → Option ℕ
  pub row_size : ℕ

-- What the thread does next: it makes its tables, it polls with them, or it has ended, with its result;
-- `broken` stands for a read behind the data of an mbuf.
pub data Thread : Type 0 where
  spawned : Thread
  polling : ℕ → ℕ → Thread
  ended : Result (Unit {0}) → Thread
  broken : Thread

-- The agent, the number of its `Arc`s, whether the device has one of them, the thread, the tables and the death
-- rows that DPDK has handed out and not taken back, what the thread changes, and the number of the next round.
pub record RxThread (Bytes : Type 0) : Type 0 where
  pub agent : RxAgent
  pub handles : ℕ
  pub held : Bool
  pub thread : Thread
  pub tables : List ℕ
  pub rows : List ℕ
  pub world : Rx Bytes
  pub round : ℕ

-- A turn of the thread, or a call on its agent by another thread. A turn holds the lock of the agent's queues,
-- so a call falls between two turns; a `stop` in a turn is a `stop` behind it. With `drops` the device drops its
-- handle, when it has one.
pub data Turn : Type 0 where
  polls : Turn
  registers : Queue → Turn
  unregisters : Queue → Turn
  stops : Turn
  drops : Turn

-- `rte_ip_frag_table_destroy`, `rte_free`
abbrev pub give_back : ℕ → List ℕ → List ℕ
give_back x [] = []
give_back x (y ∷ ys) = let rest = give_back x ys in if x == y then ys else y ∷ rest

-- `BTreeSet::iter`, in the order of the pairs
abbrev pub before : Queue → Queue → Bool
before (p, q) (r, s) = ltb p r || (p == r && ltb q s)

abbrev pub place : Queue → List Queue → List Queue
place q [] = q ∷ []
place q (r ∷ rs) = let rest = place q rs in if before q r then q ∷ r ∷ rs else r ∷ rest

abbrev pub in_order : List Queue → List Queue
in_order [] = []
in_order (q ∷ qs) = place q (in_order qs)

module _ (dpdk : Dpdk) (socket_id : ℤ) where
  -- `IpFragmentTable::new`
  abbrev pub new_table : Result ℕ
  new_table = ok_or (dpdk.frag_table_create 128 16 2048 dpdk.tsc_hz socket_id) no_mem

  -- `IpFragDeathRow::new`; its name has no zero byte.
  abbrev pub new_row : Result ℕ
  new_row = ok_or (dpdk.zmalloc_socket dpdk.row_size socket_id) no_mem

module _ {Bytes : Type 0} where
  -- `RxAgent::start`: one handle is the device's, and its clone is the thread's.
  abbrev pub start : Rx Bytes → RxThread Bytes
  start w = record {
    agent = rx_start;
    handles = 2;
    held = true;
    thread = spawned;
    tables = [];
    rows = [];
    world = w;
    round = 0;
  }

  -- The drop of an `Arc<RxAgent>`; that of the last one runs `<RxAgent as Drop>::drop`.
  abbrev pub drop_handle : RxThread Bytes → RxThread Bytes
  drop_handle s = record s {
    handles = s.handles - 1;
    agent = if s.handles == 1 then rx_stop s.agent else s.agent;
  }

  -- The first lines of the thread, which drops its handle when it ends: without a death row, the table is dropped again.
  unfoldable pub make_tables : Dpdk → ℤ → RxThread Bytes → RxThread Bytes
  make_tables dpdk socket_id s = elim (new_table dpdk socket_id) [
    | ok t ↦ elim (new_row dpdk socket_id) [
      | ok r ↦ record s { thread = polling t r; tables = t ∷ s.tables; rows = r ∷ s.rows }
      | err e ↦
          drop_handle (record s { thread = ended (err e); tables = give_back t (t ∷ s.tables) })
      | panicked ↦
          drop_handle (record s { thread = ended panicked; tables = give_back t (t ∷ s.tables) })
    ]
    | err e ↦ drop_handle (record s { thread = ended (err e) })
    | panicked ↦ drop_handle (record s { thread = ended panicked })
  ]

  -- The end of the thread, which drops both tables and its handle.
  abbrev pub finish : ℕ → ℕ → Result (Unit {0}) → RxThread Bytes → RxThread Bytes
  finish t r x s =
      drop_handle
        (record s { thread = ended x; tables = give_back t s.tables; rows = give_back r s.rows })

  -- What a round over the queues leaves.
  abbrev pub after_round :
      ℕ → ℕ → RxThread Bytes → Parsed (Result (Unit {0})) × Rx Bytes → RxThread Bytes
  after_round t r s (parsed (ok _), w) = record s { world = w; round = suc s.round }
  after_round t r s (parsed (err e), w) = finish t r (err e) (record s { world = w })
  after_round t r s (parsed panicked, w) = finish t r panicked (record s { world = w })
  after_round t r s (ignored, w) = record s { thread = broken; world = w }
  after_round t r s (out_of_bounds, w) = record s { thread = broken; world = w }

  module _ (dpdk : Dpdk) (socket_id : ℤ) (burst : ℕ → Queue → List (Option ℕ)) (gone : ℕ → Bool)
      (types : EtherTypes) (lib : Pktmbuf) (frag : Reassembly) (c : Ptypes)
      (to_bytes : List ℕ → Bytes) (fuel : ℕ) (ports : PortTable) where
    -- A turn of the `while` loop: the flag, the lock, and a round under the lock.
    unfoldable pub poll : ℕ → ℕ → RxThread Bytes → RxThread Bytes
    poll t r s =
        if s.agent.running
        then (if s.agent.is_poisoned
            then finish t r (err poisoned) s
            else after_round t r s (
                poll_round gone types lib frag c to_bytes fuel ports
                  (map (burst s.round) (in_order s.agent.tasks)) s.world))
        else finish t r (ok tt) s

    -- A turn of the thread.
    unfoldable pub thread_turn : RxThread Bytes → RxThread Bytes
    thread_turn s = elim s.thread [
      | spawned ↦ make_tables dpdk socket_id s
      | polling t r ↦ poll t r s
      | ended x ↦ s
      | broken ↦ s
    ]

    -- What a turn does, and what a sequence of turns does.
    abbrev pub turn : Turn → RxThread Bytes → RxThread Bytes
    turn polls s = thread_turn s
    turn (registers q) s = if s.held then record s { agent = (rx_register q s.agent).1 } else s
    turn (unregisters q) s = if s.held then record s { agent = (rx_unregister q s.agent).1 } else s
    turn stops s = if s.held then record s { agent = rx_stop s.agent } else s
    turn drops s = if s.held then drop_handle (record s { held = false }) else s

    abbrev pub run : List Turn → RxThread Bytes → RxThread Bytes
    run [] s = s
    run (t ∷ ts) s = run ts (turn t s)
