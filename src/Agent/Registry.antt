-- ===== src/Agent/Registry.antt =====
-- src/agent.rs: which queues an `RxAgent` and a `TxAgent` poll. The set and the map of the agents are
-- lists of pairs of a port and a queue. The thread of a `TxAgent` runs one `spawn_new_task` for each
-- request and answers with its number; the answer is waited for, so `register` is one step.
use async_dpdk.Base.{
  ℕ, ◌≡◌, refl, Bool, true, false, ◌&&◌, not, List, [], ◌∷◌, ◌==◌, if◌then◌else◌, ℤ, pos,
  saturating_neg, arith,
}
use async_dpdk.Errno.{
  not_start, already, not_exist, poisoned, try_send_error, from_cause, Result, ok, err, panicked,
  Libc, code, from_ret,
}
use async_dpdk.Errno.Codes.{from_ret-code, from_ret_total}

abbrev pub Queue : Type 0
Queue = ℕ × ℕ

abbrev pub queue_eq : Queue → Queue → Bool
queue_eq (p, q) (r, s) = p == r && q == s

-- `BTreeSet::contains`, `BTreeMap::contains_key`
unfoldable pub polled : Queue → List Queue → Bool
polled q [] = false
polled q (r ∷ rs) = if queue_eq q r then true else polled q rs

-- `BTreeSet::remove`, `BTreeMap::remove`
unfoldable pub unpoll : Queue → List Queue → List Queue
unpoll q [] = []
unpoll q (r ∷ rs) = let rest = unpoll q rs in if queue_eq q r then rest else r ∷ rest

-- `RxAgent`
pub record RxAgent : Type 0 where
  pub running : Bool
  pub is_poisoned : Bool
  pub tasks : List Queue

-- `RxAgent::start`
abbrev pub rx_start : RxAgent
rx_start = record { running = true; is_poisoned = false; tasks = [] }

-- `RxAgent::stop`, and the drop
abbrev pub rx_stop : RxAgent → RxAgent
rx_stop a = record a { running = false }

-- `RxAgent::register`
unfoldable pub rx_register : Queue → RxAgent → Result (Unit {0}) × RxAgent
rx_register q a =
    if not a.running
    then (err not_start, a)
    else (if a.is_poisoned
        then (err poisoned, a)
        else (if polled q a.tasks
            then (err already, a)
            else (ok tt, record a { tasks = q ∷ a.tasks })))

-- `RxAgent::unregister`
unfoldable pub rx_unregister : Queue → RxAgent → Result (Unit {0}) × RxAgent
rx_unregister q a =
    if not a.running
    then (err not_start, a)
    else (if a.is_poisoned
        then (err poisoned, a)
        else (if polled q a.tasks
            then (ok tt, record a { tasks = unpoll q a.tasks })
            else (err not_exist, a)))

-- `TxAgent`; `full` tells whether the channel of requests is full.
pub record TxAgent : Type 0 where
  pub is_poisoned : Bool
  pub full : Bool
  pub tasks : List Queue

-- `TxAgent::start`
abbrev pub tx_start : TxAgent
tx_start = record { is_poisoned = false; full = false; tasks = [] }

-- `spawn_new_task`
unfoldable pub spawn_new_task : Queue → TxAgent → Result (Unit {0}) × TxAgent
spawn_new_task q a =
    if a.is_poisoned
    then (err poisoned, a)
    else (if polled q a.tasks then (err already, a) else (ok tt, record a { tasks = q ∷ a.tasks }))

module _ (c : Libc) where
  -- The number that the agent's thread stores in `done`.
  abbrev pub answer : Result (Unit {0}) → ℤ
  answer (ok _) = pos 0
  answer (err e) = saturating_neg (pos (code c e))
  answer panicked = pos 1

  -- `TxAgent::register`; the sender is named by its queue.
  unfoldable pub tx_register : Queue → TxAgent → Result Queue × TxAgent
  unfolding spawn_new_task
  tx_register q a =
      if a.full
      then (err (from_cause try_send_error), a)
      else (let (r, a') = spawn_new_task q a in
          elim (from_ret c (answer r)) [
            | ok _ ↦ (ok q, a')
            | err e ↦ (err e, a')
            | panicked ↦ (panicked, a')
          ])

-- `TxAgent::unregister`
unfoldable pub tx_unregister : Queue → TxAgent → Result (Unit {0}) × TxAgent
tx_unregister q a =
    if a.is_poisoned
    then (err poisoned, a)
    else (if polled q a.tasks
        then (ok tt, record a { tasks = unpoll q a.tasks })
        else (err not_exist, a))

polled-unpoll_self : (q : Queue) (rs : List Queue) → polled q (unpoll q rs) ≡ false
unfolding polled unpoll
polled-unpoll_self q [] = refl
polled-unpoll_self q (r ∷ rs) = ground (arith, polled-unpoll_self q rs)

unpoll_absent : (q : Queue) (rs : List Queue) → polled q rs ≡ false → unpoll q rs ≡ rs
unfolding polled unpoll
unpoll_absent q [] h = refl
unpoll_absent q (r ∷ rs) h = ground (arith, unpoll_absent q rs)

-- On a running agent, `register` and then `unregister` of a queue that is not polled bring the agent
-- back; a second `register` is refused with `Already`, and a second `unregister` with `NotExist`.
pub rx_register-unregister :
    (q : Queue) (a : RxAgent)
    → a.running ≡ true
    → a.is_poisoned ≡ false
    → polled q a.tasks ≡ false
    → (a' : RxAgent) × (rx_register q a ≡ (ok tt, a'))
      × (rx_register q a' ≡ (err already, a'))
      × (rx_unregister q a' ≡ (ok tt, a))
      × (rx_unregister q a ≡ (err not_exist, a))
unfolding rx_register rx_unregister polled unpoll
rx_register-unregister q a r p h = (
  record a { tasks = q ∷ a.tasks },
  ground arith,
  ground arith,
  ground (arith, unpoll_absent q a.tasks h),
  ground arith,
)

-- A stopped agent refuses both with `NotStart`.
pub rx_stopped :
    (q : Queue) (a : RxAgent)
    → (rx_register q (rx_stop a) ≡ (err not_start, rx_stop a))
      × (rx_unregister q (rx_stop a) ≡ (err not_start, rx_stop a))
unfolding rx_register rx_unregister
rx_stopped q a = (refl, refl)

-- The caller of `register` gets what the agent's thread found, though only a number goes between them:
-- the sender for a new queue, and for a queue that is polled or a poisoned lock the very error.
pub tx_register_lem :
    (c : Libc) (q : Queue) (a : TxAgent)
    → a.full ≡ false
    → (a.is_poisoned ≡ true → tx_register c q a ≡ (err poisoned, a))
      × (a.is_poisoned ≡ false → polled q a.tasks ≡ true → tx_register c q a ≡ (err already, a))
      × (a.is_poisoned ≡ false
          → polled q a.tasks ≡ false
          → (tx_register c q a ≡ (ok q, record a { tasks = q ∷ a.tasks }))
            × (tx_unregister q (record a { tasks = q ∷ a.tasks }) ≡ (ok tt, a)))
unfolding tx_register tx_unregister polled unpoll
tx_register_lem c q a f = (
  λ p. ground (arith, from_ret-code c poisoned),
  λ p h. ground (arith, from_ret-code c already),
  λ p h. (ground (arith, from_ret_total c 0), ground (arith, unpoll_absent q a.tasks h)),
)
