-- ===== src/EthDev/Lifecycle.antt =====
-- src/eth_dev.rs: starting and stopping a device.
use async_dpdk.Base.{
  ℕ, zero, suc, ◌+◌, ◌≤◌, ◌<◌, ◌≡◌, refl, ap, ◌∙◌, subst, true, false, Option, none, some, List, [],
  ◌∷◌, length, get_elem?, arith,
}
use async_dpdk.Errno.{broken_pipe, ok, err, panicked, ◌>>◌, from_ret}
use async_dpdk.Errno.Codes.{from_ret_total}
use async_dpdk.Agent.Registry.{
  Queue, polled, unpoll, RxAgent, rx_start, rx_register, rx_unregister, TxAgent, tx_start,
  tx_register, tx_unregister, tx_register_lem,
}
use async_dpdk.EthDev.{
  Nic, EthDev, register_tx, register_rx, start, unregister_tx, unregister_rx, stop, sender,
}

-- The queues from `lo` on, `k` of them, the last one first.
abbrev pub queues_down : ℕ → ℕ → ℕ → List Queue
queues_down port lo zero = []
queues_down port lo (suc k) = (port, lo + k) ∷ queues_down port lo k

-- The senders of the queues from `lo` on, `k` of them.
abbrev pub senders : ℕ → ℕ → ℕ → List (Option Queue)
senders port lo zero = []
senders port lo (suc k) = some (port, lo) ∷ senders port (suc lo) k

not_polled_yet : (port lo k q : ℕ) → lo + k ≤ q → polled (port, q) (queues_down port lo k) ≡ false
unfolding polled
not_polled_yet port lo zero q h = refl
not_polled_yet port lo (suc k) q h = ground (arith, not_polled_yet port lo k q)

polled-first : (port lo k : ℕ) → polled (port, lo) (queues_down port lo (suc k)) ≡ true
unfolding polled
polled-first port lo zero = ground arith
polled-first port lo (suc k) = ground (arith, polled-first port lo k)

unpoll-first :
    (port lo k : ℕ) → unpoll (port, lo) (queues_down port lo (suc k)) ≡ queues_down port (suc lo) k
unfolding unpoll
unpoll-first port lo zero = ground arith
unpoll-first port lo (suc k) = ground (arith, unpoll-first port lo k)

abbrev tx_polling : ℕ → ℕ → ℕ → TxAgent
tx_polling port lo k = record tx_start { tasks = queues_down port lo k }

abbrev rx_polling : ℕ → ℕ → ℕ → RxAgent
rx_polling port lo k = record rx_start { tasks = queues_down port lo k }

module _ (nic : Nic) where
  open nic use {libc}

  tx_register_next :
      (port k : ℕ)
      → tx_register libc (port, k) (tx_polling port 0 k) ≡ (ok (port, k), tx_polling port 0 (suc k))
  tx_register_next port k = ground (
    arith,
    not_polled_yet port 0 k k,
    from_ret_total libc 0,
    (tx_register_lem libc (port, k) (tx_polling port 0 k) refl).2,
  )

  rx_register_next :
      (port k : ℕ)
      → rx_register (port, k) (rx_polling port 0 k) ≡ (ok tt, rx_polling port 0 (suc k))
  unfolding rx_register
  rx_register_next port k = ground (arith, not_polled_yet port 0 k k)

  register_rx_all :
      (port k n : ℕ)
      → register_rx nic port k n (rx_polling port 0 k) ≡ (ok tt, rx_polling port 0 (k + n))
  unfolding register_rx
  register_rx_all port k zero = ground arith
  register_rx_all port k (suc n) =
      ap
        (λ p. elim p.0 [
          | ok _ ↦ register_rx nic port (suc k) n p.1
          | err e ↦ (err e, p.1)
          | panicked ↦ (panicked, p.1)
        ])
        (rx_register_next port k)
      ∙ register_rx_all port (suc k) n
      ∙ ap (λ j. (ok tt, rx_polling port 0 j)) (omega arith)

  register_tx_all :
      (port k : ℕ) (chs : List (Option Queue))
      → register_tx nic port k chs (tx_polling port 0 k)
        ≡ (ok tt, senders port k (length chs), tx_polling port 0 (k + length chs))
  unfolding register_tx
  register_tx_all port k [] = ground arith
  register_tx_all port k (ch ∷ chs) =
      ap
        (λ p.
          let (r', chs', a'') = register_tx nic port (suc k) chs p.1 in
          elim p.0 [
            | ok s ↦ (r', some s ∷ chs', a'')
            | err e ↦ (err e, ch ∷ chs, p.1)
            | panicked ↦ (panicked, ch ∷ chs, p.1)
          ])
        (tx_register_next port k)
      ∙ ap (λ p. (p.0, some (port, k) ∷ p.1, p.2)) (register_tx_all port (suc k) chs)
      ∙ ap (λ j. (ok tt, senders port k (suc (length chs)), tx_polling port 0 j)) (omega arith)

  unregister_tx_all :
      (port lo k : ℕ)
      → unregister_tx nic port lo k (record tx_start { tasks = queues_down port lo k }) ≡ ok tt
  unfolding unregister_tx tx_unregister
  unregister_tx_all port lo zero = refl
  unregister_tx_all port lo (suc k) =
      simp (polled-first port lo k, unpoll-first port lo k, unregister_tx_all port (suc lo) k)

  unregister_rx_all :
      (port lo k : ℕ)
      → unregister_rx nic port lo k (record rx_start { tasks = queues_down port lo k }) ≡ ok tt
  unfolding unregister_rx rx_unregister
  unregister_rx_all port lo zero = refl
  unregister_rx_all port lo (suc k) =
      simp (polled-first port lo k, unpoll-first port lo k, unregister_rx_all port (suc lo) k)

  -- The device that `start` leaves: an agent for each direction, which polls every queue, and a
  -- sender for every channel.
  abbrev pub started : EthDev → EthDev
  started d = record d {
    tx_agent = some (tx_polling d.port_id 0 (length d.tx_chan));
    rx_agent = some (rx_polling d.port_id 0 d.rx_queues);
    tx_chan = senders d.port_id 0 (length d.tx_chan);
  }

  pub start_lem :
      (d : EthDev)
      → from_ret libc (nic.dev_start d.port_id) ≡ ok tt
      → from_ret libc (nic.set_ptypes d.port_id) ≡ ok tt
      → start nic d ≡ (ok tt, started d)
  unfolding start
  start_lem d h h' =
      ground (arith, register_tx_all d.port_id 0 d.tx_chan, register_rx_all d.port_id 0 d.rx_queues)

  senders_at : (port k n q : ℕ) → q < n → get_elem? (senders port k n) q ≡ some (some (port, k + q))
  senders_at port k zero q h = elim h [ ]
  senders_at port k (suc n) zero h = ground arith
  senders_at port k (suc n) (suc q) h = ground (arith, senders_at port (suc k) n q)

  length-senders : (port k n : ℕ) → length (senders port k n) ≡ n
  length-senders port k zero = refl
  length-senders port k (suc n) = ap suc (length-senders port (suc k) n)

  pub sender-started :
      (d : EthDev)
      → length d.tx_chan ≡ d.tx_queues
      → (q : ℕ) → q < d.tx_queues
      → sender q (started d) ≡ some (d.port_id, q)
  unfolding sender
  sender-started d l q h = ground (arith, senders_at d.port_id 0 (length d.tx_chan) q)

  restart :
      (d : EthDev)
      → from_ret libc (nic.dev_start d.port_id) ≡ ok tt
      → from_ret libc (nic.set_ptypes d.port_id) ≡ ok tt
      → start nic (record (started d) { tx_agent = none; rx_agent = none }) ≡ (ok tt, started d)
  restart d h h' =
      start_lem (record (started d) { tx_agent = none; rx_agent = none }) h h'
      ∙ ap
          (λ n. (
            ok tt,
            record d {
              tx_agent = some (tx_polling d.port_id 0 n);
              rx_agent = some (rx_polling d.port_id 0 d.rx_queues);
              tx_chan = senders d.port_id 0 n;
            },
          ))
          (length-senders d.port_id 0 (length d.tx_chan))

  pub stop_lem :
      (d : EthDev)
      → length d.tx_chan ≡ d.tx_queues
      → stop nic (started d) ≡ (
        from_ret libc (nic.dev_stop d.port_id),
        record (started d) { tx_agent = none; rx_agent = none },
      )
  unfolding stop
  stop_lem d h =
      ap
        (λ r. (
          r
              >> (unregister_rx nic d.port_id 0 d.rx_queues (rx_polling d.port_id 0 d.rx_queues)
                  >> from_ret libc (nic.dev_stop d.port_id)),
          record (started d) { tx_agent = none; rx_agent = none },
        ))
        (subst
          (λ n. unregister_tx nic d.port_id 0 n (tx_polling d.port_id 0 (length d.tx_chan)) ≡ ok tt)
          h (unregister_tx_all d.port_id 0 (length d.tx_chan)))
      ∙ ap
          (λ r. (
            r >> from_ret libc (nic.dev_stop d.port_id),
            record (started d) { tx_agent = none; rx_agent = none },
          ))
          (unregister_rx_all d.port_id 0 d.rx_queues)

  -- `start`, where DPDK starts the port and takes its packet types, gives the device both agents and
  -- every channel of it its sender, for the port it had; `stop` then takes back every queue, so that what it returns is
  -- what DPDK says of the port, drops both agents and leaves a device that a second `stop` refuses
  -- with `BrokenPipe` and that `start` brings up again.
  pub start-stop :
      (d : EthDev)
      → length d.tx_chan ≡ d.tx_queues
      → from_ret libc (nic.dev_start d.port_id) ≡ ok tt
      → from_ret libc (nic.set_ptypes d.port_id) ≡ ok tt
      → (up : EthDev) × (down : EthDev) × (up.port_id ≡ d.port_id)
        × (start nic d ≡ (ok tt, up))
        × ((q : ℕ) → q < d.tx_queues → sender q up ≡ some (d.port_id, q))
        × (stop nic up ≡ (from_ret libc (nic.dev_stop d.port_id), down))
        × (stop nic down ≡ (err broken_pipe, down))
        × (start nic down ≡ (ok tt, up))
  unfolding stop
  start-stop d l h h' = (
    started d,
    record (started d) { tx_agent = none; rx_agent = none },
    refl,
    start_lem d h h',
    sender-started d l,
    stop_lem d l,
    refl,
    restart d h h',
  )
