-- ===== src/Socket/Ports.antt =====
-- src/proto/socket.rs: the search for a free port in `bind_port` ends, and what it and the
-- binding of a port that is asked for come to.

use async_dpdk.Base.{
  ℕ, zero, suc, ◌+◌, ◌-◌, ◌≤◌, ◌<◌, ◌≡◌, ap, ◌≢◌, inl, inr, false, none, some, length, Dict, lookup,
  insert, absent_key, leb, if◌then◌else◌, Option-cases, add_u16, arith,
}
use async_dpdk.Errno.{Error, no_buf, invalid_arg, ok, err, panicked}
use async_dpdk.Addr.{IpAddr}
use async_dpdk.Socket.{PortInfo, PortTable, next_candidate, search_port, port_fuel, bind_port}

-- Steps of `next_candidate` from `p` to `f`, for ports other than 0.
abbrev steps : ℕ → ℕ → ℕ
steps p f = if leb p f then f - p else f + 65535 - p

next_candidate-range : (p : ℕ) → (1 ≤ next_candidate p) × (next_candidate p < 65536)
next_candidate-range p = ground arith

steps-next_candidate :
    (p f : ℕ)
    → 1 ≤ p
    → p < 65536
    → 1 ≤ f
    → f < 65536
    → p ≢ f
    → steps (next_candidate p) f < steps p f
steps-next_candidate p f p1 p2 f1 f2 ne = ground arith

search_port-bound :
    (fuel p : ℕ) (info : Dict PortInfo)
    → lookup p info ≢ none
    → search_port (suc fuel) p info ≡ search_port fuel (next_candidate p) info
unfolding search_port
search_port-bound fuel p info h = ground arith

search_port-absent :
    (fuel p : ℕ) (info : Dict PortInfo)
    → lookup p info ≡ none
    → search_port (suc fuel) p info ≡ some p
unfolding search_port
search_port-absent fuel p info h = ground arith

-- What the search returns is not bound.
search_port_sound :
    (fuel p : ℕ) (info : Dict PortInfo) (q : ℕ)
    → search_port fuel p info ≡ some q
    → lookup q info ≡ none
unfolding search_port
search_port_sound zero p info q h = cc
search_port_sound (suc fuel) p info q h =
    ground (arith, search_port_sound fuel (next_candidate p) info q)

-- With a free port ahead, the search returns within the steps to it.
search_port_complete :
    (fuel p f : ℕ) (info : Dict PortInfo)
    → 1 ≤ p
    → p < 65536
    → 1 ≤ f
    → f < 65536
    → lookup f info ≡ none
    → steps p f < fuel
    → (q : ℕ) × (search_port fuel p info ≡ some q) × (q < 65536)
search_port_complete zero p f info p1 p2 f1 f2 free d = elim d [ ]
search_port_complete (suc fuel) p f info p1 p2 f1 f2 free d = elim (Option-cases (lookup p info)) [
  | inl e ↦ (p, search_port-absent fuel p info e, p2)
  | inr (x, e) ↦
      let ne : p ≢ f = λ (q : p ≡ f). cc (ap (λ (k : ℕ). lookup k info) q) in
      let (n1, n2) = next_candidate-range p in
      let shorter = steps-next_candidate p f p1 p2 f1 f2 ne in
      rw (search_port-bound fuel p info (λ q. cc))
        (search_port_complete fuel (next_candidate p) f info n1 n2 f1 f2 free (omega arith))
]

-- So it returns when the table has fewer entries than there are ports other than 0.
search_port_total :
    (p : ℕ) (info : Dict PortInfo)
    → p < 65536
    → length info < 65535
    → (q : ℕ) × (search_port port_fuel p info ≡ some q) × (q < 65536)
search_port_total p info h n = elim (Option-cases (lookup p info)) [
  | inl e ↦ (p, search_port-absent 65536 p info e, h)
  | inr (x, e) ↦
      let (f, f1, f2, free) = absent_key 65535 info n in
      let (n1, n2) = next_candidate-range p in
      rw (search_port-bound 65536 p info (λ q. cc)) (
        search_port_complete 65536 (next_candidate p) f info n1 n2 f1 (omega arith) free
          (ground arith))
]

module _ (addr : IpAddr) (fd : ℕ) where
  -- The table after `port` is bound.
  abbrev pub with_port : ℕ → ℕ → PortTable → PortTable
  with_port p next t = record t {
    info = insert p (record { fd = fd; ip = addr }) t.info;
    next_port = next;
  }

  bind_port-found :
      (t : PortTable) (p : ℕ)
      → t.is_poisoned ≡ false
      → length t.info < 65534
      → search_port port_fuel (add_u16 t.next_port 1) t.info ≡ some p
      → bind_port 0 addr fd t ≡ (ok p, with_port p p t)
  unfolding bind_port
  bind_port-found t p u n e = ground arith

  -- A request for any port, when the lock is not poisoned and fewer than 65534 ports are bound: the
  -- search for a port ends, and `bind_port` binds a `u16` that was not bound to the descriptor and the
  -- address. Nothing else of the table changes, but that the next search starts behind the port.
  pub bind_port_any :
      (t : PortTable)
      → t.is_poisoned ≡ false
      → length t.info < 65534
      → (p : ℕ) × (p < 65536)
        × (lookup p t.info ≡ none)
        × (bind_port 0 addr fd t ≡ (ok p, with_port p p t))
  bind_port_any t u n =
      let start : ℕ = add_u16 t.next_port 1 in
      let (p, e, b) = search_port_total start t.info (omega arith) (omega arith) in
      (p, b, search_port_sound port_fuel start t.info p e, bind_port-found t p u n e)

  -- A request for a port other than 0, when the lock is not poisoned: `NoBuf` when exactly 65534 ports
  -- are bound; else `InvalidArg` for a bound port; both leave the table alone. Any other port is bound,
  -- and the start of the next search stays.
  pub bind_port_given :
      (port : ℕ) (t : PortTable)
      → port ≢ 0
      → t.is_poisoned ≡ false
      → (length t.info ≡ 65534 → bind_port port addr fd t ≡ (err no_buf, t))
        × (length t.info ≢ 65534
            → lookup port t.info ≢ none
            → bind_port port addr fd t ≡ (err invalid_arg, t))
        × (length t.info ≢ 65534
            → lookup port t.info ≡ none
            → bind_port port addr fd t ≡ (ok port, with_port port t.next_port t))
  unfolding bind_port
  bind_port_given port t h u = (λ n. ground arith, λ n b. ground arith, λ n b. ground arith)

  -- When a search starts at the last port, 65535, the wrapped-around number 0 is the first candidate,
  -- and a table that does not have it binds port 0.
  pub bind_port_zero :
      (t : PortTable)
      → t.is_poisoned ≡ false
      → length t.info < 65534
      → t.next_port ≡ 65535
      → lookup 0 t.info ≡ none
      → bind_port 0 addr fd t ≡ (ok 0, with_port 0 0 t)
  bind_port_zero t u n e h = bind_port-found t 0 u n (rw e (search_port-absent 65536 0 t.info h))

  -- However the port was chosen, a success took a port that was not bound, from a table with room and
  -- without a poisoned lock, and made its entry.
  pub bind_port-ok :
      (port : ℕ) (t : PortTable) (p : ℕ) (t' : PortTable)
      → bind_port port addr fd t ≡ (ok p, t')
      → (t.is_poisoned ≡ false)
        × (length t.info ≢ 65534)
        × (lookup p t.info ≡ none)
        × (t' ≡ with_port p t'.next_port t)
  unfolding bind_port
  bind_port-ok port t p t' h =
      ground (arith, search_port_sound port_fuel (add_u16 t.next_port 1) t.info p)

  -- A failure leaves the table as it was.
  pub bind_port-err :
      (port : ℕ) (t : PortTable) (e : Error)
      → (bind_port port addr fd t).0 ≡ err e
      → (bind_port port addr fd t).1 ≡ t
  unfolding bind_port
  bind_port-err port t e h = ground arith

  pub bind_port-panicked :
      (port : ℕ) (t : PortTable)
      → (bind_port port addr fd t).0 ≡ panicked
      → (bind_port port addr fd t).1 ≡ t
  unfolding bind_port
  bind_port-panicked port t h = ground arith
