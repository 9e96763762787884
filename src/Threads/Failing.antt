-- ===== src/Threads/Failing.antt =====
-- src/proto/socket.rs: what a `bind_fd` that fails keeps.
use async_dpdk.Base.{
  ℕ, ◌≤◌, length, ◌≡◌, refl, sym, ap, ◌∙◌, subst, false, List, [], ◌∷◌, get_elem?, arith,
}
use async_dpdk.Errno.{Error, Result, ok, err, panicked}
use async_dpdk.Addr.{SocketAddr}
use async_dpdk.Socket.{PortTable, Tables, mark_in_use, bind_front, bind_port, bind_fd}
use async_dpdk.Socket.Ports.{bind_port-err}
use async_dpdk.Socket.Fds.{IsValid, front-unused}
use async_dpdk.Socket.Binding.{bind_fd-IsValid}
use async_dpdk.Threads.{System}
use async_dpdk.Threads.Phases.{Inv}

-- A failed `bind_fd` on valid tables has at most taken a descriptor from the queue.
module _ (addr : SocketAddr) (t : Tables) (v : IsValid t) where
  mark_in_use_err :
      (fd : ℕ) (rest : List ℕ) (r : Result ℕ × PortTable) (e : Error) (t' : Tables)
      → t.socks.free_fds ≡ fd ∷ rest
      → bind_port addr.port addr.ip fd t.ports ≡ r
      → mark_in_use fd r (record t.socks { free_fds = rest }) ≡ (err e, t')
      → t' ≡ record t { socks = record t.socks { free_fds = rest } }
  mark_in_use_err fd rest (ok p, ports) e t' f b h =
      let here = (front-unused {t = t} v f).0 in ground arith
  mark_in_use_err fd rest (err x, ports) e t' f b h =
      let same : ports ≡ t.ports =
        sym (ap (λ (y : Result ℕ × PortTable). y.1) b)
        ∙ bind_port-err addr.ip fd addr.port t.ports x (ap (λ (y : Result ℕ × PortTable). y.0) b) in
      let q : t' ≡ record { socks = record t.socks { free_fds = rest }; ports = ports } =
        sym (ap (λ (y : Result (ℕ × ℕ) × Tables). y.1) h) in
      q
      ∙ ap (λ (y : PortTable). record t { socks = record t.socks { free_fds = rest }; ports = y })
          same
  mark_in_use_err fd rest (panicked, ports) e t' f b h = cc

  bind_front_err :
      (fds : List ℕ) (e : Error) (t' : Tables)
      → t.socks.free_fds ≡ fds
      → bind_front addr fds t ≡ (err e, t')
      → (rest : List ℕ) × (length rest ≤ length t.socks.free_fds)
        × (t' ≡ record t { socks = record t.socks { free_fds = rest } })
  bind_front_err [] e t' f h =
      (t.socks.free_fds, omega arith, sym (ap (λ (y : Result (ℕ × ℕ) × Tables). y.1) h))
  bind_front_err (fd ∷ rest) e t' f h =
      (rest, omega (arith, ap length f), mark_in_use_err fd rest _ e t' f refl h)

  bind_fd_err :
      (e : Error) (t' : Tables)
      → t.socks.is_poisoned ≡ false
      → bind_fd addr t ≡ (err e, t')
      → (rest : List ℕ) × (length rest ≤ length t.socks.free_fds)
        × (t' ≡ record t { socks = record t.socks { free_fds = rest } })
  unfolding bind_fd
  bind_fd_err e t' u h = bind_front_err t.socks.free_fds e t' refl (ground arith)

module _ {Packet : Type 0} where
  pub bind_fails-Inv :
      (s : System Packet) (addr : SocketAddr) (e : Error) (t : Tables)
      → Inv s
      → bind_fd addr s.tables ≡ (err e, t)
      → Inv (record s { tables = t })
  bind_fails-Inv s addr e t v h =
      let (rest, small, q) = bind_fd_err addr s.tables v.valid e t v.socks_open h in
      let valid : IsValid t =
        subst IsValid (ap (λ (y : Result (ℕ × ℕ) × Tables). y.1) h)
          (bind_fd-IsValid addr s.tables v.valid) in
      record {
        socks_open = ap (λ (y : Tables). y.socks.is_poisoned) q ∙ v.socks_open;
        ports_open = ap (λ (y : Tables). y.ports.is_poisoned) q ∙ v.ports_open;
        boxes_open = v.boxes_open;
        valid = valid;
        counted = omega (
          arith,
          v.counted,
          small,
          ap (λ (y : Tables). length y.socks.free_fds) q,
          ap (λ (y : Tables). length y.ports.info) q,
        );
        used = λ fd p k. ap (λ (y : Tables). get_elem? y.socks.opened fd) q ∙ v.used fd p k;
        unheld =
            λ fd p k. v.unheld fd p (sym (ap (λ (y : Tables). get_elem? y.socks.opened fd) q) ∙ k);
        boxed = v.boxed;
        unboxed = v.unboxed;
      }
