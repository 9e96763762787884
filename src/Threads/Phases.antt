-- ===== src/Threads/Phases.antt =====
-- src/proto/udp.rs, src/proto/socket.rs and src/agent.rs together: the tables agree with what the threads do.
use async_dpdk.Base.{
  ℕ, zero, suc, ◌+◌, ◌≤◌, length, ◌≡◌, ◌≢◌, refl, sym, ap, ◌∙◌, subst, Bool, true, false, Option,
  none, some, get_elem?, lookup, update, update_self, update_ne, ℕ_discrete, arith,
}
use async_dpdk.Socket.{fresh_socks, range_from, max_sock_num, unused, in_use}
use async_dpdk.Socket.Fds.{IsValid}
use async_dpdk.Socket.Freeing.{fresh-IsValid}
use async_dpdk.Socket.Mailbox.{Mailbox}
use async_dpdk.Threads.{
  Arrived, Phase, idle, opening, live, abandoned, closing, System, start_state,
}

-- The port that a descriptor in a phase is bound to.
abbrev pub port_in : Phase → Option ℕ
port_in idle = none
port_in (opening p) = some p
port_in (live p) = some p
port_in (abandoned p) = some p
port_in (closing p) = some p

-- Whether a descriptor in a phase has a mailbox.
abbrev pub has_box : Phase → Bool
has_box (live p) = true
has_box (abandoned p) = true
has_box _ = false

length-range_from : (i n : ℕ) → length (range_from i n) ≡ n
length-range_from i zero = refl
length-range_from i (suc n) = ap suc (length-range_from (suc i) n)

module _ {Packet : Type 0} where
  -- No lock is poisoned, the tables are valid, there are no more ports bound and descriptors queued than
  -- descriptors, a descriptor is in use exactly in the phases with a port, with
  -- that port, and it has a mailbox in the table exactly in the phases with one.
  pub record Inv (s : System Packet) : Type 0 where
    pub socks_open : s.tables.socks.is_poisoned ≡ false
    pub ports_open : s.tables.ports.is_poisoned ≡ false
    pub boxes_open : s.mailboxes.is_poisoned ≡ false
    pub valid : IsValid s.tables
    pub counted : length s.tables.ports.info + length s.tables.socks.free_fds ≤ max_sock_num
    pub used :
        (fd p : ℕ)
        → port_in (s.phase fd) ≡ some p
        → get_elem? s.tables.socks.opened fd ≡ some (in_use p)
    pub unheld :
        (fd p : ℕ)
        → get_elem? s.tables.socks.opened fd ≡ some (in_use p)
        → port_in (s.phase fd) ≡ some p
    pub boxed :
        (fd : ℕ)
        → has_box (s.phase fd) ≡ true
        → (m : Mailbox (Arrived Packet)) × (lookup fd s.mailboxes.boxes ≡ some m)
    pub unboxed : (fd : ℕ) → has_box (s.phase fd) ≡ false → lookup fd s.mailboxes.boxes ≡ none

  pub start-Inv : Inv start_state
  unfolding fresh_socks
  start-Inv = record {
    socks_open = refl;
    ports_open = refl;
    boxes_open = refl;
    valid = fresh-IsValid;
    counted = omega (arith, length-range_from 0 max_sock_num);
    used = λ fd p e. cc;
    unheld = λ fd p e. let (i, q, _) = fresh-IsValid.owned fd p e in cc;
    boxed = λ fd e. cc;
    unboxed = λ fd e. refl;
  }

  -- What a step has to show that takes one descriptor to another phase.
  pub record Change (s s' : System Packet) (fd : ℕ) (ph : Phase) : Type 0 where
    pub socks_open : s'.tables.socks.is_poisoned ≡ false
    pub ports_open : s'.tables.ports.is_poisoned ≡ false
    pub boxes_open : s'.mailboxes.is_poisoned ≡ false
    pub valid : IsValid s'.tables
    pub counted : length s'.tables.ports.info + length s'.tables.socks.free_fds ≤ max_sock_num
    pub phase : s'.phase ≡ update s.phase fd ph
    pub used : (p : ℕ) → port_in ph ≡ some p → get_elem? s'.tables.socks.opened fd ≡ some (in_use p)
    pub unheld :
        (p : ℕ) → get_elem? s'.tables.socks.opened fd ≡ some (in_use p) → port_in ph ≡ some p
    pub boxed :
        has_box ph ≡ true → (m : Mailbox (Arrived Packet)) × (lookup fd s'.mailboxes.boxes ≡ some m)
    pub unboxed : has_box ph ≡ false → lookup fd s'.mailboxes.boxes ≡ none
    pub states_same :
        (g : ℕ) → fd ≢ g → get_elem? s'.tables.socks.opened g ≡ get_elem? s.tables.socks.opened g
    pub boxes_same : (g : ℕ) → fd ≢ g → lookup g s'.mailboxes.boxes ≡ lookup g s.mailboxes.boxes

  module _ (s s' : System Packet) (fd : ℕ) (ph : Phase) (v : Inv s) (c : Change s s' fd ph) where
    phase_self : s'.phase fd ≡ ph
    phase_self = ap (λ (f : ℕ → Phase). f fd) c.phase ∙ update_self s.phase fd ph

    phase_ne : (g : ℕ) → fd ≢ g → s'.phase g ≡ s.phase g
    phase_ne g n = ap (λ (f : ℕ → Phase). f g) c.phase ∙ update_ne s.phase fd ph g n

    -- A fact on a descriptor, from the one that changed and from the others.
    at_each : (P : ℕ → Type 0) → P fd → ((g : ℕ) → fd ≢ g → P g) → (g : ℕ) → P g
    at_each P here there g = elim (ℕ_discrete fd g) [ yes e ↦ subst P e here | no n ↦ there g n ]

    pub Change-Inv : Inv s'
    Change-Inv = record {
      socks_open = c.socks_open;
      ports_open = c.ports_open;
      boxes_open = c.boxes_open;
      valid = c.valid;
      counted = c.counted;
      used =
          at_each
            (λ g.
              (p : ℕ)
              → port_in (s'.phase g) ≡ some p
              → get_elem? s'.tables.socks.opened g ≡ some (in_use p))
            (λ p e. c.used p (ap port_in (sym phase_self) ∙ e))
            (λ g n p e. c.states_same g n ∙ v.used g p (ap port_in (sym (phase_ne g n)) ∙ e));
      unheld =
          at_each
            (λ g.
              (p : ℕ)
              → get_elem? s'.tables.socks.opened g ≡ some (in_use p)
              → port_in (s'.phase g) ≡ some p)
            (λ p e. ap port_in phase_self ∙ c.unheld p e)
            (λ g n p e. ap port_in (phase_ne g n) ∙ v.unheld g p (sym (c.states_same g n) ∙ e));
      boxed =
          at_each
            (λ g.
              has_box (s'.phase g) ≡ true
              → (m : Mailbox (Arrived Packet)) × (lookup g s'.mailboxes.boxes ≡ some m))
            (λ e. c.boxed (ap has_box (sym phase_self) ∙ e))
            (λ g n e.
              let (m, q) = v.boxed g (ap has_box (sym (phase_ne g n)) ∙ e) in
              (m, c.boxes_same g n ∙ q));
      unboxed =
          at_each (λ g. has_box (s'.phase g) ≡ false → lookup g s'.mailboxes.boxes ≡ none)
            (λ e. c.unboxed (ap has_box (sym phase_self) ∙ e))
            (λ g n e. c.boxes_same g n ∙ v.unboxed g (ap has_box (sym (phase_ne g n)) ∙ e));
    }

  -- A descriptor that is not in use has no mailbox.
  pub unused_unboxed :
      (s : System Packet) (fd : ℕ)
      → Inv s
      → get_elem? s.tables.socks.opened fd ≡ some unused
      → lookup fd s.mailboxes.boxes ≡ none
  unused_unboxed s fd v u = v.unboxed fd (no_port (s.phase fd) (λ p e. cc (u, v.used fd p e)))
    where
      no_port : (ph : Phase) → ((p : ℕ) → port_in ph ≢ some p) → has_box ph ≡ false
      no_port idle n = refl
      no_port (opening p) n = refl
      no_port (live p) n = absurd (n p refl)
      no_port (abandoned p) n = absurd (n p refl)
      no_port (closing p) n = refl
