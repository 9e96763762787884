-- ===== src/Eal.antt =====
-- src/eal.rs: the configuration of the EAL and entering it.
-- The text of a number, the test for a NUL byte in a text and the parser of addresses are the
-- standard library's, and arguments here; so is what `rte_eal_init` makes of the list of arguments.
pub mod Enter
pub mod Shutdown
use Prim.Native.String.{String}
use async_dpdk.Base.{
  ℕ, ◌≡◌, Bool, true, false, Option, none, some, List, [], ◌∷◌, ◌++◌, length, ltb, ◌==◌,
  if◌then◌else◌, ℤ, pos, negsuc,
}
use async_dpdk.Errno.{
  Error, already, too_big, invalid_arg, poisoned, Result, ok, err, panicked, ◌>>=◌, ◌>>◌, fail_if,
}
use async_dpdk.Addr.{IpAddr}
use async_dpdk.EthDev.{Nic}
use async_dpdk.NetDev.{InetDevices, device_probe, device_close}

-- What the builder takes from the standard library.
pub record Text : Type 0 where
  pub to_string : ℕ → String
  pub of_int : ℤ → String
  pub has_nul : String → Bool
  pub parse_ip : String → Option IpAddr
  pub append : String → String → String

-- `Config`
pub record Config : Type 0 where
  pub args : List String
  pub addrs : List IpAddr
  pub max_queues : Option ℕ

-- `IovaMode`
pub data IovaMode : Type 0 where
  pa va : IovaMode

-- `Vdev`
pub data Vdev : Type 0 where
  null_dev pcap_dev ring_dev : ℤ → Vdev

-- `LogLevel`
pub data LogLevel : Type 0 where
  emergency alert critical error warn notice info debug : LogLevel

-- `log_level as u32`
abbrev pub level_number : LogLevel → ℕ
level_number emergency = 1
level_number alert = 2
level_number critical = 3
level_number error = 4
level_number warn = 5
level_number notice = 6
level_number info = 7
level_number debug = 8

-- `args.push` for a list of arguments.
abbrev pub push : List String → Config → Config
push xs cfg = record cfg { args = cfg.args ++ xs }

-- `Config::new`, with the program's name.
abbrev pub new_config : String → Config
new_config program = record { args = program ∷ []; addrs = []; max_queues = none }

module _ (text : Text) where
  open text use {to_string, of_int, has_nul, parse_ip, append}

  -- Pushing `flag` and a text that may hold a NUL byte, with `?` behind `CString::new`.
  abbrev pub push_checked : String → String → Config → Result Config
  push_checked flag s cfg = if has_nul s then err invalid_arg else ok (push (flag ∷ s ∷ []) cfg)

  -- The loop of `Config::device_probe`
  abbrev pub parse_all : List String → Result (List IpAddr)
  parse_all [] = ok []
  parse_all (s ∷ ss) = elim (parse_ip s) [
    | none ↦ err invalid_arg
    | some a ↦ parse_all ss >>= λ rest. ok (a ∷ rest)
  ]

  abbrev pub probe_addrs : List String → Config → Result Config
  probe_addrs ss cfg = parse_all ss >>= λ new. ok (record cfg { addrs = cfg.addrs ++ new })

  abbrev pub coremask : ℕ → Config → Config
  coremask mask = push ("-c" ∷ to_string mask ∷ [])

  abbrev pub corelist : String → Config → Result Config
  corelist = push_checked "-l"

  abbrev pub coremap : String → Config → Result Config
  coremap = push_checked "-lcores"

  abbrev pub pci_blacklist : String → Config → Result Config
  pci_blacklist = push_checked "-b"

  abbrev pub pci_whitelist : String → Config → Result Config
  pci_whitelist = push_checked "-w"

  abbrev pub memory_mb : ℕ → Config → Config
  memory_mb size = push ("-m" ∷ to_string size ∷ [])

  abbrev pub vdev : Vdev → Config → Config
  vdev (null_dev n) = push ("--vdev" ∷ append "net_null" (of_int n) ∷ [])
  vdev (pcap_dev n) = push ("--vdev" ∷ append "net_pcap" (of_int n) ∷ [])
  vdev (ring_dev n) = push ("--vdev" ∷ append "net_ring" (of_int n) ∷ [])

  abbrev pub log_level : LogLevel → Config → Config
  log_level l = push ("--log-level" ∷ to_string (level_number l) ∷ [])

abbrev pub no_pci : Bool → Config → Config
no_pci true = push ("--no-pci" ∷ [])
no_pci false = λ cfg. cfg

abbrev pub no_hugepages : Bool → Config → Config
no_hugepages true = push ("--no-pci" ∷ [])
no_hugepages false = λ cfg. cfg

abbrev pub iova_mode : IovaMode → Config → Config
iova_mode pa = push ("--iova-mode" ∷ "pa" ∷ [])
iova_mode va = push ("--iova-mode" ∷ "va" ∷ [])

abbrev pub set_max_queues : ℕ → Config → Config
set_max_queues n cfg = record cfg { max_queues = some n }

-- `CONTEXT` and `INET_DEVICE`: whether the EAL is there, whether the lock is poisoned, the devices.
pub record World : Type 0 where
  pub context : Bool
  pub is_poisoned : Bool
  pub inet : InetDevices

-- `Option::unwrap_or(u16::MAX)`
abbrev pub queues_or_max : Option ℕ → ℕ
queues_or_max none = 65535
queues_or_max (some n) = n

-- The test of `max_queues`.
abbrev pub no_queue : Option ℕ → Bool
no_queue none = false
no_queue (some n) = n == 0

module _ (nic : Nic) (limits : ℕ → ℕ × ℕ) (eal_init : List String → ℤ) (errno : Error) where
  -- `enter` behind `rte_eal_init`: the context is set before the number of queues is tested.
  abbrev pub enter_inside : Config → World → Result (Unit {0}) × World
  enter_inside cfg w =
      if no_queue cfg.max_queues
      then (err invalid_arg, record w { context = true })
      else (let (r, t) = device_probe nic limits cfg.addrs (queues_or_max cfg.max_queues) w.inet in
          (r, record w { context = true; inet = t }))

  -- `Config::enter`
  unfoldable pub enter : Config → World → Result (Unit {0}) × World
  enter cfg w =
      if w.is_poisoned
      then (err poisoned, w)
      else (if w.context
          then (err already, w)
          else (if ltb 2147483647 (length cfg.args)
              then (err too_big, w)
              else elim (eal_init cfg.args) [
                | pos _ ↦ enter_inside cfg w
                | negsuc _ ↦ (err errno, w)
              ]))
