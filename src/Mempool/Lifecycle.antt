-- ===== src/Mempool/Lifecycle.antt =====
-- src/mempool.rs: a pool is there exactly as long as a handle to it.
use async_dpdk.Base.{
  ℕ, suc, ◌<◌, ◌≡◌, refl, sym, ap, ◌∙◌, Bool, true, false, some, [], lookup, update, arith,
}
use async_dpdk.Errno.{Error, Result, ok, err, panicked}
use async_dpdk.Mempool.{Pools, drop_arc, lookup_ref, create, find_pool}
use async_dpdk.Mempool.Handles.{IsValid, drop_arc-IsValid, new_ref-IsValid, lookup_ref-IsValid}

-- No pool yet.
abbrev pub no_pools : Bool → Pools
no_pools is_poisoned = record {
  is_poisoned = is_poisoned;
  weaks = [];
  next_arc = 0;
  target = λ a. 0;
  strong = λ a. 0;
  live = λ p. false;
  misfreed = false;
}

-- The pools after any calls. A new pool has an address where none is, `rte_mempool_lookup` finds only
-- pools that are there, and a handle is dropped once.
pub data Reached : Pools → Type 0 where
  start : (is_poisoned : Bool) → Reached (no_pools is_poisoned)
  creates :
      {s : Pools}
      → Reached s
      → (checks : Result (Unit {0})) (p : ℕ) → s.live p ≡ false
      → Reached (create checks (some p) s).1
  finds :
      {s : Pools}
      → Reached s
      → (nul : Bool) (p : ℕ) (errno : Error) → s.live p ≡ true
      → Reached (find_pool nul (some p) errno s).1
  drops : {s : Pools} → Reached s → (a : ℕ) → 0 < s.strong a → Reached (drop_arc a s)

no_pools-IsValid : (b : Bool) → IsValid (no_pools b)
no_pools-IsValid b = record {
  held = λ a g. absurd (omega arith);
  noted = λ a g. absurd (omega arith);
  made = λ a g. absurd (omega arith);
  owned = λ p g. cc;
  clean = refl;
}

-- After any calls of `create` and `lookup` and any drops of handles, failed calls and a poisoned
-- table included: a pool is there exactly as long as a handle to it, the table leads from its address to
-- its handles, and `rte_mempool_free` was never called for a pool that was already freed.
pub Reached-IsValid : (s : Pools) → Reached s → IsValid s
unfolding create find_pool
Reached-IsValid _ (start b) = no_pools-IsValid b
Reached-IsValid _ (creates {s} r (ok _) p h) = new_ref-IsValid p s (Reached-IsValid s r) h
Reached-IsValid _ (creates {s} r (err e) p h) = Reached-IsValid s r
Reached-IsValid _ (creates {s} r panicked p h) = Reached-IsValid s r
Reached-IsValid _ (finds {s} r true p e h) = Reached-IsValid s r
Reached-IsValid _ (finds {s} r false p e h) = lookup_ref-IsValid p e s (Reached-IsValid s r)
Reached-IsValid _ (drops {s} r a h) = drop_arc-IsValid a s (Reached-IsValid s r) h

-- In such a state, with the table not poisoned, a lookup that DPDK answers with a pool that is there
-- succeeds: it gives the `Arc` of that pool, with one handle more, and changes nothing else.
pub lookup_ref-Reached :
    (p : ℕ) (errno : Error) (s : Pools)
    → Reached s
    → s.live p ≡ true
    → s.is_poisoned ≡ false
    → (a : ℕ) × (s.target a ≡ p)
      × (lookup_ref (some p) errno s
          ≡ (ok a, record s { strong = update s.strong a (suc (s.strong a)) }))
unfolding lookup_ref
lookup_ref-Reached p errno s r h u =
    let v = Reached-IsValid s r in
    let (a, k, q) = v.owned p h in
    let n : lookup p s.weaks ≡ some a = ap (λ t. lookup t s.weaks) (sym q) ∙ v.noted a k in
    (a, q, ground arith)
