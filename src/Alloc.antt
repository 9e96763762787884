-- ===== src/Alloc.antt =====
-- src/alloc.rs: objects in memory of DPDK. The heap gives the object at each address, and the calls that
-- choose an address, with the socket where one is given, are parameters.
use mathlib.Core.Path.{fun_ext}
use async_dpdk.Base.{ℕ, ◌≡◌, ◌≢◌, refl, Option, none, some, ◌==◌, if◌then◌else◌, update, ℤ, arith}
use async_dpdk.Errno.{no_mem, invalid_arg, Result, ok, err}

module _ (T : Type 0) where
  -- The objects by their addresses.
  abbrev pub Heap : Type 0
  Heap = ℕ → Option T

  -- `rte_malloc` and `rte_zmalloc`, and `rte_malloc_socket` and `rte_zmalloc_socket`: the address, or null.
  pub record Rte : Type 0 where
    pub place : ℕ → Heap → Option ℕ
    pub place_on : ℕ → ℤ → Heap → Option ℕ

  -- What DPDK documents: the address of a new object is not in use.
  pub record PlacesFree (rte : Rte) : Type 0 where
    pub fresh : (size p : ℕ) (h : Heap) → rte.place size h ≡ some p → h p ≡ none
    pub fresh_on :
        (size p : ℕ) (socket : ℤ) (h : Heap) → rte.place_on size socket h ≡ some p → h p ≡ none

module _ {T : Type 0} where
  -- What the four functions do behind their call: the test for null, and the object at the address.
  abbrev pub boxed : Option ℕ → T → Heap T → Result ℕ × Heap T
  boxed none x h = (err no_mem, h)
  boxed (some p) x h = (ok p, update h p (some x))

  -- `check_size`, before the call.
  abbrev pub checked_size : ℕ → Result ℕ × Heap T → Heap T → Result ℕ × Heap T
  checked_size size r h = if size == 0 then (err invalid_arg, h) else r

  -- `free`
  abbrev pub free : ℕ → Heap T → Heap T
  free p h = update h p none

  module _ (rte : Rte T) (size : ℕ) where
    -- `malloc`, with `T::default()`, and `zmalloc`, with the object of zero bytes.
    unfoldable pub malloc : T → Heap T → Result ℕ × Heap T
    malloc default h = checked_size size (boxed (rte.place size h) default h) h

    unfoldable pub zmalloc : T → Heap T → Result ℕ × Heap T
    zmalloc zeros h = checked_size size (boxed (rte.place size h) zeros h) h

    -- `malloc_socket` and `zmalloc_socket`
    unfoldable pub malloc_socket : T → ℤ → Heap T → Result ℕ × Heap T
    malloc_socket default socket h =
        checked_size size (boxed (rte.place_on size socket h) default h) h

    unfoldable pub zmalloc_socket : T → ℤ → Heap T → Result ℕ × Heap T
    zmalloc_socket zeros socket h = checked_size size (boxed (rte.place_on size socket h) zeros h) h

  free_back : (p : ℕ) (x : T) (h : Heap T) → h p ≡ none → free p (update h p (some x)) ≡ h
  free_back p x h e = fun_ext λ q. ground arith

  -- `free` of the object of a `malloc` that succeeded, for a type that is not empty, gives the heap back as it
  -- was, and between the two calls the object is there; a `malloc` that fails, and one for an empty
  -- type, changes nothing.
  pub free-malloc :
      (rte : Rte T) (doc : PlacesFree T rte) (size : ℕ) (default : T) (h : Heap T)
      → (malloc rte 0 default h ≡ (err invalid_arg, h))
        × (size ≢ 0 → rte.place size h ≡ none → malloc rte size default h ≡ (err no_mem, h))
        × ((p : ℕ)
            → size ≢ 0
            → rte.place size h ≡ some p
            → (h' : Heap T) × (malloc rte size default h ≡ (ok p, h'))
              × (h' p ≡ some default)
              × (free p h' ≡ h))
  unfolding malloc
  free-malloc rte doc size default h = (
    refl,
    (λ n e. ground arith),
    λ p n e. (
      update h p (some default),
      ground arith,
      ground arith,
      free_back p default h (doc.fresh size p h e),
    ),
  )
