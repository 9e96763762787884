-- ===== src/Mempool/Generic/Balance.antt =====
-- src/mempool.rs: the counts of a `GenericMempool` under any sequence of its operations.
use async_dpdk.Base.{ℕ, suc, ◌+◌, ◌-◌, ◌≤◌, ◌<◌, ◌≡◌, some, List, length}
use async_dpdk.Errno.{Error, Result, ok, err, panicked, Libc, from_ret}
use async_dpdk.Mempool.Generic.{RteMempool, get_object, put_object, put_objects, get_objects}

-- What DPDK documents: an object is available or in use; a call for more objects than are available fails and
-- changes nothing; the other calls move as many objects as they are asked for.
pub record PoolDocs {S : Type 0} (lib : RteMempool S) (libc : Libc) : Type 0 where
  pub counted : (s : S) → lib.avail_count s + lib.in_use_count s ≡ lib.size s
  pub got :
      (s : S)
      → 0 < lib.avail_count s
      → (from_ret libc (lib.mempool_get s).0 ≡ ok tt)
        × (suc (lib.avail_count (lib.mempool_get s).2) ≡ lib.avail_count s)
        × (lib.size (lib.mempool_get s).2 ≡ lib.size s)
  pub refused :
      (s : S)
      → lib.avail_count s ≡ 0
      → (e : Error) × (from_ret libc (lib.mempool_get s).0 ≡ err e) × ((lib.mempool_get s).2 ≡ s)
  pub got_bulk :
      (n : ℕ) (s : S)
      → n ≤ lib.avail_count s
      → (from_ret libc (lib.mempool_get_bulk n s).0 ≡ ok tt)
        × (length (lib.mempool_get_bulk n s).1 ≡ n)
        × (lib.avail_count (lib.mempool_get_bulk n s).2 + n ≡ lib.avail_count s)
        × (lib.size (lib.mempool_get_bulk n s).2 ≡ lib.size s)
  pub refused_bulk :
      (n : ℕ) (s : S)
      → lib.avail_count s < n
      → (e : Error) × (from_ret libc (lib.mempool_get_bulk n s).0 ≡ err e)
        × ((lib.mempool_get_bulk n s).2 ≡ s)
  pub put :
      (x : ℕ) (s : S)
      → lib.avail_count s < lib.size s
      → (lib.avail_count (lib.mempool_put x s) ≡ suc (lib.avail_count s))
        × (lib.size (lib.mempool_put x s) ≡ lib.size s)
  pub put_bulk :
      (xs : List ℕ) (n : ℕ) (s : S)
      → n ≤ length xs
      → lib.avail_count s + n ≤ lib.size s
      → (lib.avail_count (lib.mempool_put_bulk xs n s) ≡ lib.avail_count s + n)
        × (lib.size (lib.mempool_put_bulk xs n s) ≡ lib.size s)

-- How many objects an answer has.
abbrev pub one_if_ok : {T : Type 0} → Result T → ℕ
one_if_ok (ok x) = 1
one_if_ok (err e) = 0
one_if_ok panicked = 0

abbrev pub many_if_ok : Result (List ℕ) → ℕ
many_if_ok (ok xs) = length xs
many_if_ok (err e) = 0
many_if_ok panicked = 0

module _ {S T : Type 0} (lib : RteMempool S) (libc : Libc) (from_raw : ℕ → Result T)
    (into_raw : T → ℕ) where
  -- A pool with the number of its objects that its users have, and the number that they can no more give back.
  pub data Use : S → ℕ → ℕ → S → ℕ → ℕ → Type 0 where
    gets :
        (s : S) (held lost : ℕ)
        → Use s held lost
            (get_object lib libc from_raw s).1
            (held + one_if_ok (get_object lib libc from_raw s).0)
            lost
    gets_bulk :
        (s : S) (held lost n : ℕ)
        → Use s held lost
            (get_objects lib libc n s).1
            (held + many_if_ok (get_objects lib libc n s).0)
            lost
    puts :
        (s : S) (held lost : ℕ) (x : T)
        → Use s (suc held) lost (put_object lib libc into_raw x s) held lost
    puts_bulk :
        (s s' : S) (held lost n : ℕ) (xs : List T)
        → put_objects lib libc into_raw xs n s ≡ some s'
        → Use s (held + length xs) lost s' held (lost + (length xs - n))

  -- Any number of uses.
  pub data Uses (s : S) (held lost : ℕ) : S → ℕ → ℕ → Type 0 where
    none_yet : Uses s held lost s held lost
    then_use :
        {s1 s2 : S} {h1 h2 l1 l2 : ℕ}
        → Uses s held lost s1 h1 l1
        → Use s1 h1 l1 s2 h2 l2
        → Uses s held lost s2 h2 l2

  abbrev pub Balanced : S → ℕ → ℕ → Type 0
  Balanced s held lost = lib.avail_count s + held + lost ≡ lib.size s
