-- ===== src/Agent/TxBuffer/Capacity.antt =====
-- src/agent.rs: how many entries `TxBuffer` holds, and what fragments leave in it.
use async_dpdk.Base.{
  ℕ, zero, suc, ◌+◌, ◌-◌, ◌^◌, ◌≤◌, ◌<◌, ◌≡◌, refl, ap, ◌∙◌, false, none, some, List, [], ◌∷◌, ◌++◌,
  map, length, replicate, length-append, length-replicate, ltb, add_usize, sub_usize, arith, pos,
}
use async_dpdk.Errno.{ok, err, no_buf}
use async_dpdk.Errno.Codes.{from_ret_total}
use async_dpdk.Agent.TxBuffer.{
  Ptr, TxMbuf, TxLib, TxBuffer, tx_buf_size, array_of, exp_nb_frags, without_hdr, fragment,
  do_fragment, enqueue,
}

length-array_of : (room : ℕ) (ps : List ℕ) → length (array_of room ps) ≡ room
length-array_of room [] = length-replicate room none
length-array_of zero (p ∷ ps) = refl
length-array_of (suc room) (p ∷ ps) = ap suc (length-array_of room ps)

array_of-nulls :
    (room : ℕ) (ps : List ℕ)
    → length ps ≤ room
    → array_of room ps ≡ map some ps ++ replicate (room - length ps) none
array_of-nulls room [] h = ap (λ k. replicate k none) minus_zero
  where
    minus_zero : room ≡ room - 0
    minus_zero = omega arith
array_of-nulls zero (p ∷ ps) h = elim h [ ]
array_of-nulls (suc room) (p ∷ ps) h =
    ap (◌∷◌ (some p))
      (array_of-nulls room ps (omega arith) ∙ ap (λ k. map some ps ++ replicate k none) shift)
  where
    shift : room - length ps ≡ suc room - suc (length ps)
    shift = omega arith

not_lt :
    (room n : ℕ)
    → 1024 < n
    → n < 2 ^ 63
    → room < 2 ^ 32
    → ltb (sub_usize tx_buf_size n) (add_usize room 1) ≡ false
not_lt room n o s r = ground arith

module _ (lib : TxLib) where
  -- A packet shorter than the MTU is queued at the end unless more than 1024 entries wait, and then it
  -- is refused with `NoBuf`. So the queue goes up to 1025 entries, one more than its capacity.
  pub enqueue_short :
      (m : TxMbuf) (b : TxBuffer)
      → m.pkt_len < lib.mtu
      → (length b.mbufs ≤ 1024
          → (enqueue lib m b ≡ ok (record b { mbufs = b.mbufs ++ some m.ptr ∷ [] }))
            × (length (b.mbufs ++ some m.ptr ∷ []) ≤ 1025))
        × (1024 < length b.mbufs → enqueue lib m b ≡ err no_buf)
  unfolding enqueue
  enqueue_short m b h = (
    λ n. (ground arith, omega (arith, length-append b.mbufs (some m.ptr ∷ []))),
    λ n. ground arith,
  )

  do_fragment-fragment :
      (m : TxMbuf) (b : TxBuffer) (n : ℕ) (ps : List ℕ)
      → ltb (sub_usize tx_buf_size (length b.mbufs)) (add_usize (exp_nb_frags lib m) 1) ≡ false
      → fragment lib (without_hdr lib m) (exp_nb_frags lib m) ≡ ok (pos n, ps)
      → n ≤ exp_nb_frags lib m
      → do_fragment lib m b ≡ ok (record b { mbufs = b.mbufs ++ array_of (exp_nb_frags lib m) ps })
  unfolding do_fragment
  do_fragment-fragment m b n ps g f h = ground (arith, from_ret_total lib.libc n)

  -- `do_fragment` queues the whole array it made room for: when the fragmentation of the packet behind
  -- its Ethernet header returns `n` pointers and the array has more entries, null pointers are queued
  -- behind them. This holds for every queue that the test for space lets through.
  pub do_fragment_nulls :
      (m : TxMbuf) (b : TxBuffer) (n : ℕ) (ps : List ℕ)
      → add_usize (exp_nb_frags lib m) 1 ≤ sub_usize tx_buf_size (length b.mbufs)
      → fragment lib (without_hdr lib m) (exp_nb_frags lib m) ≡ ok (pos n, ps)
      → length ps ≡ n
      → n ≤ exp_nb_frags lib m
      → do_fragment lib m b
        ≡ ok (record b {
          mbufs = b.mbufs ++ (map some ps ++ replicate (exp_nb_frags lib m - n) none);
        })
  do_fragment_nulls m b n ps g f l h =
      do_fragment-fragment m b n ps (ground arith) f h
      ∙ ap (λ (x : List Ptr). ok (record b { mbufs = b.mbufs ++ x }))
          (array_of-nulls (exp_nb_frags lib m) ps (omega arith)
            ∙ ap (λ (k : ℕ). map some ps ++ replicate (exp_nb_frags lib m - k) none) l)

  -- A queue that holds more than 1024 entries passes the test for space, whose subtraction wraps round:
  -- it is not refused, and grows by the whole array.
  pub do_fragment_overfull :
      (m : TxMbuf) (b : TxBuffer) (n : ℕ) (ps : List ℕ)
      → 1024 < length b.mbufs
      → length b.mbufs < 2 ^ 63
      → exp_nb_frags lib m < 2 ^ 32
      → fragment lib (without_hdr lib m) (exp_nb_frags lib m) ≡ ok (pos n, ps)
      → n ≤ exp_nb_frags lib m
      → (b' : TxBuffer) × (do_fragment lib m b ≡ ok b')
        × (length b'.mbufs ≡ length b.mbufs + exp_nb_frags lib m)
  do_fragment_overfull m b n ps o s r f h = (
    record b { mbufs = b.mbufs ++ array_of (exp_nb_frags lib m) ps },
    do_fragment-fragment m b n ps (not_lt (exp_nb_frags lib m) (length b.mbufs) o s r) f h,
    omega (
      arith,
      length-append b.mbufs (array_of (exp_nb_frags lib m) ps),
      length-array_of (exp_nb_frags lib m) ps,
    ),
  )
