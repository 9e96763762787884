-- ===== src/Errno/Codes.antt =====
-- src/errno.rs: what the number of an error and the error of a number have to do with each other.
use mathlib.Core.Logic.{ite}
use native.Mathlib.Numerals.{add-one}
use async_dpdk.Base.{
  ℕ, zero, suc, ◌+◌, ◌≤◌, ◌<◌, ◌≡◌, refl, ◌∙◌, inl, inr, Option, none, some, List, [], ◌∷◌, map,
  ◌++◌, Option-cases, Bool-cases, ◌==◌, ==-ne, pos, negsuc, neg, saturating_neg, arith,
}
use async_dpdk.Errno.{
  Posix, eperm, enoent, esrch, eintr, eio, enxio, e2big, enoexec, ebadf, eagain, enomem, eacces,
  efault, ebusy, eexist, exdev, enodev, einval, enospc, epipe, erange, eoverflow, enotsup, ealready,
  enobufs, eproto, Error, no_perm, no_entry, no_proc, interrupted, io_err, not_configured, too_big,
  no_exec, bad_fd, temp_unavail, no_mem, no_access, bad_address, busy, exists, cross_dev, no_dev,
  invalid_arg, no_space, broken_pipe, out_of_range, overflow, not_supported, already, no_buf, proto,
  secondary, no_config, poisoned, not_start, not_exist, unknown, ok, err, Libc, libc_arms,
  literal_arms, first_arm, numbered, arms, from_i32, code, from_ret, refuse_pos,
}

Posix-discrete : Discrete Posix
Posix-discrete = hlevel

-- The arm of a name.
arm_of : Posix → List (Posix × Error) → Option Error
arm_of p [] = none
arm_of p ((q, e) ∷ xs) = ite (Posix-discrete p q) (some e) (arm_of p xs)

module _ (c : Libc) where
  open c use {number, number_pos, number_small, number_injective}

  first_arm-hit :
      (p : Posix) (e : Error) (xs : List (Posix × Error)) (ys : List (ℕ × Error))
      → arm_of p xs ≡ some e
      → first_arm (number p) (map (numbered c) xs ++ ys) ≡ some e
  unfolding arm_of
  first_arm-hit p e [] ys h = cc
  first_arm-hit p e ((q, e') ∷ xs) ys h =
      ground (arith, number_injective p q, first_arm-hit p e xs ys)

  first_arm-skip :
      (n : ℕ) (xs : List (Posix × Error)) (ys : List (ℕ × Error))
      → 1000 ≤ n
      → first_arm n (map (numbered c) xs ++ ys) ≡ first_arm n ys
  first_arm-skip n [] ys h = refl
  first_arm-skip n ((q, e) ∷ xs) ys h = ground (arith, number_small q, first_arm-skip n xs ys h)

  from_i32-arm : (n : ℕ) (e : Error) → first_arm n (arms c) ≡ some e → from_i32 c (pos n) ≡ ok e
  unfolding from_i32
  from_i32-arm n e h = rw (h, from_i32)

  from_i32-unknown : (n : ℕ) → 1 ≤ n → first_arm n (arms c) ≡ none → from_i32 c (pos n) ≡ ok unknown
  unfolding from_i32
  from_i32-unknown n h e = rw (e, from_i32) (ground arith)

  from_i32-posix :
      (p : Posix) (e : Error) → arm_of p libc_arms ≡ some e → from_i32 c (pos (number p)) ≡ ok e
  from_i32-posix p e h = from_i32-arm (number p) e (first_arm-hit p e libc_arms literal_arms h)

  from_i32-literal :
      (n : ℕ) (e : Error) → 1000 ≤ n → first_arm n literal_arms ≡ some e → from_i32 c (pos n) ≡ ok e
  from_i32-literal n e h q = from_i32-arm n e (first_arm-skip n libc_arms literal_arms h ∙ q)

  -- Every error is recovered from its number.
  pub from_i32-code : (e : Error) → from_i32 c (pos (code c e)) ≡ ok e
  unfolding code arm_of Posix-discrete
  from_i32-code no_perm = from_i32-posix eperm no_perm refl
  from_i32-code no_entry = from_i32-posix enoent no_entry refl
  from_i32-code no_proc = from_i32-posix esrch no_proc refl
  from_i32-code interrupted = from_i32-posix eintr interrupted refl
  from_i32-code io_err = from_i32-posix eio io_err refl
  from_i32-code not_configured = from_i32-posix enxio not_configured refl
  from_i32-code too_big = from_i32-posix e2big too_big refl
  from_i32-code no_exec = from_i32-posix enoexec no_exec refl
  from_i32-code bad_fd = from_i32-posix ebadf bad_fd refl
  from_i32-code temp_unavail = from_i32-posix eagain temp_unavail refl
  from_i32-code no_mem = from_i32-posix enomem no_mem refl
  from_i32-code no_access = from_i32-posix eacces no_access refl
  from_i32-code bad_address = from_i32-posix efault bad_address refl
  from_i32-code busy = from_i32-posix ebusy busy refl
  from_i32-code exists = from_i32-posix eexist exists refl
  from_i32-code cross_dev = from_i32-posix exdev cross_dev refl
  from_i32-code no_dev = from_i32-posix enodev no_dev refl
  from_i32-code invalid_arg = from_i32-posix einval invalid_arg refl
  from_i32-code no_space = from_i32-posix enospc no_space refl
  from_i32-code broken_pipe = from_i32-posix epipe broken_pipe refl
  from_i32-code out_of_range = from_i32-posix erange out_of_range refl
  from_i32-code overflow = from_i32-posix eoverflow overflow refl
  from_i32-code not_supported = from_i32-posix enotsup not_supported refl
  from_i32-code already = from_i32-posix ealready already refl
  from_i32-code no_buf = from_i32-posix enobufs no_buf refl
  from_i32-code proto = from_i32-posix eproto proto refl
  from_i32-code secondary = from_i32-literal 1001 secondary (omega arith) refl
  from_i32-code no_config = from_i32-literal 1002 no_config (omega arith) refl
  from_i32-code poisoned = from_i32-literal 1003 poisoned (omega arith) refl
  from_i32-code not_start = from_i32-literal 1004 not_start (omega arith) refl
  from_i32-code not_exist = from_i32-literal 1005 not_exist (omega arith) refl
  from_i32-code unknown =
      from_i32-unknown 1006 (omega arith) (first_arm-skip 1006 libc_arms literal_arms (omega arith))

  refuse_pos-pos :
      (n : ℕ) (e : Error) → 1 ≤ n → from_i32 c (pos n) ≡ ok e → refuse_pos c (pos n) ≡ err e
  unfolding refuse_pos
  refuse_pos-pos zero e h q = absurd (omega arith)
  refuse_pos-pos (suc n) e h q = rw q

  -- A positive number always has an error.
  from_i32-total : (n : ℕ) → 1 ≤ n → (e : Error) × (from_i32 c (pos n) ≡ ok e)
  from_i32-total n h = elim (Option-cases (first_arm n (arms c))) [
    | inl e ↦ (unknown, from_i32-unknown n h e)
    | inr (x, e) ↦ (x, from_i32-arm n x e)
  ]

  refuse_pos-total : (n : ℕ) → 1 ≤ n → (e : Error) × (refuse_pos c (pos n) ≡ err e)
  refuse_pos-total n h = let (e, q) = from_i32-total n h in (e, refuse_pos-pos n e h q)

  code_range : (e : Error) → (1 ≤ code c e) × (code c e < 2000)
  unfolding code
  code_range no_perm = omega (arith, number_pos, number_small)
  code_range e = omega (arith, number_pos, number_small)

  from_ret-neg :
      (n : ℕ) (e : Error)
      → 1 ≤ n
      → n < 2147483648
      → from_i32 c (pos n) ≡ ok e
      → from_ret c (saturating_neg (pos n)) ≡ err e
  unfolding from_ret
  from_ret-neg zero e lo hi q = absurd (omega arith)
  from_ret-neg (suc n) e lo hi q =
      rw (==-ne (n + 1) 2147483648 (omega arith), from_ret)
        (rw add-one (refuse_pos-pos (suc n) e lo q))

  -- What a failing step leaves in a C result, `-(e as i32)`, is read back as that error.
  pub from_ret-code : (e : Error) → from_ret c (saturating_neg (pos (code c e))) ≡ err e
  from_ret-code e =
      let r = code_range e in from_ret-neg (code c e) e r.0 (omega arith) (from_i32-code e)

  ok-neg : (n : ℕ) → refuse_pos c (neg n) ≡ ok tt
  unfolding refuse_pos
  ok-neg zero = refl
  ok-neg (suc n) = refl

  -- `from_ret` never reaches the `unreachable!` of the conversion: a result of 0 or more is `Ok`, and
  -- a negative one is an error.
  pub from_ret_total :
      (n : ℕ) → (from_ret c (pos n) ≡ ok tt) × ((e : Error) × (from_ret c (negsuc n) ≡ err e))
  unfolding from_ret
  from_ret_total n = (
    ok-neg n,
    elim (Bool-cases (n + 1 == 2147483648)) [
      | inl e ↦ rw (e, from_ret) (refuse_pos-total 2147483647 (omega arith))
      | inr e ↦ rw (e, from_ret) (refuse_pos-total (n + 1) (omega arith))
    ],
  )
