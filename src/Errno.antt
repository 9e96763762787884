-- ===== src/Errno.antt =====
-- src/errno.rs: the error type, the codes that the C side uses for it, and the result type.
-- The values of `libc`'s constants are a parameter: `Libc` gives one to each of the names that the
-- source takes from it, with what the platform documents about them.
pub mod Codes
use async_dpdk.Base.{
  ℕ, suc, ◌+◌, ◌-◌, ◌≤◌, ◌<◌, ◌≡◌, refl, Bool, true, false, Option, none, some, List, [], ◌∷◌, map,
  saturating_neg, zero, ltb, ◌==◌, if◌then◌else◌, ℤ, pos, negsuc, ◌++◌,
}

-- The constants of `libc` that `enum Error` names.
pub data Posix : Type 0 where
  eperm enoent esrch eintr eio enxio e2big enoexec ebadf eagain enomem eacces efault : Posix
  ebusy eexist exdev enodev einval enospc epipe erange eoverflow enotsup ealready enobufs : Posix
  eproto : Posix

-- `enum Error`
pub data Error : Type 0 where
  no_perm no_entry no_proc interrupted io_err not_configured too_big no_exec bad_fd : Error
  temp_unavail no_mem no_access bad_address busy exists cross_dev no_dev invalid_arg : Error
  no_space broken_pipe out_of_range overflow not_supported already no_buf proto : Error
  secondary no_config poisoned not_start not_exist unknown : Error

-- `errno::Result`, with a third outcome for a panic.
pub data Result {ℓ} (A : Type ℓ) : Type ℓ where
  ok : A → Result A
  err : Error → Result A
  panicked : Result A

infixl 5 ◌>>=◌ ◌>>◌
abbrev pub ◌>>=◌ {ℓ κ} : {S : Type ℓ} {T : Type κ} → Result S → (S → Result T) → Result T
panicked >>= next = panicked
err e >>= next = err e
ok x >>= next = next x

abbrev pub ◌>>◌ {ℓ} : {T : Type ℓ} → Result (Unit {0}) → Result T → Result T
first >> next = first >>= λ _. next

-- A chain that ends well came through its first part.
pub >>=-eq-ok {ℓ κ} :
    {S : Type ℓ} {T : Type κ} (first : Result S) (next : S → Result T) {y : T}
    → (first >>= next) ≡ ok y
    → (x : S) × (first ≡ ok x) × (next x ≡ ok y)
>>=-eq-ok panicked next q = cc
>>=-eq-ok (err _) next q = cc
>>=-eq-ok (ok x) next q = (x, refl, q)

-- `Option::ok_or`
abbrev pub ok_or {ℓ} : {A : Type ℓ} → Option A → Error → Result A
ok_or none e = err e
ok_or (some a) e = ok a

-- `if c { return Err(e) }`
abbrev pub fail_if : Bool → Error → Result (Unit {0})
fail_if true e = err e
fail_if false e = ok tt

-- The errors of the standard library and of tokio that the crate converts.
pub data Cause : Type 0 where
  poison_error tokio_send_error try_send_error oneshot_recv_error : Cause
  std_send_error std_recv_error nul_error addr_parse_error into_string_error : Cause
  try_from_int_error : Cause

-- The conversions `From<_> for Error` of these.
abbrev pub from_cause : Cause → Error
from_cause poison_error = poisoned
from_cause tokio_send_error = broken_pipe
from_cause try_send_error = temp_unavail
from_cause oneshot_recv_error = broken_pipe
from_cause std_send_error = broken_pipe
from_cause std_recv_error = broken_pipe
from_cause nul_error = invalid_arg
from_cause addr_parse_error = invalid_arg
from_cause into_string_error = invalid_arg
from_cause try_from_int_error = invalid_arg

-- `u16::try_from(n)` on a `usize`, the error being converted by `Error::from`.
abbrev pub try_u16 : ℕ → Result ℕ
try_u16 n = if ltb n 65536 then ok n else err (from_cause try_from_int_error)

-- The platform's error numbers: positive, below the numbers that DPDK adds, and no two alike.
pub record Libc : Type 0 where
  pub number : Posix → ℕ
  pub number_pos : (p : Posix) → 1 ≤ number p
  pub number_small : (p : Posix) → number p < 1000
  pub number_injective : (p q : Posix) → number p ≡ number q → p ≡ q

-- The arms of `impl From<i32> for Error` that are `libc` constants, in the source's order.
abbrev pub libc_arms : List (Posix × Error)
libc_arms =
    (eperm, no_perm)
    ∷ (enoent, no_entry)
    ∷ (esrch, no_proc)
    ∷ (eintr, interrupted)
    ∷ (eio, io_err)
    ∷ (enxio, not_configured)
    ∷ (e2big, too_big)
    ∷ (enoexec, no_exec)
    ∷ (ebadf, bad_fd)
    ∷ (eagain, temp_unavail)
    ∷ (enomem, no_mem)
    ∷ (eacces, no_access)
    ∷ (efault, bad_address)
    ∷ (ebusy, busy)
    ∷ (eexist, exists)
    ∷ (exdev, cross_dev)
    ∷ (enodev, no_dev)
    ∷ (einval, invalid_arg)
    ∷ (enospc, no_space)
    ∷ (epipe, broken_pipe)
    ∷ (erange, out_of_range)
    ∷ (eoverflow, overflow)
    ∷ (enotsup, not_supported)
    ∷ (ealready, already)
    ∷ (enobufs, no_buf)
    ∷ (eproto, proto)
    ∷ []

-- The arms with a literal.
abbrev pub literal_arms : List (ℕ × Error)
literal_arms =
    (1001, secondary)
    ∷ (1002, no_config)
    ∷ (1003, poisoned)
    ∷ (1004, not_start)
    ∷ (1005, not_exist)
    ∷ []

-- The first arm that fits.
abbrev pub first_arm : ℕ → List (ℕ × Error) → Option Error
first_arm n [] = none
first_arm n ((k, e) ∷ arms) = if n == k then some e else first_arm n arms

module _ (c : Libc) where
  open c use {number}

  abbrev pub numbered : Posix × Error → ℕ × Error
  numbered (p, e) = (number p, e)

  abbrev pub arms : List (ℕ × Error)
  arms = map numbered libc_arms ++ literal_arms

  -- `impl From<i32> for Error`: a positive number that no arm names is `unknown`, and one that is
  -- not positive is `unreachable!`.
  unfoldable pub from_i32 : ℤ → Result Error
  from_i32 (pos n) = elim (first_arm n arms) [
    | some e ↦ ok e
    | none ↦ if ltb 0 n then ok unknown else panicked
  ]
  from_i32 (negsuc n) = panicked

  -- The discriminant, `e as i32`; `Unknown` has none of its own and follows `NotExist`.
  unfoldable pub code : Error → ℕ
  code no_perm = number eperm
  code no_entry = number enoent
  code no_proc = number esrch
  code interrupted = number eintr
  code io_err = number eio
  code not_configured = number enxio
  code too_big = number e2big
  code no_exec = number enoexec
  code bad_fd = number ebadf
  code temp_unavail = number eagain
  code no_mem = number enomem
  code no_access = number eacces
  code bad_address = number efault
  code busy = number ebusy
  code exists = number eexist
  code cross_dev = number exdev
  code no_dev = number enodev
  code invalid_arg = number einval
  code no_space = number enospc
  code broken_pipe = number epipe
  code out_of_range = number erange
  code overflow = number eoverflow
  code not_supported = number enotsup
  code already = number ealready
  code no_buf = number enobufs
  code proto = number eproto
  code secondary = 1001
  code no_config = 1002
  code poisoned = 1003
  code not_start = 1004
  code not_exist = 1005
  code unknown = 1006

  -- The `match` of `from_ret` on the negated number.
  refuse_pos : ℤ → Result (Unit {0})
  unfolding from_i32
  refuse_pos (pos zero) = ok tt
  refuse_pos (pos (suc n)) = do e ← from_i32 (pos (suc n)); err e
  refuse_pos (negsuc n) = ok tt

  -- `Error::from_ret`
  unfoldable pub from_ret : ℤ → Result (Unit {0})
  unfolding saturating_neg refuse_pos
  from_ret errno = refuse_pos (saturating_neg errno)
