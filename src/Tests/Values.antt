-- ===== src/Tests/Values.antt =====
-- Constants of Linux and of DPDK, for the tests of src/errno.rs and src/proto/mod.rs.
use async_dpdk.Base.{
  ℕ, ◌≤◌, ◌<◌, ◌≡◌, refl, sym, ap, ◌∙◌, Option, some, [], ◌∷◌, Dict, lookup, arith,
}
use async_dpdk.Errno.{
  Libc, Posix, eperm, enoent, esrch, eintr, eio, enxio, e2big, enoexec, ebadf, eagain, enomem,
  eacces, efault, ebusy, eexist, exdev, enodev, einval, enospc, epipe, erange, eoverflow, enotsup,
  ealready, enobufs, eproto,
}
use async_dpdk.Proto.{Ptypes}

unfoldable pub linux_number : Posix → ℕ
linux_number eperm = 1
linux_number enoent = 2
linux_number esrch = 3
linux_number eintr = 4
linux_number eio = 5
linux_number enxio = 6
linux_number e2big = 7
linux_number enoexec = 8
linux_number ebadf = 9
linux_number eagain = 11
linux_number enomem = 12
linux_number eacces = 13
linux_number efault = 14
linux_number ebusy = 16
linux_number eexist = 17
linux_number exdev = 18
linux_number enodev = 19
linux_number einval = 22
linux_number enospc = 28
linux_number epipe = 32
linux_number erange = 34
linux_number eoverflow = 75
linux_number enotsup = 95
linux_number ealready = 114
linux_number enobufs = 105
linux_number eproto = 71

-- The numbers with their names.
abbrev pub names : Dict Posix
names =
    (1, eperm)
    ∷ (2, enoent)
    ∷ (3, esrch)
    ∷ (4, eintr)
    ∷ (5, eio)
    ∷ (6, enxio)
    ∷ (7, e2big)
    ∷ (8, enoexec)
    ∷ (9, ebadf)
    ∷ (11, eagain)
    ∷ (12, enomem)
    ∷ (13, eacces)
    ∷ (14, efault)
    ∷ (16, ebusy)
    ∷ (17, eexist)
    ∷ (18, exdev)
    ∷ (19, enodev)
    ∷ (22, einval)
    ∷ (28, enospc)
    ∷ (32, epipe)
    ∷ (34, erange)
    ∷ (71, eproto)
    ∷ (75, eoverflow)
    ∷ (95, enotsup)
    ∷ (105, enobufs)
    ∷ (114, ealready)
    ∷ []

abbrev pub named : ℕ → Option Posix
named n = lookup n names

pub named-linux_number : (p : Posix) → named (linux_number p) ≡ some p
unfolding linux_number
named-linux_number eperm = refl
named-linux_number enoent = refl
named-linux_number esrch = refl
named-linux_number eintr = refl
named-linux_number eio = refl
named-linux_number enxio = refl
named-linux_number e2big = refl
named-linux_number enoexec = refl
named-linux_number ebadf = refl
named-linux_number eagain = refl
named-linux_number enomem = refl
named-linux_number eacces = refl
named-linux_number efault = refl
named-linux_number ebusy = refl
named-linux_number eexist = refl
named-linux_number exdev = refl
named-linux_number enodev = refl
named-linux_number einval = refl
named-linux_number enospc = refl
named-linux_number epipe = refl
named-linux_number erange = refl
named-linux_number eoverflow = refl
named-linux_number enotsup = refl
named-linux_number ealready = refl
named-linux_number enobufs = refl
named-linux_number eproto = refl

pub some-inj : (p q : Posix) → ◌≡◌ {A = Option Posix} (some p) (some q) → p ≡ q
some-inj p q e = cc

pub linux_number_pos : (p : Posix) → 1 ≤ linux_number p
unfolding linux_number
linux_number_pos eperm = omega arith
linux_number_pos p = omega arith

pub linux_number_small : (p : Posix) → linux_number p < 1000
unfolding linux_number
linux_number_small eperm = omega arith
linux_number_small p = omega arith

abbrev pub linux : Libc
linux = record {
  number = linux_number;
  number_pos = linux_number_pos;
  number_small = linux_number_small;
  number_injective =
      λ p q e. some-inj p q (sym (named-linux_number p) ∙ ap named e ∙ named-linux_number q);
}

-- The packet types of DPDK.
abbrev pub dpdk_ptypes : Ptypes
dpdk_ptypes = record {
  ptype_unknown = 0;
  l2_ether = 1;
  l3_ipv4 = 16;
  l3_ipv6 = 64;
  l3_mask = 240;
  l4_udp = 512;
  l4_tcp = 256;
  l4_mask = 3840;
}
