-- ===== src/Base/Words.antt =====
-- Machine words: `u16` and `usize` arithmetic with its wrap-around, and signed results of C calls.
use async_dpdk.Base.Tests.{◌==◌, if◌then◌else◌}
use Prim.Native.Nat.{zero, suc, ℕ, ◌+◌, ◌-◌, ◌%◌, ◌^◌}

abbrev pub u16_size : ℕ
u16_size = 65536

abbrev pub usize_size : ℕ
usize_size = 2 ^ 64

-- `u16::wrapping_add`
abbrev pub add_u16 : ℕ → ℕ → ℕ
add_u16 a b = (a + b) % u16_size

-- `usize::wrapping_add` and `usize::wrapping_sub`
abbrev pub add_usize : ℕ → ℕ → ℕ
add_usize a b = (a + b) % usize_size

abbrev pub sub_usize : ℕ → ℕ → ℕ
sub_usize a b = (a + usize_size - b) % usize_size

-- `negsuc n` is -(n + 1).
pub data ℤ : Type 0 where
  pos : ℕ → ℤ
  negsuc : ℕ → ℤ

abbrev pub neg : ℕ → ℤ
neg zero = pos 0
neg (suc n) = negsuc n

-- `i32::saturating_neg`: the least value has no opposite, and goes to the greatest.
unfoldable pub saturating_neg : ℤ → ℤ
saturating_neg (pos n) = neg n
saturating_neg (negsuc n) = if n + 1 == 2147483648 then pos 2147483647 else pos (n + 1)
