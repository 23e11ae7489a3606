-- ===== src/Base/Words.antt =====
-- Machine words as native numbers: 64-bit wrap-around, the alignment macros of include/types.h, and
-- the signed results of the system calls.
use Prim.Native.Nat.{ℕ, zero, suc, ◌+◌, ◌-◌, ◌*◌, ◌/◌, ◌%◌, ◌^◌}

abbrev pub u64_mod : ℕ
u64_mod = 2 ^ 64

abbrev pub u32_mod : ℕ
u32_mod = 2 ^ 32

-- uint64_t a + b and a - b. `-` on ℕ is truncated, so the modulus is added first.
abbrev pub add64 : ℕ → ℕ → ℕ
add64 a b = (a + b) % 2 ^ 64

abbrev pub sub64 : ℕ → ℕ → ℕ
sub64 a b = (a + 2 ^ 64 - b) % 2 ^ 64

-- ALIGN_DOWN and ALIGN_UP for a power of two `a`.
abbrev pub align_down : ℕ → ℕ → ℕ
align_down x a = x / a * a

abbrev pub align_up : ℕ → ℕ → ℕ
align_up x a = (x + (a - 1)) % 2 ^ 64 / a * a

-- `negsuc n` is -(n + 1).
pub data ℤ : Type 0 where
  pos : ℕ → ℤ
  negsuc : ℕ → ℤ

-- The negation of a number, -n.
abbrev pub neg : ℕ → ℤ
neg zero = pos 0
neg (suc n) = negsuc n
