-- ===== src/Bits.antt =====
-- bitSet, bitClear and bitTest of paging.c, over 32-bit words. A shift count is taken modulo 32,
-- as the x86 shift instructions take it.
pub mod Digits
pub mod Laws
use myreallyoldkernel.Prelude.{ℕ, zero, suc, ◌+◌, ◌-◌, ◌*◌, ◌/◌, ◌%◌, ◌^◌, bit_and, bit_or}

-- `1 << k` in a 32-bit register, for a count that the hardware has reduced.
unfoldable pub one_shl : ℕ → ℕ
one_shl zero = 1
one_shl (suc k) = 2 * one_shl k

-- `a >> k`, for a count that the hardware has reduced.
unfoldable pub shr : ℕ → ℕ → ℕ
shr a zero = a
shr a (suc k) = shr (a / 2) k

-- `~a` on 32 bits
abbrev pub not32 : ℕ → ℕ
not32 a = 2 ^ 32 - 1 - a

-- The parameter `bit` is a uint8, so an argument is cut to its low byte first.
abbrev pub shift_count : ℕ → ℕ
shift_count bit = bit % 256 % 32

unfoldable pub bit_set : ℕ → ℕ → ℕ
unfolding one_shl
bit_set target bit = bit_or target (one_shl (shift_count bit))

unfoldable pub bit_clear : ℕ → ℕ → ℕ
unfolding one_shl
bit_clear target bit = bit_and target (not32 (one_shl (shift_count bit)))

unfoldable pub bit_test : ℕ → ℕ → ℕ
unfolding shr
bit_test target bit = bit_and (shr target (shift_count bit)) 1
