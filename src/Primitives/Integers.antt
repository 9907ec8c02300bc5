-- ===== src/Primitives/Integers.antt =====
-- ntprimitives.py: the integer types that truncate their value.
use dumpulator.Prelude.Int.{ℤ, pos, negsuc}
use dumpulator.Prelude.{ℕ, zero, suc, ◌+◌, ◌-◌, ◌*◌, ◌/◌, ◌%◌, ◌==◌, if◌then◌else◌}

pub data Width : Type 0 where
  char short long : Width

-- The sign bit of `CHAR`, `SHORT` and `LONG`.
unfoldable pub sign_bit : Width → ℕ
sign_bit char = 0x80
sign_bit short = 0x8000
sign_bit long = 0x80000000

-- `value & mask`, where `mask + 1` is `bound`, a power of 2
unfoldable pub masked : (bound : ℕ) → ℤ → ℕ
masked bound (pos n) = n % bound
masked bound (negsuc n) = bound - (1 + n % bound)

-- `-n`
unfoldable pub negated : ℕ → ℤ
negated zero = pos 0
negated (suc n) = negsuc n

-- `UCHAR`, `USHORT` and `ULONG`
unfoldable pub unsigned : Width → ℤ → ℤ
unfolding masked sign_bit
unsigned w value = pos (masked (2 * sign_bit w) value)

-- The value of `CHAR`, `SHORT` and `LONG` after `value = value & mask`: `(~value) & mask` is
-- `mask - value`, and `value & sign_bit` is not 0 if the bit is set.
unfoldable pub signed_value : Width → ℕ → ℤ
unfolding negated sign_bit
signed_value w value =
    if value / sign_bit w % 2 == 0 then pos value else negated (2 * sign_bit w - (1 + value))

unfoldable pub signed : Width → ℤ → ℤ
unfolding signed_value masked sign_bit
signed w value = signed_value w (masked (2 * sign_bit w) value)
