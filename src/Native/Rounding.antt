-- ===== src/Native/Rounding.antt =====
-- native.py: `round_to_pages`, for sizes that are not negative.
use dumpulator.Prelude.{ℕ, ◌+◌, ◌*◌, ◌/◌, ◌%◌, ◌^◌, ◌≤◌, ◌<◌, ◌≡◌, arith}
use dumpulator.Memory.Region.{align_page}

-- `(size + 0xFFF) & 0xFFFFFFFFFFFFF000`
unfoldable pub round_to_pages : ℕ → ℕ
round_to_pages size = (size + 0xFFF) % 2 ^ 64 / 0x1000 * 0x1000

-- `round_to_pages` is the rounding of the memory manager for every size up to the last page below 2^64.
pub round_to_pages-align_page :
    (size : ℕ) → size + 0x1000 ≤ 2 ^ 64 → round_to_pages size ≡ align_page size
unfolding round_to_pages
round_to_pages-align_page size h = omega arith

-- A size in the last page below 2^64 is rounded to 0.
pub round_to_pages_wraps :
    (size : ℕ) → 2 ^ 64 < size + 0x1000 → size < 2 ^ 64 → round_to_pages size ≡ 0
unfolding round_to_pages
round_to_pages_wraps size h k = omega arith
