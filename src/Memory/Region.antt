-- ===== src/Memory/Region.antt =====
-- memory.py: `MemoryRegion`, and the rounding of addresses.
-- Addresses and sizes are Python integers that are never negative here. `x & ~(2 ** k - 1)` is
-- written as rounding down to a multiple of `2 ** k`, and `x & (2 ** k - 1)` as the remainder.
use dumpulator.Prelude.{
  ℕ, zero, suc, ◌+◌, ◌-◌, ◌*◌, ◌/◌, ◌%◌, Bool, ◌&&◌, Option, List, [], ◌∷◌, ltb, leb, ◌==◌,
  if◌then◌else◌,
}
use dumpulator.Memory.Protect.{page_size, MemoryProtect, MemoryType}

-- What the program hangs on a region: a `Module`, by its base address, or another value, by a number
-- that tells it from the others.
pub data Info : Type 0 where
  module_at : ℕ → Info
  label : ℕ → Info

pub record MemoryRegion : Type 0 where
  pub start : ℕ
  pub size : ℕ
  pub protect : MemoryProtect
  pub type : MemoryType
  pub info : Option Info
  pub commit_count : ℕ

abbrev pub end : MemoryRegion → ℕ
end r = r.start + r.size

-- `n & 0xFFF == 0`
abbrev pub is_page_multiple : ℕ → Bool
is_page_multiple n = n % page_size == 0

-- the assertions of `__post_init__`
abbrev pub post_init : (start size : ℕ) → Bool
post_init start size = is_page_multiple start && is_page_multiple size

-- `__contains__`, for the region at `start` of `size` bytes
unfoldable pub contains : (r : MemoryRegion) (start size : ℕ) → Bool
contains r start size =
    if size == 0
    then leb r.start start && ltb (start + size) (end r)
    else leb r.start start && leb (start + size) (end r)

unfoldable pub overlaps : (start size : ℕ) → MemoryRegion → Bool
overlaps start size other =
    if leb start other.start then ltb other.start (start + size) else ltb start (end other)

-- `range(start, start + count * PAGE_SIZE, PAGE_SIZE)`
unfoldable pub page_range : (start count : ℕ) → List ℕ
page_range start zero = []
page_range start (suc count) = start ∷ page_range (start + page_size) count

-- The sizes of regions are whole pages, by `__post_init__`.
abbrev pub page_count : ℕ → ℕ
page_count size = size / page_size

unfoldable pub pages : (start size : ℕ) → List ℕ
unfolding page_range
pages start size = page_range start (page_count size)

-- Rounds down to the page containing this address
abbrev pub containing_page : ℕ → ℕ
containing_page addr = addr / page_size * page_size

-- Rounds up to the nearest page size
abbrev pub align_page : ℕ → ℕ
align_page addr = (addr + (page_size - 1)) / page_size * page_size

-- Rounds up to the nearest allocation granularity, a power of two
abbrev pub align_allocation : (granularity addr : ℕ) → ℕ
align_allocation granularity addr = (addr + (granularity - 1)) / granularity * granularity
