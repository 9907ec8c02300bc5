-- ===== src/Memory/Manager.antt =====
-- memory.py: the state of `MemoryManager`, the lookups and `reserve`.
-- The page manager is an object that the manager only calls. Its calls are recorded, newest first;
-- what a page manager makes of them is the matter of Memory/Contract.antt.
use dumpulator.Prelude.{
  ℕ, zero, suc, Bool, false, ◌&&◌, ◌||◌, Option, none, some, List, [], ltb, ◌==◌, if◌then◌else◌,
  get_elem?, insert_at,
}
use dumpulator.Prelude.Dict.{Dict, empty}
use dumpulator.Outcome.{key_error, Action, pure, gets, modify, assert, raise_if, ◌>>=◌, ◌>>◌}
use dumpulator.Memory.Protect.{MemoryProtect, MemoryType}
use dumpulator.Memory.Region.{
  Info, MemoryRegion, end, post_init, contains, overlaps, align_page, align_allocation,
  containing_page,
}
use dumpulator.Memory.Pager.{Call}
use dumpulator.Memory.Bisect.{bisect_right}

-- A value of `_committed`: a `MemoryRegion` of one page, whose start is the key.
pub record Page : Type 0 where
  pub protect : MemoryProtect
  pub type : MemoryType
  pub info : Option Info

pub record MemoryManager : Type 0 where
  pub calls : List Call
  pub minimum : ℕ
  pub maximum : ℕ
  pub granularity : ℕ
  pub regions : List MemoryRegion
  pub committed : Dict Page

-- `MemoryManager(page_manager)`
abbrev pub new_manager : MemoryManager
new_manager = record {
  calls = [];
  minimum = 0x10000;
  maximum = 0x7fffffff0000;
  granularity = 0x10000;
  regions = [];
  committed = empty;
}

-- `closest = self._regions[index - 1]`, returned if the region at `start` lies in it
unfoldable pub closest : Option MemoryRegion → (start size : ℕ) → Option MemoryRegion
closest none start size = none
closest (some r) start size = if contains r start size then some r else none

unfoldable pub region_before : List MemoryRegion → (index start size : ℕ) → Option MemoryRegion
unfolding closest
region_before rs zero start size = none
region_before rs (suc i) start size = closest (get_elem? rs i) start size

-- `find_region(MemoryRegion(start, size))`
unfoldable pub find_region : List MemoryRegion → (start size : ℕ) → Option MemoryRegion
unfolding region_before
find_region rs start size = region_before rs (bisect_right rs start) start size

-- `find_region(addr)`
abbrev pub find_region_at : List MemoryRegion → ℕ → Option MemoryRegion
find_region_at rs addr = find_region rs (containing_page addr) 0

unfoldable pub find_commit : MemoryManager → ℕ → Option Page
find_commit m addr = m.committed (containing_page addr)

-- `check_overlaps(index)`: an index out of range has no overlap
unfoldable pub check_overlaps : List MemoryRegion → (start size index : ℕ) → Bool
check_overlaps rs start size index = elim (get_elem? rs index) [
  | none ↦ false
  | some r ↦ overlaps start size r
]

-- The overlap checks of `reserve`: of the neighbours of the place where the region goes.
unfoldable pub neighbours_overlap : List MemoryRegion → (start size index : ℕ) → Bool
unfolding check_overlaps
neighbours_overlap rs start size zero = check_overlaps rs start size 0
neighbours_overlap rs start size (suc i) =
    check_overlaps rs start size i || check_overlaps rs start size (suc i)

unfoldable pub reserve :
    (start size : ℕ) → MemoryProtect → MemoryType → Option Info → Action MemoryManager MemoryRegion
reserve start size protect type info = do
  assert (ltb 0 size && align_page size == size)
  m ← gets (λ m. m)
  assert (align_allocation m.granularity start == start)
  assert (post_init start size)
  let region : MemoryRegion = record {
    start = start;
    size = size;
    protect = protect;
    type = type;
    info = info;
    commit_count = 0;
  }
  raise_if (ltb start m.minimum || ltb m.maximum (end region)) key_error
  let index = bisect_right m.regions start
  raise_if (neighbours_overlap m.regions start size index) key_error
  modify (λ m. record m { regions = insert_at index region m.regions })
  pure region
