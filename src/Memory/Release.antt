-- ===== src/Memory/Release.antt =====
-- memory.py: `release`.
use dumpulator.Prelude.{
  ℕ, zero, ◌+◌, ◌-◌, true, ◌&&◌, List, [], ◌∷◌, ltb, ◌==◌, if◌then◌else◌, is_some,
}
use dumpulator.Prelude.Dict.{Dict}
use dumpulator.Outcome.{key_error, Action, pure, gets, reads, modify, assert, raise_if, ◌>>=◌, ◌>>◌}
use dumpulator.Memory.Region.{
  MemoryRegion, end, post_init, pages, align_allocation, containing_page,
}
use dumpulator.Memory.Manager.{Page, MemoryManager, reserve}
use dumpulator.Memory.Commit.{set_count, find_parent, decommit_region}

-- `self._regions.remove(region)`: the first equal region. No other region has its start.
unfoldable pub remove_region : (start : ℕ) → List MemoryRegion → List MemoryRegion
remove_region start [] = []
remove_region start (r ∷ rs) = if r.start == start then rs else r ∷ remove_region start rs

-- `for page in region.pages(): if page in self._committed: region.commit_count += 1`
unfoldable pub recount : List ℕ → Dict Page → ℕ → ℕ
recount [] c n = n
recount (page ∷ ps) c n = recount ps c (if is_some (c page) then n + 1 else n)

-- `before` and `after`: a part of the parent that stays reserved, if it is not empty. The result is
-- its `commit_count`.
unfoldable pub reserve_part : (parent : MemoryRegion) (start size : ℕ) → Action MemoryManager ℕ
unfolding recount set_count
reserve_part parent start zero = pure 0
reserve_part parent start size = do
  reserve start size parent.protect parent.type parent.info
  count ← gets (λ m. recount (pages start size) m.committed 0)
  modify (λ m. record m { regions = set_count start count m.regions })
  pure count

-- `size = parent.size` if it is 0
abbrev pub release_size : ℕ → MemoryRegion → ℕ
release_size size parent = if size == 0 then parent.size else size

-- What follows `_decommit_region`: the parent is replaced by what is left of it.
unfoldable pub split_parent :
    (parent : MemoryRegion) (start size : ℕ) → Action MemoryManager (Unit {0})
unfolding remove_region reserve_part
split_parent parent start size = do
  modify (λ m. record m { regions = remove_region parent.start m.regions })
  assert (
      post_init parent.start (start - parent.start)
      && post_init (start + size) (end parent - (start + size)))
  assert (if parent.size == size then parent.commit_count == 0 else true)
  before ← reserve_part parent parent.start (start - parent.start)
  after ← reserve_part parent (start + size) (end parent - (start + size))
  assert (before + after == parent.commit_count)

unfoldable pub release : (start size : ℕ) → Action MemoryManager (Unit {0})
release start size = do
  m ← gets (λ m. m)
  assert (align_allocation m.granularity start == start)
  assert (align_allocation m.granularity size == size)
  parent ← reads (find_parent (containing_page start) 0)
  let size' = release_size size parent
  raise_if (ltb (end parent) (start + size')) key_error
  assert (post_init start size')
  parent' ← decommit_region parent start size'
  split_parent parent' start size'
