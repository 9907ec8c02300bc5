-- ===== src/Memory/Examples.antt =====
-- The manager on the inputs of memory_test.py, and the theorems at inputs that meet their hypotheses.
use dumpulator.Prelude.{ℕ, ◌≡◌, refl, true, map, none, some, List, [], ◌∷◌, arith, if◌then◌else◌}
use dumpulator.Outcome.{ok, raise, key_error, assertion_error}
use dumpulator.Memory.Protect.{
  mem_private, page_noaccess, page_readwrite, page_execute_read, undefined,
}
use dumpulator.Memory.Region.{
  MemoryRegion, contains, overlaps, pages, align_allocation, containing_page,
}
use dumpulator.Memory.Pager.{Call}
use dumpulator.Memory.Bisect.{bisect_right}
use dumpulator.Memory.Manager.{
  MemoryManager, new_manager, find_region, find_commit, neighbours_overlap, reserve,
}
use dumpulator.Memory.Layout.{lookup_region, any_overlap, find_region-lookup_region}
use dumpulator.Memory.Count.{in_range}
use dumpulator.Memory.Commit.{
  commit_ledger, commit_all, commit_each, none_committed, all_committed, decommit_loop,
  close_ledger, find_parent, is_page_range, protection_at, protect_all, commit, decommit,
  decommit_region, protect,
}
use dumpulator.Memory.Release.{release, split_parent}
use dumpulator.Memory.RegionInfo.{set_region_info}
use dumpulator.Memory.Valid.{IsValid}
use dumpulator.Memory.Reserving.{reserve_exact, may_reserve, blocked, new_region, with_region}
use dumpulator.Memory.Committing.{Commits, commit_inside, commit_error}
use dumpulator.Memory.Decommitting.{Decommits, decommit_inside}
use dumpulator.Memory.Protecting.{Protects, pages_present, protect_inside, protect_error}
use dumpulator.Memory.Releasing.{Releases, release_inside, release_error, release_errors}
use dumpulator.Memory.History.{Request, reserve_region, commit_pages, perform_all, history-IsValid}

-- What a test has to see through.
unfoldable pub program : Unit {0}
unfolding contains overlaps pages bisect_right find_region find_commit neighbours_overlap reserve
    commit_ledger commit_all commit_each none_committed all_committed decommit_loop close_ledger
    find_parent is_page_range protection_at protect_all commit decommit decommit_region protect
    release split_parent set_region_info perform_all lookup_region any_overlap in_range
program = tt

abbrev requests : List Request
requests =
    reserve_region 0x20000 0x30000 page_noaccess mem_private none
    ∷ commit_pages 0x20000 0x2000 page_readwrite
    ∷ commit_pages 0x24000 0x1000 undefined
    ∷ []

unfoldable pub busy : MemoryManager
busy = perform_all new_manager requests

pub busy-IsValid : IsValid busy
unfolding busy
busy-IsValid = history-IsValid requests

abbrev pub parent : MemoryRegion
parent = record {
  start = 0x20000;
  size = 0x30000;
  protect = page_noaccess;
  type = mem_private;
  info = none;
  commit_count = 3;
}

busy_regions : busy.regions ≡ parent ∷ []
unfolding busy program
busy_regions = refl

busy_found : lookup_region busy.regions 0x20000 0x10000 ≡ some parent
unfolding busy program
busy_found = refl

busy_start : lookup_region busy.regions 0x20000 0 ≡ some parent
unfolding busy program
busy_start = refl

busy_granularity : busy.granularity ≡ 0x10000
unfolding busy program
busy_granularity = refl

whole : is_page_range 0x20000 0x10000 ≡ true
unfolding program
whole = refl

commit_inside_example :
    Commits busy 0x20000 0x10000 page_execute_read mem_private
      (commit 0x20000 0x10000 page_execute_read busy)
commit_inside_example =
    commit_inside busy 0x20000 0x10000 page_execute_read parent busy-IsValid busy_found whole

history-IsValid_example : IsValid (perform_all new_manager requests)
history-IsValid_example = history-IsValid requests

no_region : commit_error busy 0x60000 0x1000 ≡ some key_error
unfolding busy program
no_region = refl

decommit_inside_example : Decommits busy 0x20000 0x10000 (decommit 0x20000 0x10000 busy)
decommit_inside_example = decommit_inside busy 0x20000 0x10000 parent busy-IsValid busy_found whole

two_pages : all_committed busy.committed (pages 0x20000 0x2000) ≡ true
unfolding busy program
two_pages = refl

two_pages_found : lookup_region busy.regions 0x20000 0x2000 ≡ some parent
unfolding busy program
two_pages_found = refl

two_pages_whole : is_page_range 0x20000 0x2000 ≡ true
unfolding program
two_pages_whole = refl

protect_inside_example :
    Protects busy 0x20000 0x2000 page_execute_read (protect 0x20000 0x2000 page_execute_read busy)
protect_inside_example =
    protect_inside busy 0x20000 0x2000 page_execute_read parent busy-IsValid two_pages_found
      two_pages_whole (pages_present busy.committed 0x20000 0x2000 two_pages)

not_committed : protect_error busy 0x20000 0x5000 ≡ some key_error
unfolding busy program
not_committed = refl

reserve_exact_example : reserve 0x40000 0x20000 page_readwrite mem_private none busy ≡ (
    if may_reserve busy.granularity 0x40000 0x20000
    then (if blocked 0x40000 0x20000 busy then (raise key_error, busy) else (
      ok (new_region 0x40000 0x20000 page_readwrite mem_private none),
      with_region (new_region 0x40000 0x20000 page_readwrite mem_private none) busy,
    ))
    else (raise assertion_error, busy))
reserve_exact_example =
    reserve_exact busy 0x40000 0x20000 page_readwrite mem_private none busy-IsValid

middle_aligned : align_allocation busy.granularity 0x30000 ≡ 0x30000
unfolding busy program
middle_aligned = refl

middle_size_aligned : align_allocation busy.granularity 0x10000 ≡ 0x10000
unfolding busy program
middle_size_aligned = refl

middle_found : lookup_region busy.regions (containing_page 0x30000) 0 ≡ some parent
unfolding busy program
middle_found = refl

release_inside_example : Releases busy 0x30000 0x10000 (release 0x30000 0x10000 busy)
release_inside_example =
    release_inside busy 0x30000 0x10000 parent busy-IsValid middle_aligned middle_size_aligned
      middle_found (omega arith) refl

past_the_end : release_error busy 0x40000 0x20000 ≡ some key_error
unfolding busy program
past_the_end = refl

release_errors_example : release 0x40000 0x20000 busy ≡ (raise key_error, busy)
release_errors_example = release_errors busy 0x40000 0x20000 key_error busy-IsValid past_the_end

find_region-lookup_region_example :
    find_region busy.regions 0x24000 0x1000 ≡ lookup_region busy.regions 0x24000 0x1000
find_region-lookup_region_example =
    find_region-lookup_region busy.granularity busy.maximum busy.regions busy.minimum 0x24000 0x1000
      busy-IsValid.layout

-- The runs that `decommit` releases: one call for two pages, and one for the third.
decommit_calls :
    (decommit 0x20000 0x10000 busy).1.calls
    ≡ Call.decommit 0x24000 0x1000 ∷ Call.decommit 0x20000 0x2000 ∷ busy.calls
unfolding busy program
decommit_calls = refl

-- After the middle of the region is released, its two ends are regions of their own.
release_parts :
    map {B = ℕ × ℕ × ℕ}
      (λ (r : MemoryRegion). (r.start, r.size, r.commit_count))
      (release 0x30000 0x10000 busy).1.regions
    ≡ (0x20000, 0x10000, 3) ∷ (0x40000, 0x10000, 0) ∷ []
unfolding busy program
release_parts = refl
