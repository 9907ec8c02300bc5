-- ===== src/Memory/QueryExamples.antt =====
-- `query`, `map` and `find_free` on the inputs of memory_test.py, and the theorems about them.
use dumpulator.Prelude.{ℕ, suc, ◌*◌, ◌<◌, ◌≡◌, refl, Option, none, some, List, [], ◌∷◌, arith}
use dumpulator.Prelude.Int.{pos}
use dumpulator.Outcome.{ok}
use dumpulator.Memory.Protect.{
  page_size, page_noaccess, page_readwrite, undefined, mem_private, mem_commit, mem_reserve,
}
use dumpulator.Memory.Region.{MemoryRegion, end}
use dumpulator.Memory.Manager.{Page, MemoryManager, new_manager}
use dumpulator.Memory.Layout.{lookup_region}
use dumpulator.Memory.Valid.{IsValid}
use dumpulator.Memory.History.{Request, reserve_region, perform_all, history-IsValid}
use dumpulator.Memory.Query.{
  MemoryBasicInformation, query, query_page, query_pages, query_free, query_reserved,
  query_committed, next_start, pages_from, reserved_span, committed_span, matches, add_info,
  infos_from, first_info, map, map_from, find_free, find_from, after, has_room,
}
use dumpulator.Memory.Spans.{IsSpan, is_reserved}
use dumpulator.Memory.Querying.{Reports, query_committed_lem, query_reserved_lem}
use dumpulator.Memory.Gaps.{ReportsGap, query_gap}
use dumpulator.Memory.Finding.{Reserves, find_free-reserve}
use dumpulator.Memory.Mapping.{Tiles, map-Tiles}
use dumpulator.Memory.Examples.{program, busy, busy-IsValid, parent}

-- What a test has to see through.
queries : Unit {0}
unfolding query query_page query_pages query_free query_reserved query_committed next_start
    pages_from reserved_span committed_span add_info infos_from first_info map map_from find_free
    find_from after has_room
queries = tt

abbrev private_page : Page
private_page = record { protect = page_readwrite; type = mem_private; info = none }

queried :
    query busy 0x20000
    ≡ ok (
        some (record {
          base = 0x20000;
          allocation_base = 0x20000;
          allocation_protect = page_noaccess;
          region_size = pos 0x2000;
          state = mem_commit;
          protect = page_readwrite;
          type = mem_private;
          info = [];
        }))
unfolding busy program queries
queried = refl

found_free : find_free busy 0x5000 ≡ ok (some 0x10000)
unfolding busy program queries
found_free = refl

found_above : find_free busy 0x20000 ≡ ok (some 0x50000)
unfolding busy program queries
found_above = refl

committed_here : busy.committed 0x21000 ≡ some private_page
unfolding busy program
committed_here = refl

unused_here : busy.committed 0x22000 ≡ none
unfolding busy program
unused_here = refl

region_here : lookup_region busy.regions 0x21000 0 ≡ some parent
unfolding busy program
region_here = refl

region_there : lookup_region busy.regions 0x22000 0 ≡ some parent
unfolding busy program
region_there = refl

gap_here : lookup_region busy.regions 0x51000 0 ≡ none
unfolding busy program
gap_here = refl

below_maximum : 0x51000 < busy.maximum
unfolding busy program
below_maximum = omega arith

query_committed_lem_example :
    (info : MemoryBasicInformation) × ((n : ℕ) × ((query busy 0x21234 ≡ ok (some info))
        × Reports parent 0x21000 mem_commit page_readwrite info
        × (info.region_size ≡ pos (suc n * page_size))
        × IsSpan
            (λ q. matches page_readwrite mem_private (busy.committed q))
            0x21000
            (suc n)
            (end parent)))
query_committed_lem_example =
    query_committed_lem busy 0x21234 parent busy-IsValid region_here private_page committed_here

query_reserved_lem_example :
    (info : MemoryBasicInformation) × ((n : ℕ) × ((query busy 0x22fff ≡ ok (some info))
        × Reports parent 0x22000 mem_reserve undefined info
        × (info.region_size ≡ pos (suc n * page_size))
        × IsSpan (is_reserved busy.committed) 0x22000 (suc n) (end parent)))
query_reserved_lem_example =
    query_reserved_lem busy 0x22fff parent busy-IsValid region_there unused_here (omega arith)

query_gap_example :
    (info : MemoryBasicInformation) × ((n : ℕ) × ((query busy 0x51800 ≡ ok (some info))
        × ReportsGap busy 0x51000 n info))
query_gap_example = query_gap busy busy-IsValid 0x51800 below_maximum gap_here

abbrev one_region : List Request
one_region = reserve_region 0x20000 0x10000 page_readwrite mem_private none ∷ []

empty : MemoryManager
empty = perform_all new_manager one_region

empty-IsValid : IsValid empty
unfolding empty
empty-IsValid = history-IsValid one_region

abbrev empty_parent : MemoryRegion
empty_parent = record {
  start = 0x20000;
  size = 0x10000;
  protect = page_readwrite;
  type = mem_private;
  info = none;
  commit_count = 0;
}

empty_found : lookup_region empty.regions 0x22000 0 ≡ some empty_parent
unfolding empty program
empty_found = refl

empty_unused : empty.committed 0x22000 ≡ none
unfolding empty program
empty_unused = refl

granular : busy.granularity ≡ 0x10000
unfolding busy program
granular = refl

minimum_page : busy.minimum ≡ 0x10000
unfolding busy program
minimum_page = refl

find_free-reserve_example :
    (found : Option ℕ) × ((find_free busy 0x5000 ≡ ok found)
      × Reserves busy 0x5000 page_readwrite mem_private none found)
find_free-reserve_example =
    find_free-reserve busy 0x5000 page_readwrite mem_private none busy-IsValid granular
      (omega (arith, minimum_page)) (omega arith) refl

map-Tiles_example :
    (spans : List MemoryBasicInformation) × ((map busy ≡ ok spans) × Tiles busy busy.minimum spans)
map-Tiles_example = map-Tiles busy busy-IsValid (omega (arith, minimum_page))
