-- ===== src/Emulator/Examples.antt =====
-- A block of a new region.
use dumpulator.Prelude.{true, refl, ◌≡◌, ◌%◌, inl, arith}
use dumpulator.Memory.Region.{contains, pages}
use dumpulator.Memory.Bisect.{bisect_right}
use dumpulator.Memory.Manager.{new_manager, find_region, reserve, neighbours_overlap}
use dumpulator.Memory.Commit.{commit, is_page_range, find_parent, commit_ledger, none_committed}
use dumpulator.Memory.Query.{find_free, query}
use dumpulator.Memory.Protect.{page_size}
use dumpulator.Memory.History.{new_manager-IsValid}
use dumpulator.Native.Rounding.{round_to_pages}
use dumpulator.Emulator.Allocate.{Allocator, allocate}
use dumpulator.Emulator.Allocated.{HandsOut, allocate-HandsOut}

abbrev fresh : Allocator
fresh = record {
  memory = new_manager;
  allocate_base = 0;
  allocate_size = 0x20000;
  allocate_ptr = 0;
}

abbrev after : Allocator
after = (allocate 0x1800 true fresh).1

allocate-HandsOut_example :
    HandsOut (round_to_pages 0x1800) 0x10000 fresh after × (0x10000 % page_size ≡ 0)
unfolding allocate find_free query find_region bisect_right reserve neighbours_overlap commit
    is_page_range find_parent contains commit_ledger none_committed pages round_to_pages
allocate-HandsOut_example =
    allocate-HandsOut 0x1800 0x10000 true fresh after new_manager-IsValid (inl refl)
      (λ q paged low high. absurd (omega (arith, high))) (omega arith) refl
