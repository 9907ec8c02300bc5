-- ===== src/Syscalls/Examples.antt =====
-- `ZwFreeVirtualMemory` in a process whose memory holds 0x20000 wherever it is read.
use dumpulator.Prelude.{true, false, ◌≡◌, refl, none, some, List, [], ◌∷◌, take}
use dumpulator.Outcome.{ok, raise, not_implemented}
use dumpulator.Memory.Protect.{mem_private, page_noaccess, page_readwrite}
use dumpulator.Memory.Region.{MemoryRegion, contains, overlaps, pages, align_allocation}
use dumpulator.Memory.Bisect.{bisect_right}
use dumpulator.Memory.Manager.{
  MemoryManager, new_manager, find_region, find_commit, neighbours_overlap, reserve,
}
use dumpulator.Memory.Layout.{lookup_region, any_overlap}
use dumpulator.Memory.Count.{in_range}
use dumpulator.Memory.Commit.{
  commit_ledger, commit_all, commit_each, none_committed, all_committed, decommit_loop,
  close_ledger, find_parent, is_page_range, protection_at, protect_all, commit, decommit,
  decommit_region, protect,
}
use dumpulator.Memory.Release.{release, split_parent}
use dumpulator.Memory.RegionInfo.{set_region_info}
use dumpulator.Memory.Valid.{IsValid}
use dumpulator.Memory.History.{Request, reserve_region, commit_pages, perform_all, history-IsValid}
use dumpulator.Primitives.Architecture.{MemoryAccess}
use dumpulator.Primitives.Architecture
use dumpulator.Primitives.Control.{unpack}
use dumpulator.Syscalls.Process.{Process, read_ptr}
use dumpulator.Syscalls.Virtual.{zw_free_virtual_memory}
use dumpulator.Syscalls.Freeing.{Frees, zw_free_virtual_memory-Frees}

-- What a test has to see through.
unfoldable program : Unit {0}
unfolding contains overlaps pages bisect_right find_region find_commit neighbours_overlap reserve
    commit_ledger commit_all commit_each none_committed all_committed decommit_loop close_ledger
    find_parent is_page_range protection_at protect_all commit decommit decommit_region protect
    release split_parent set_region_info perform_all lookup_region any_overlap in_range
program = tt

abbrev guest : MemoryAccess
guest = record {
  State = Unit {0};
  read = λ addr size s. (ok (take size (0 ∷ 0 ∷ 2 ∷ 0 ∷ 0 ∷ 0 ∷ 0 ∷ 0 ∷ [])), s);
  write = λ addr bytes s. (ok tt, s);
}

abbrev requests : List Request
requests =
    reserve_region 0x20000 0x40000 page_noaccess mem_private none
    ∷ commit_pages 0x20000 0x2000 page_readwrite
    ∷ []

manager : MemoryManager
manager = perform_all new_manager requests

manager-IsValid : IsValid manager
unfolding manager
manager-IsValid = history-IsValid requests

abbrev process : Process guest
process = record { manager = manager; memory = tt; x64 = true }

abbrev parent : MemoryRegion
parent = record {
  start = 0x20000;
  size = 0x40000;
  protect = page_noaccess;
  type = mem_private;
  info = none;
  commit_count = 2;
}

found : lookup_region manager.regions 0x20000 0x20000 ≡ some parent
unfolding manager program
found = refl

aligned : align_allocation manager.granularity 0x20000 ≡ 0x20000
unfolding manager program
aligned = refl

whole : is_page_range 0x20000 0x20000 ≡ true
unfolding is_page_range
whole = refl

zw_free_virtual_memory-Frees_example :
    Frees guest true 0x20000 0x20000 process
      (zw_free_virtual_memory guest 0xFFFFFFFFFFFFFFFF 0x100 0x200 0x8000 process)
    × Frees guest false 0x20000 0x20000 process
        (zw_free_virtual_memory guest 0xFFFFFFFFFFFFFFFF 0x100 0x200 0x4000 process)
    × (zw_free_virtual_memory guest 0xFFFFFFFFFFFFFFFF 0x100 0x200 0xC000 process
        ≡ (raise not_implemented, process))
unfolding read_ptr Architecture.read_ptr unpack
zw_free_virtual_memory-Frees_example =
    zw_free_virtual_memory-Frees guest 0xFFFFFFFFFFFFFFFF 0x100 0x200 0x20000 0x20000 0xC000 parent
      process process process refl refl manager-IsValid found whole aligned aligned refl
