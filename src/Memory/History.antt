-- ===== src/Memory/History.antt =====
-- The manager under any sequence of requests, from `MemoryManager(page_manager)` on.
use dumpulator.Prelude.{ℕ, refl, Option, none, List, [], ◌∷◌, arith}
use dumpulator.Memory.Protect.{MemoryProtect, MemoryType}
use dumpulator.Memory.Region.{Info}
use dumpulator.Memory.Manager.{MemoryManager, new_manager, reserve}
use dumpulator.Memory.Pager.{replay}
use dumpulator.Memory.Layout.{lookup_region}
use dumpulator.Memory.Commit.{commit, decommit, protect}
use dumpulator.Memory.Release.{release}
use dumpulator.Memory.RegionInfo.{set_region_info, set_region_info-IsValid}
use dumpulator.Memory.Valid.{IsValid}
use dumpulator.Memory.Reserving.{reserve-IsValid}
use dumpulator.Memory.Committing.{commit-IsValid}
use dumpulator.Memory.Decommitting.{decommit-IsValid}
use dumpulator.Memory.Protecting.{protect-IsValid}
use dumpulator.Memory.Releasing.{release-IsValid}

-- A call of one of the methods that change the manager.
pub data Request : Type 0 where
  reserve_region : (start size : ℕ) → MemoryProtect → MemoryType → Option Info → Request
  release_region : (start size : ℕ) → Request
  commit_pages : (start size : ℕ) → MemoryProtect → Request
  decommit_pages : (start size : ℕ) → Request
  protect_pages : (start size : ℕ) → MemoryProtect → Request
  set_info : (addr size : ℕ) → Info → Request

-- The state after the call, whether it returned or raised.
unfoldable pub perform : MemoryManager → Request → MemoryManager
perform m (reserve_region start size prot type info) = (reserve start size prot type info m).1
perform m (release_region start size) = (release start size m).1
perform m (commit_pages start size prot) = (commit start size prot m).1
perform m (decommit_pages start size) = (decommit start size m).1
perform m (protect_pages start size prot) = (protect start size prot m).1
perform m (set_info addr size info) = (set_region_info addr size info m).1

unfoldable pub perform_all : MemoryManager → List Request → MemoryManager
unfolding perform
perform_all m [] = m
perform_all m (q ∷ qs) = perform_all (perform m q) qs

pub new_manager-IsValid : IsValid new_manager
unfolding replay lookup_region
new_manager-IsValid = record {
  layout = omega arith;
  counts = tt;
  homed = λ q. tt;
  synced = record { mapped = λ q. none; replayed = refl; agrees = λ q. refl };
}

perform-IsValid : (m : MemoryManager) (q : Request) → IsValid m → IsValid (perform m q)
unfolding perform
perform-IsValid m (reserve_region start size prot type info) v =
    reserve-IsValid m v start size prot type info
perform-IsValid m (release_region start size) v = release-IsValid m start size v
perform-IsValid m (commit_pages start size prot) v = commit-IsValid m start size prot v
perform-IsValid m (decommit_pages start size) v = decommit-IsValid m start size v
perform-IsValid m (protect_pages start size prot) v = protect-IsValid m start size prot v
perform-IsValid m (set_info addr size info) v = set_region_info-IsValid m v addr size info

perform_all-IsValid :
    (qs : List Request) (m : MemoryManager) → IsValid m → IsValid (perform_all m qs)
unfolding perform_all
perform_all-IsValid [] m v = v
perform_all-IsValid (q ∷ qs) m v = perform_all-IsValid qs (perform m q) (perform-IsValid m q v)

-- After any sequence of calls of `reserve`, `release`, `commit`, `decommit`, `protect` and
-- `set_region_info` on a new manager, those that raise included: the regions are ordered, do not
-- overlap, are not empty, are made of whole pages, start at multiples of the allocation granularity
-- and lie within the bounds; `commit_count` of each is the number of its committed pages; every
-- committed page lies in a region and has its type; and a page manager that got the recorded calls has
-- broken no contract and has mapped exactly the committed pages, with their protections.
pub history-IsValid : (qs : List Request) → IsValid (perform_all new_manager qs)
history-IsValid qs = perform_all-IsValid qs new_manager new_manager-IsValid
