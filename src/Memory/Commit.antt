-- ===== src/Memory/Commit.antt =====
-- memory.py: `commit`, `decommit`, `_decommit_region` and `protect`.
-- The loops over pages work on a `Ledger`: the part of the manager that they change, with the
-- `commit_count` of the parent region.
use dumpulator.Prelude.{
  ℕ, zero, suc, ◌+◌, ◌-◌, ◌*◌, Bool, true, not, ◌&&◌, Option, none, some, List, [], ◌∷◌, ltb, ◌==◌,
  if◌then◌else◌, is_some,
}
use dumpulator.Prelude.Dict.{Dict, put, erase}
use dumpulator.Outcome.{
  key_error, type_error, Result, ok, raise, Action, pure, reads, modify, assert, ◌>>=◌, ◌>>◌,
  assertion_error,
}
use dumpulator.Memory.Protect.{page_size, MemoryProtect, MemoryType, undefined}
use dumpulator.Memory.Region.{MemoryRegion, post_init, contains, pages, align_page, containing_page}
use dumpulator.Memory.Pager.{Call}
use dumpulator.Memory.Manager.{Page, MemoryManager, find_region}

pub record Ledger : Type 0 where
  pub calls : List Call
  pub committed : Dict Page
  pub commit_count : ℕ

-- `MemoryRegion(page, PAGE_SIZE, protect, type)`
abbrev pub new_page : MemoryProtect → MemoryType → Page
new_page prot type = record { protect = prot; type = type; info = none }

-- the loop of `commit` in a region with no committed page
unfoldable pub commit_all : MemoryProtect → MemoryType → List ℕ → Ledger → Ledger
commit_all prot type [] l = l
commit_all prot type (page ∷ ps) l = commit_all prot type ps (record l {
  committed = put page (new_page prot type) l.committed;
  commit_count = l.commit_count + 1;
})

-- the body of the loop of `commit` in a region with committed pages
unfoldable pub commit_page : MemoryProtect → MemoryType → ℕ → Ledger → Ledger
commit_page prot type page l = elim (l.committed page) [
  | some page_region ↦ if page_region.protect == prot then l else record l {
    calls = Call.protect page page_size prot ∷ l.calls;
    committed = put page (record page_region { protect = prot }) l.committed;
  }
  | none ↦ record {
    calls = Call.commit page page_size prot ∷ l.calls;
    committed = put page (new_page prot type) l.committed;
    commit_count = l.commit_count + 1;
  }
]

unfoldable pub commit_each : MemoryProtect → MemoryType → List ℕ → Ledger → Ledger
unfolding commit_page
commit_each prot type [] l = l
commit_each prot type (page ∷ ps) l = commit_each prot type ps (commit_page prot type page l)

-- `for i in range(release_count)`: deletes one page of the run after the other
unfoldable pub delete_run : (page count : ℕ) → Ledger → Result Ledger
delete_run page zero l = ok l
delete_run page (suc count) l = elim (l.committed page) [
  | none ↦ raise key_error
  | some _ ↦
      delete_run (page + page_size) count
        (record l { committed = erase page l.committed; commit_count = l.commit_count - 1 })
]

-- One call for the whole run, then the deletions. A run with a count has a start.
unfoldable pub flush : (release_start : Option ℕ) (release_count : ℕ) → Ledger → Result Ledger
unfolding delete_run
flush none count l = raise type_error
flush (some page) count l =
    delete_run page count (record l { calls = Call.decommit page (count * page_size) ∷ l.calls })

-- `release_start = page` if it is `None`
abbrev pub run_start : Option ℕ → ℕ → Option ℕ
run_start none page = some page
run_start (some start) page = some start

unfoldable pub and_next : Result Ledger → (Ledger → Result Ledger) → Result Ledger
and_next (ok l) f = f l
and_next (raise e) f = raise e

-- The loop of `_decommit_region`: runs of committed pages are released by one call each.
unfoldable pub decommit_loop :
    List ℕ → (release_start : Option ℕ) (release_count : ℕ) → Ledger → Result Ledger
unfolding flush and_next
decommit_loop [] start zero l = ok l
decommit_loop [] start (suc count) l = flush start (suc count) l
decommit_loop (page ∷ ps) start zero l =
    let longer = decommit_loop ps (run_start start page) 1 l in
    let skip = decommit_loop ps start 0 l in if is_some (l.committed page) then longer else skip
decommit_loop (page ∷ ps) start (suc count) l =
    let longer = decommit_loop ps (run_start start page) (count + 2) l in
    let rest = and_next (flush start (suc count) l) (decommit_loop ps none 0) in
    if is_some (l.committed page) then longer else rest

-- `_committed[page]` of every page, or `KeyError`
unfoldable pub all_committed : Dict Page → List ℕ → Bool
all_committed c [] = true
all_committed c (page ∷ ps) = is_some (c page) && all_committed c ps

unfoldable pub none_committed : Dict Page → List ℕ → Bool
none_committed c [] = true
none_committed c (page ∷ ps) = not (is_some (c page)) && none_committed c ps

unfoldable pub protect_page : MemoryProtect → Option Page → Option Page
protect_page prot none = none
protect_page prot (some p) = some (record p { protect = prot })

-- the loop of `protect`
unfoldable pub protect_all : MemoryProtect → List ℕ → Dict Page → Dict Page
unfolding protect_page
protect_all prot [] c = c
protect_all prot (page ∷ ps) c =
    protect_all prot ps (λ q. if page == q then protect_page prot (c q) else c q)

-- The parent region is an object in `_regions`, found by its start, which no other region has.
unfoldable pub set_count : (start count : ℕ) → List MemoryRegion → List MemoryRegion
set_count start count [] = []
set_count start count (r ∷ rs) =
    if r.start == start
    then record r { commit_count = count } ∷ rs
    else r ∷ set_count start count rs

abbrev pub open_ledger : MemoryManager → MemoryRegion → Ledger
open_ledger m parent = record {
  calls = m.calls;
  committed = m.committed;
  commit_count = parent.commit_count;
}

unfoldable pub close_ledger : (parent : ℕ) → Ledger → MemoryManager → MemoryManager
unfolding set_count
close_ledger parent l m = record m {
  calls = l.calls;
  committed = l.committed;
  regions = set_count parent l.commit_count m.regions;
}

-- `find_region(MemoryRegion(start, size))`, or `KeyError`
unfoldable pub find_parent : (start size : ℕ) → MemoryManager → Result MemoryRegion
find_parent start size m = elim (find_region m.regions start size) [
  | none ↦ raise key_error
  | some parent ↦ ok parent
]

-- the assertions at the head of `commit`, `decommit` and `protect`
unfoldable pub is_page_range : (start size : ℕ) → Bool
is_page_range start size =
    (ltb 0 size && align_page size == size)
    && (containing_page start == start)
    && post_init start size

unfoldable pub commit_ledger :
    (start size : ℕ) → MemoryProtect → MemoryRegion → Ledger → Result Ledger
commit_ledger start size prot parent l =
    if parent.commit_count == 0
    then if none_committed l.committed (pages start size)
      then ok (
          commit_all prot parent.type (pages start size)
            (record l { calls = Call.commit start size prot ∷ l.calls }))
      else raise assertion_error
    else ok (commit_each prot parent.type (pages start size) l)

unfoldable pub commit : (start size : ℕ) → MemoryProtect → Action MemoryManager (Unit {0})
commit start size prot = do
  assert (is_page_range start size)
  parent ← reads (find_parent start size)
  let prot' = if prot == undefined then parent.protect else prot
  l ← reads (λ m. commit_ledger start size prot' parent (open_ledger m parent))
  modify (close_ledger parent.start l)

-- The result is the parent region as the call leaves it. An exception in the loop would leave the
-- ledger of that moment; `_decommit_region` raises none.
unfoldable pub decommit_region : MemoryRegion → (start size : ℕ) → Action MemoryManager MemoryRegion
decommit_region parent start size = do
  assert (contains parent start size)
  l ← reads (λ m. decommit_loop (pages start size) none 0 (open_ledger m parent))
  modify (close_ledger parent.start l)
  pure (record parent { commit_count = l.commit_count })

unfoldable pub decommit : (start size : ℕ) → Action MemoryManager (Unit {0})
decommit start size = do
  assert (is_page_range start size)
  parent ← reads (find_parent start size)
  decommit_region parent start size
  pure tt

-- `self._committed[region.start].protect`
unfoldable pub protection_at : ℕ → MemoryManager → Result MemoryProtect
protection_at page m = elim (m.committed page) [ none ↦ raise key_error | some p ↦ ok p.protect ]

unfoldable pub protect : (start size : ℕ) → MemoryProtect → Action MemoryManager MemoryProtect
protect start size prot = do
  assert (is_page_range start size)
  reads (find_parent start size)
  reads (λ m. if all_committed m.committed (pages start size) then ok tt else raise key_error)
  old_protect ← reads (protection_at start)
  modify (λ m. record m {
    calls = Call.protect start size prot ∷ m.calls;
    committed = protect_all prot (pages start size) m.committed;
  })
  pure old_protect
