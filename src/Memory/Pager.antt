-- ===== src/Memory/Pager.antt =====
-- memory.py: the interface `PageManager`, as the manager sees it: a sequence of calls. The contract is
-- that of `MockPageManager` in memory_test.py, made strict: a page is mapped once, and only
-- a mapped page is unmapped or protected. `LazyPageManager` asserts the same.
use dumpulator.Prelude.{
  ℕ, zero, suc, ◌+◌, ◌≡◌, Option, none, some, List, [], ◌∷◌, is_some, if◌then◌else◌,
}
use dumpulator.Prelude.Dict.{Dict, empty, put, erase}
use dumpulator.Memory.Protect.{page_size, MemoryProtect}
use dumpulator.Memory.Region.{page_count, post_init}

-- The methods that change a page manager's state.
pub data Call : Type 0 where
  commit : (addr size : ℕ) (prot : MemoryProtect) → Call
  decommit : (addr size : ℕ) → Call
  protect : (addr size : ℕ) (prot : MemoryProtect) → Call

abbrev pub Table : Type 0
Table = Dict MemoryProtect

unfoldable pub map_pages : (addr count : ℕ) → MemoryProtect → Table → Option Table
map_pages addr zero prot t = some t
map_pages addr (suc n) prot t =
    let rest = map_pages (addr + page_size) n prot (put addr prot t) in
    if is_some (t addr) then none else rest

unfoldable pub unmap_pages : (addr count : ℕ) → Table → Option Table
unmap_pages addr zero t = some t
unmap_pages addr (suc n) t =
    let rest = unmap_pages (addr + page_size) n (erase addr t) in
    if is_some (t addr) then rest else none

unfoldable pub protect_pages : (addr count : ℕ) → MemoryProtect → Table → Option Table
protect_pages addr zero prot t = some t
protect_pages addr (suc n) prot t =
    let rest = protect_pages (addr + page_size) n prot (put addr prot t) in
    if is_some (t addr) then rest else none

-- A call on whole pages; `none` is a broken contract.
unfoldable pub accept : Call → Table → Option Table
unfolding map_pages unmap_pages protect_pages
accept (Call.commit addr size prot) t =
    if post_init addr size then map_pages addr (page_count size) prot t else none
accept (Call.decommit addr size) t =
    if post_init addr size then unmap_pages addr (page_count size) t else none
accept (Call.protect addr size prot) t =
    if post_init addr size then protect_pages addr (page_count size) prot t else none

accept_next : Call → Option Table → Option Table
unfolding accept
accept_next call none = none
accept_next call (some t) = accept call t

-- The pages that a new page manager has mapped after the calls, the newest call first.
unfoldable pub replay : List Call → Option Table
unfolding accept_next
replay [] = some empty
replay (call ∷ calls) = accept_next call (replay calls)

pub replay-cons :
    (call : Call) (calls : List Call) (t : Table)
    → replay calls ≡ some t
    → replay (call ∷ calls) ≡ accept call t
unfolding replay
replay-cons call calls t e = rw e
