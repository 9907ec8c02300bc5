-- ===== src/Memory/Query.antt =====
-- memory.py: `query`, `map` and `find_free`, which only read the manager.
use dumpulator.Prelude.{
  ℕ, zero, suc, ◌+◌, ◌-◌, Bool, true, false, ◌&&◌, Option, none, some, List, [], ◌∷◌, ◌++◌, ltb,
  leb, ◌==◌, if◌then◌else◌, is_some, get_elem?,
}
use dumpulator.Prelude.Int.{ℤ, pos, sub_ℕ}
use dumpulator.Prelude.Dict.{Dict}
use dumpulator.Outcome.{assertion_error, type_error, out_of_fuel, Result, ok, raise}
use dumpulator.Memory.Protect.{
  page_size, MemoryProtect, undefined, MemoryType, no_type, mem_image, mem_mapped, mem_private,
  MemoryState, mem_commit, mem_reserve, mem_free,
}
use dumpulator.Memory.Region.{
  Info, module_at, label, MemoryRegion, pages, align_page, align_allocation, containing_page,
}
use dumpulator.Memory.Bisect.{bisect_right}
use dumpulator.Memory.Manager.{Page, MemoryManager, find_region}

pub record MemoryBasicInformation : Type 0 where
  pub base : ℕ
  pub allocation_base : ℕ
  pub allocation_protect : MemoryProtect
  pub region_size : ℤ
  pub state : MemoryState
  pub protect : MemoryProtect
  pub type : MemoryType
  pub info : List Info

abbrev pub same_type : MemoryType → MemoryType → Bool
same_type no_type no_type = true
same_type mem_image mem_image = true
same_type mem_mapped mem_mapped = true
same_type mem_private mem_private = true
same_type _ _ = false

abbrev pub same_info : Info → Info → Bool
same_info (module_at a) (module_at b) = a == b
same_info (label a) (label b) = a == b
same_info _ _ = false

-- An item of `result_info`: an object and the start of the first region that has it.
pub record InfoAt : Type 0 where
  pub info : Info
  pub start : ℕ

unfoldable pub has_info : Info → List InfoAt → Bool
has_info i [] = false
has_info i (x ∷ xs) = let rest = has_info i xs in if same_info x.info i then true else rest

-- `add_info`
unfoldable pub add_info : Option Info → (start : ℕ) → List InfoAt → List InfoAt
unfolding has_info
add_info none start seen = seen
add_info (some i) start seen =
    if has_info i seen then seen else seen ++ record { info = i; start = start } ∷ []

unfoldable pub infos_from : ℕ → List InfoAt → List Info
infos_from base [] = []
infos_from base (x ∷ xs) =
    let rest = infos_from base xs in if leb base x.start then x.info ∷ rest else rest

-- `list(result_info.keys())[:1]` if no item is at the base or above it
unfoldable pub first_info : List Info → List InfoAt → List Info
first_info [] (x ∷ xs) = x.info ∷ []
first_info infos seen = infos

-- `if page < start: continue`
unfoldable pub pages_from : (start : ℕ) → List ℕ → List ℕ
pages_from start [] = []
pages_from start (page ∷ ps) =
    let rest = pages_from start ps in if ltb page start then rest else page ∷ ps

-- The rest of the loop behind a page that is reserved: the size of the span.
unfoldable pub reserved_span : Dict Page → List ℕ → (size : ℕ) → ℕ
reserved_span c [] size = size
reserved_span c (page ∷ ps) size =
    let more = reserved_span c ps (size + page_size) in if is_some (c page) then size else more

unfoldable pub matches : MemoryProtect → MemoryType → Option Page → Bool
matches prot type none = false
matches prot type (some p) = same_type p.type type && p.protect == prot

abbrev pub info_of : Option Page → Option Info
info_of none = none
info_of (some p) = p.info

-- The rest of the loop behind a page that is committed.
unfoldable pub committed_span :
    MemoryProtect → MemoryType → Dict Page → List ℕ → (size : ℕ) → List InfoAt → ℕ × List InfoAt
unfolding matches add_info
committed_span prot type c [] size seen = (size, seen)
committed_span prot type c (page ∷ ps) size seen =
    let more =
      committed_span prot type c ps (size + page_size) (add_info (info_of (c page)) page seen) in
    if matches prot type (c page) then more else (size, seen)

abbrev pub start_or : (maximum : ℕ) → Option MemoryRegion → ℕ
start_or maximum none = maximum
start_or maximum (some r) = r.start

-- `next_start`: the start of the next region, or the maximum
unfoldable pub next_start : MemoryManager → (start : ℕ) → ℕ
next_start m start = start_or m.maximum (get_elem? m.regions (bisect_right m.regions start))

-- No region contains the page: free from the page on.
unfoldable pub query_free : MemoryManager → (start : ℕ) → MemoryBasicInformation
unfolding next_start
query_free m start = record {
  base = start;
  allocation_base = 0;
  allocation_protect = undefined;
  region_size = sub_ℕ (next_start m start) start;
  state = mem_free;
  protect = undefined;
  type = no_type;
  info = [];
}

unfoldable pub query_reserved :
    MemoryManager → MemoryRegion → (page : ℕ) → List ℕ → MemoryBasicInformation
unfolding add_info infos_from first_info reserved_span
query_reserved m parent page rest =
    let seen = add_info parent.info parent.start [] in
    record {
      base = page;
      allocation_base = parent.start;
      allocation_protect = parent.protect;
      region_size =
          if parent.commit_count == 0
          then pos parent.size
          else pos (reserved_span m.committed rest page_size);
      state = mem_reserve;
      protect = undefined;
      type = parent.type;
      info = first_info (infos_from page seen) seen;
    }

unfoldable pub query_committed :
    MemoryManager → MemoryRegion → Page → (page : ℕ) → List ℕ → MemoryBasicInformation
unfolding add_info infos_from first_info committed_span
query_committed m parent p page rest =
    let seen = add_info p.info page (add_info parent.info parent.start []) in
    let (size, seen') = committed_span p.protect p.type m.committed rest page_size seen in
    record {
      base = page;
      allocation_base = parent.start;
      allocation_protect = parent.protect;
      region_size = pos size;
      state = mem_commit;
      protect = p.protect;
      type = p.type;
      info = first_info (infos_from page seen') seen';
    }

-- The first round of the loop that does not `continue`, and the rounds after it.
unfoldable pub query_pages :
    MemoryManager → MemoryRegion → List ℕ → Result (Option MemoryBasicInformation)
unfolding query_reserved query_committed
query_pages m parent [] = ok none
query_pages m parent (page ∷ rest) = elim (m.committed page) [
  | none ↦ ok (some (query_reserved m parent page rest))
  | some p ↦
      if same_type p.type parent.type
      then ok (some (query_committed m parent p page rest))
      else raise assertion_error
]

unfoldable pub query_page :
    MemoryManager → (start : ℕ) → Option MemoryRegion → Result (Option MemoryBasicInformation)
unfolding query_free query_pages pages_from
query_page m start none = ok (some (query_free m start))
query_page m start (some parent) =
    query_pages m parent (pages_from start (pages parent.start parent.size))

unfoldable pub query : MemoryManager → (addr : ℕ) → Result (Option MemoryBasicInformation)
unfolding query_page
query m addr =
    let start = containing_page addr in query_page m start (find_region m.regions start 0)

-- `addr + info.region_size`
unfoldable pub after : ℕ → ℤ → ℕ
after addr (pos n) = addr + n
after addr (ℤ.negsuc n) = addr - suc n

abbrev pub map_step :
    (ℕ → Result (List MemoryBasicInformation))
    → (addr : ℕ) → Result (Option MemoryBasicInformation)
    → Result (List MemoryBasicInformation)
map_step go addr (raise e) = raise e
map_step go addr (ok none) = raise type_error
map_step go addr (ok (some info)) = elim (go (after addr info.region_size)) [
  | raise e ↦ raise e
  | ok rest ↦ ok (info ∷ rest)
]

unfoldable pub map_from :
    (fuel : ℕ) → MemoryManager → (addr : ℕ) → Result (List MemoryBasicInformation)
unfolding after
map_from zero m addr = raise out_of_fuel
map_from (suc fuel) m addr =
    let spans = map_step (map_from fuel m) addr (query m addr) in
    if ltb addr m.maximum then spans else ok []

-- Each round goes on by a byte at least.
unfoldable pub map : MemoryManager → Result (List MemoryBasicInformation)
unfolding map_from
map m = map_from (suc (m.maximum - m.minimum)) m m.minimum

-- `info.region_size - diff >= size`
unfoldable pub has_room : ℤ → (diff size : ℕ) → Bool
has_room (pos n) diff size = leb (size + diff) n
has_room (ℤ.negsuc n) diff size = false

abbrev pub is_free : MemoryState → Bool
is_free mem_free = true
is_free _ = false

-- The round of `find_free` for the span `info`, with `allocation_align` set, as all callers have it.
abbrev pub find_step :
    MemoryManager
    → (ℕ → Result (Option ℕ))
    → (size base : ℕ) → Result (Option MemoryBasicInformation)
    → Result (Option ℕ)
find_step m go size base (raise e) = raise e
find_step m go size base (ok none) = raise type_error
find_step m go size base (ok (some info)) =
    let rest = go (after base info.region_size) in
    let aligned_base = align_allocation m.granularity info.base in
    if info.base == base
    then (if is_free info.state && has_room info.region_size (aligned_base - info.base) size
        then ok (some aligned_base)
        else rest)
    else raise assertion_error

unfoldable pub find_from : (fuel : ℕ) → MemoryManager → (size base : ℕ) → Result (Option ℕ)
unfolding after has_room
find_from zero m size base = raise out_of_fuel
find_from (suc fuel) m size base =
    let found = find_step m (find_from fuel m size) size base (query m base) in
    if ltb base m.maximum then found else ok none

unfoldable pub find_free : MemoryManager → (size : ℕ) → Result (Option ℕ)
unfolding find_from
find_free m size =
    if ltb 0 size && align_page size == size
    then find_from (suc (m.maximum - m.minimum)) m size m.minimum
    else raise assertion_error
