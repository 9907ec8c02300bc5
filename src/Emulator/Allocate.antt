-- ===== src/Emulator/Allocate.antt =====
-- dumpulator.py: `Dumpulator.allocate`, with the parts of its state that it uses: the memory manager, and the region
-- that is handed out piece by piece.
use dumpulator.Prelude.{ℕ, ◌+◌, Bool, none, some, ltb, ◌==◌, if◌then◌else◌}
use dumpulator.Outcome.{
  assertion_error, exception, Result, ok, raise, Action, pure, gets, reads, modify, raise_if, ◌>>=◌,
  ◌>>◌,
}
use dumpulator.Memory.Protect.{undefined, page_execute_readwrite, mem_private}
use dumpulator.Memory.Region.{label, align_page}
use dumpulator.Memory.Manager.{MemoryManager, reserve}
use dumpulator.Memory.Commit.{commit}
use dumpulator.Memory.Query.{find_free}
use dumpulator.Native.Rounding.{round_to_pages}

-- `_allocate_ptr` is 0 before the first call.
pub record Allocator : Type 0 where
  pub memory : MemoryManager
  pub allocate_base : ℕ
  pub allocate_size : ℕ
  pub allocate_ptr : ℕ

unfoldable pub on_memory : {A : Type 0} → Action MemoryManager A → Action Allocator A
on_memory f a = let (r, m) = f a.memory in (r, record a { memory = m })

-- `find_free(size)`, and `assert base is not None`
unfoldable pub free_region : (size : ℕ) → MemoryManager → Result ℕ
free_region size m = elim (find_free m size) [
  | raise e ↦ raise e
  | ok none ↦ raise assertion_error
  | ok (some base) ↦ ok base
]

-- The first call reserves the region. Without a pointer the base is not read.
unfoldable pub open_region : Action Allocator (Unit {0})
unfolding on_memory free_region
open_region = do
  a ← gets (λ a. a)
  base ← on_memory (reads (free_region a.allocate_size))
  modify (λ a. record a { allocate_base = base })
  on_memory (reserve base a.allocate_size page_execute_readwrite mem_private (some (label 0)))
  modify (λ a. record a { allocate_ptr = base })

-- The rest of `allocate`, when there is a region: the size is rounded, and the pointer is `ptr`.
unfoldable pub hand_out : (ptr size : ℕ) → Action Allocator ℕ
unfolding on_memory
hand_out ptr size = do
  a ← gets (λ a. a)
  raise_if (ltb (a.allocate_base + a.allocate_size) (ptr + size)) exception
  modify (λ a. record a { allocate_ptr = ptr + size })
  on_memory (commit (align_page ptr) (align_page size) undefined)
  pure ptr

unfoldable pub allocate : (size : ℕ) (whole_pages : Bool) → Action Allocator ℕ
unfolding open_region hand_out
allocate size whole_pages = do
  a ← gets (λ a. a)
  if a.allocate_ptr == 0 then open_region else pure tt
  b ← gets (λ b. b)
  modify (λ c. if whole_pages then record c { allocate_ptr = round_to_pages b.allocate_ptr } else c)
  if whole_pages
      then hand_out (round_to_pages b.allocate_ptr) (round_to_pages size)
      else hand_out b.allocate_ptr size
