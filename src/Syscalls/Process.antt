-- ===== src/Syscalls/Process.antt =====
-- The parts of `Dumpulator` that the system calls for memory act on: the memory manager, and the memory of
-- the emulated process, whose reads and writes are a parameter.
use dumpulator.Prelude.{ℕ, List, Bool, ltb, if◌then◌else◌}
use dumpulator.Outcome.{value_error, Result, ok, raise, Action}
use dumpulator.Memory.Protect.{MemoryProtect}
use dumpulator.Memory.Manager.{MemoryManager}
use dumpulator.Primitives.Architecture.{MemoryAccess}
use dumpulator.Primitives.Architecture

abbrev pub status_success : ℕ
status_success = 0

abbrev pub status_not_implemented : ℕ
status_not_implemented = 0xC0000002

abbrev pub status_memory_not_allocated : ℕ
status_memory_not_allocated = 0xC00000A0

-- `MemoryProtect(value)`: a `Flag` refuses bits that none of its members has.
unfoldable pub memory_protect : ℕ → Result MemoryProtect
memory_protect value = if ltb value 0x800 then ok value else raise value_error

module _ (guest : MemoryAccess) where
  open guest use {State}

  pub record Process : Type 0 where
    pub manager : MemoryManager
    pub memory : State
    pub x64 : Bool

  module _ {A : Type 0} where
    -- A call of `dp.memory`
    unfoldable pub on_manager : Action MemoryManager A → Action Process A
    on_manager f p = let (r, m) = f p.manager in (r, record p { manager = m })

    -- A call of `dp.read` or `dp.write`
    unfoldable pub on_memory : Action State A → Action Process A
    on_memory f p = let (r, s) = f p.memory in (r, record p { memory = s })

  -- `dp.NtCurrentProcess()`
  abbrev pub nt_current_process : Process → ℕ
  nt_current_process p = if p.x64 then 0xFFFFFFFFFFFFFFFF else 0xFFFFFFFF

  -- `pointer.read_ptr()`, `pointer.write_ptr(value)` and `pointer.write_ulong(value)`
  unfoldable pub read_ptr : ℕ → Action Process ℕ
  unfolding on_memory
  read_ptr addr p = on_memory (Architecture.read_ptr guest p.x64 addr) p

  unfoldable pub write_ptr : (addr value : ℕ) → Action Process (Unit {0})
  unfolding on_memory
  write_ptr addr value p = on_memory (Architecture.write_ptr guest p.x64 addr value) p

  unfoldable pub write_ulong : (addr value : ℕ) → Action Process (Unit {0})
  unfolding on_memory
  write_ulong addr value = on_memory (Architecture.write_ulong guest addr value)

  unfoldable pub write_bytes : (addr : ℕ) → List ℕ → Action Process (Unit {0})
  unfolding on_memory
  write_bytes addr bytes = on_memory (guest.write addr bytes)
