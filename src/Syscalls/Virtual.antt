-- ===== src/Syscalls/Virtual.antt =====
-- ntsyscalls.py: `ZwAllocateVirtualMemory`, `ZwFreeVirtualMemory`, `ZwProtectVirtualMemory` and
-- `ZwQueryVirtualMemory`.
use dumpulator.Prelude.{
  ℕ, ◌+◌, ◌-◌, ◌*◌, ◌/◌, ◌%◌, ◌^◌, Bool, true, false, not, none, some, List, [], ◌∷◌, ◌++◌, length,
  replicate, leb, ltb, ◌==◌, if◌then◌else◌, is_some,
}
use dumpulator.Outcome.{
  type_error, not_implemented, attribute_error, Result, ok, raise, Action, pure, throw, gets, reads,
  assert, ◌>>=◌, ◌>>◌,
}
use dumpulator.Memory.Protect.{
  MemoryProtect, undefined, MemoryType, no_type, mem_image, mem_mapped, mem_private, MemoryState,
  mem_commit, mem_reserve, mem_free,
}
use dumpulator.Memory.Region.{MemoryRegion}
use dumpulator.Memory.Manager.{MemoryManager, reserve, find_region_at}
use dumpulator.Memory.Commit.{commit, decommit, protect}
use dumpulator.Memory.Release.{release}
use dumpulator.Memory.Query.{MemoryBasicInformation, query, find_free}
use dumpulator.Primitives.Integers.{masked}
use dumpulator.Primitives.Architecture.{MemoryAccess}
use dumpulator.Primitives.Fields.{pack}
use dumpulator.Native.Text.{Name, codes}
use dumpulator.Native.Rounding.{round_to_pages}
use dumpulator.Native.Structs.{memory_basic_information, memory_region_information}
use dumpulator.Syscalls.Process.{
  status_success, status_not_implemented, status_memory_not_allocated, memory_protect, Process,
  on_manager, nt_current_process, read_ptr, write_ptr, write_ulong, write_bytes,
}

abbrev pub mem_commit_flag : ℕ
mem_commit_flag = 0x1000

abbrev pub mem_reserve_flag : ℕ
mem_reserve_flag = 0x2000

abbrev pub mem_decommit_flag : ℕ
mem_decommit_flag = 0x4000

abbrev pub mem_release_flag : ℕ
mem_release_flag = 0x8000

-- `state.value` and `type.value`
abbrev pub state_value : MemoryState → ℕ
state_value mem_commit = 0x1000
state_value mem_reserve = 0x2000
state_value mem_free = 0x10000

abbrev pub type_value : MemoryType → ℕ
type_value no_type = 0
type_value mem_image = 0x1000000
type_value mem_mapped = 0x40000
type_value mem_private = 0x20000

-- `addr & 0xFFFFFFFFFFFFF000`, of an address that was read as 64 bits at most
abbrev pub page_of_ptr : ℕ → ℕ
page_of_ptr addr = addr % 2 ^ 64 / 0x1000 * 0x1000

-- What `find_free` returns is used as an address: `None` is none.
unfoldable pub free_base : (size : ℕ) → MemoryManager → Result ℕ
free_base size m = elim (find_free m size) [
  | raise e ↦ raise e
  | ok none ↦ raise type_error
  | ok (some base) ↦ ok base
]

-- `dp.memory.query(addr)`, whose result's attributes are read
unfoldable pub query_info : (addr : ℕ) → MemoryManager → Result MemoryBasicInformation
query_info addr m = elim (query m addr) [
  | raise e ↦ raise e
  | ok none ↦ raise attribute_error
  | ok (some info) ↦ ok info
]

unfoldable pub region_at : (addr : ℕ) → MemoryManager → Result MemoryRegion
region_at addr m = elim (find_region_at m.regions addr) [
  | none ↦ raise attribute_error
  | some r ↦ ok r
]

-- `name.encode("utf-16-le")`, of ASCII
unfoldable pub utf16 : Name → List ℕ
utf16 [] = []
utf16 (c ∷ cs) = c ∷ 0 ∷ utf16 cs

abbrev pub image_name : Bool → Name
image_name true =
    codes
      "\\Device\\HarddiskVolume8\\CodeBlocks\\dumpulator\\tests\\ExceptionTest\\x64\\Release\\ExceptionTest.exe"
image_name false =
    codes
      "\\Device\\HarddiskVolume8\\CodeBlocks\\dumpulator\\tests\\ExceptionTest\\Release\\ExceptionTest.exe"

-- `struct.pack("<HHIQ", …)` and `struct.pack("<HHI", …)`, then the name
unfoldable pub mapped_filename : (x64 : Bool) (addr : ℕ) → List ℕ
unfolding pack utf16
mapped_filename x64 addr =
    let name = image_name x64 in
    pack 2 (length name * 2)
    ++ (pack 2 (length name * 2 + 1)
        ++ (if x64
            then pack 4 0 ++ (pack 8 (addr + 0x10) ++ utf16 name)
            else pack 4 (addr + 8) ++ utf16 name))

module _ (guest : MemoryAccess) where
  abbrev manager : {A : Type 0} → Action MemoryManager A → Action (Process guest) A
  manager = on_manager guest

  -- `BaseAddress.write_ptr(base); RegionSize.write_ptr(size)`
  abbrev pub write_range :
      (base_address region_size base size : ℕ) → Action (Process guest) (Unit {0})
  write_range base_address region_size base size = do
    write_ptr guest base_address base
    write_ptr guest region_size size

  -- The branch of `MEM_COMMIT`
  unfoldable pub allocate_commit :
      (base_address region_size base size : ℕ) → MemoryProtect → Action (Process guest) (Unit {0})
  unfolding on_manager free_base write_ptr
  allocate_commit base_address region_size base size prot =
      if base == 0
      then (do
        base' ← manager (reads (free_base size))
        manager (reserve base' size prot mem_private none)
        write_range base_address region_size base' size
        manager (commit base' size prot))
      else manager (commit base size prot)

  -- The branch of `MEM_RESERVE`
  unfoldable pub allocate_reserve :
      (base_address region_size base size : ℕ) → MemoryProtect → Action (Process guest) (Unit {0})
  unfolding on_manager free_base write_ptr
  allocate_reserve base_address region_size base size prot = do
    base' ← if base == 0 then manager (reads (free_base size)) else pure base
    if base == 0 then write_range base_address region_size base' size else pure tt
    manager (reserve base' size prot mem_private none)
    pure tt

  -- The branch of `MEM_COMMIT | MEM_RESERVE`, where `commit` takes the protection of the region
  unfoldable pub allocate_both :
      (base_address region_size base size : ℕ) → MemoryProtect → Action (Process guest) (Unit {0})
  unfolding allocate_reserve on_manager free_base
  allocate_both base_address region_size base size prot = do
    base' ← if base == 0 then manager (reads (free_base size)) else pure base
    if base == 0 then write_range base_address region_size base' size else pure tt
    manager (reserve base' size prot mem_private none)
    manager (commit base' size undefined)

  unfoldable pub zw_allocate_virtual_memory :
      (process_handle base_address zero_bits region_size allocation_type prot : ℕ)
      → Action (Process guest) ℕ
  unfolding allocate_commit allocate_reserve allocate_both memory_protect read_ptr
  zw_allocate_virtual_memory process_handle base_address zero_bits region_size allocation_type
        prot =
      do
        assert (zero_bits == 0)
        p ← gets (λ p. p)
        assert (process_handle == nt_current_process guest p)
        base ← read_ptr guest base_address
        assert (base % 0x1000 == 0)
        asked ← read_ptr guest region_size
        let size : ℕ = round_to_pages asked
        assert (not (size == 0))
        prot' ← reads (λ p. memory_protect prot)
        if allocation_type == mem_commit_flag
            then allocate_commit base_address region_size base size prot'
            else (if allocation_type == mem_reserve_flag
                then allocate_reserve base_address region_size base size prot'
                else (if allocation_type == mem_commit_flag + mem_reserve_flag
                    then allocate_both base_address region_size base size prot'
                    else throw not_implemented))
        pure status_success

  -- `release` or `decommit`, if there is a region at the address
  unfoldable pub free_range :
      (base : ℕ) → Action MemoryManager (Unit {0}) → Action (Process guest) ℕ
  unfolding on_manager
  free_range base call = do
    p ← gets (λ p. p)
    if is_some (find_region_at p.manager.regions base)
        then (do manager call; pure status_success)
        else pure status_memory_not_allocated

  unfoldable pub zw_free_virtual_memory :
      (process_handle base_address region_size free_type : ℕ) → Action (Process guest) ℕ
  unfolding free_range read_ptr
  zw_free_virtual_memory process_handle base_address region_size free_type = do
    base ← read_ptr guest base_address
    size ← read_ptr guest region_size
    if free_type == mem_release_flag
        then free_range base (release base size)
        else (if free_type == mem_decommit_flag
            then free_range base (decommit base size)
            else throw not_implemented)

  unfoldable pub zw_protect_virtual_memory :
      (process_handle base_address region_size new_protect old_protect : ℕ)
      → Action (Process guest) ℕ
  unfolding on_manager memory_protect read_ptr write_ulong
  zw_protect_virtual_memory process_handle base_address region_size new_protect old_protect = do
    addr ← read_ptr guest base_address
    let base : ℕ = page_of_ptr addr
    asked ← read_ptr guest region_size
    let size : ℕ = round_to_pages asked
    prot ← reads (λ p. memory_protect new_protect)
    old ← manager (protect base size prot)
    write_ulong guest old_protect old
    pure status_success

  -- `if ReturnLength.ptr: ReturnLength.write_ulong(length)`
  abbrev return_length : (pointer size : ℕ) → Action (Process guest) (Unit {0})
  return_length pointer size = if pointer == 0 then pure tt else write_ulong guest pointer size

  unfoldable pub query_basic : (addr info_ptr info_length length_ptr : ℕ) → Action (Process guest) ℕ
  unfolding on_manager query_info memory_basic_information masked write_ulong write_bytes
  query_basic addr info_ptr info_length length_ptr = do
    info ← manager (reads (query_info addr))
    p ← gets (λ p. p)
    let mbi : List ℕ =
        memory_basic_information p.x64 info.base info.allocation_base info.allocation_protect
          (masked (2 ^ 64) info.region_size) (state_value info.state) info.protect
          (type_value info.type)
    assert (info_length == length mbi)
    write_bytes guest info_ptr mbi
    return_length length_ptr (length mbi)
    pure status_success

  unfoldable pub query_region :
      (addr info_ptr info_length length_ptr : ℕ) → Action (Process guest) ℕ
  unfolding on_manager region_at memory_region_information write_ulong write_bytes
  query_region addr info_ptr info_length length_ptr = do
    r ← manager (reads (region_at addr))
    p ← gets (λ p. p)
    let flags : ℕ = elim r.type [ mem_image ↦ 4 | _ ↦ 1 ]
    let mri : List ℕ = memory_region_information p.x64 r.start r.protect flags r.size r.size
    assert (leb (length mri) info_length)
    write_bytes guest info_ptr mri
    if ltb (length mri) info_length
        then write_bytes guest (info_ptr + length mri) (replicate (info_length - length mri) 0x69)
        else pure tt
    return_length length_ptr info_length
    pure status_success

  unfoldable pub query_filename : (info_ptr info_length length_ptr : ℕ) → Action (Process guest) ℕ
  unfolding mapped_filename write_ulong write_bytes
  query_filename info_ptr info_length length_ptr = do
    p ← gets (λ p. p)
    let bytes : List ℕ = mapped_filename p.x64 info_ptr
    assert (leb (length bytes) info_length)
    write_bytes guest info_ptr bytes
    return_length length_ptr (length bytes)
    pure status_success

  -- The information classes by their numbers: 0, 3 and 2 are implemented.
  unfoldable pub zw_query_virtual_memory :
      (process_handle base_address info_class info_ptr info_length length_ptr : ℕ)
      → Action (Process guest) ℕ
  unfolding query_basic query_region query_filename
  zw_query_virtual_memory process_handle base_address info_class info_ptr info_length length_ptr =
      do
        p ← gets (λ p. p)
        assert (process_handle == nt_current_process guest p)
        if info_class == 0
            then query_basic base_address info_ptr info_length length_ptr
            else (if info_class == 3
                then query_region base_address info_ptr info_length length_ptr
                else (if info_class == 2
                    then query_filename info_ptr info_length length_ptr
                    else pure status_not_implemented))
