-- ===== src/Syscalls/Valid.antt =====
-- Each system call for memory keeps the memory manager well-formed.
use dumpulator.Prelude.{ℕ, none, if◌then◌else◌, not, ◌%◌, ◌==◌, ◌+◌, is_some}
use dumpulator.Outcome.{Action, Result, pure, reads, throw, not_implemented}
use dumpulator.Memory.Protect.{MemoryProtect, undefined, mem_private}
use dumpulator.Memory.Manager.{MemoryManager, reserve, find_region_at}
use dumpulator.Memory.Valid.{IsValid}
use dumpulator.Memory.Commit.{commit, decommit, protect}
use dumpulator.Memory.Release.{release}
use dumpulator.Memory.Reserving.{reserve-IsValid}
use dumpulator.Memory.Committing.{commit-IsValid}
use dumpulator.Memory.Decommitting.{decommit-IsValid}
use dumpulator.Memory.Protecting.{protect-IsValid}
use dumpulator.Memory.Releasing.{release-IsValid}
use dumpulator.Primitives.Architecture.{MemoryAccess}
use dumpulator.Syscalls.Process.{
  on_manager, memory_protect, nt_current_process, write_ulong, status_success,
  status_not_implemented, status_memory_not_allocated,
}
use dumpulator.Syscalls.Keeping.{
  Keeps, pure-Keeps, throw-Keeps, gets-Keeps, reads-Keeps, if-Keeps, assert-Keeps, bind-Keeps,
  on_manager-Keeps, read_ptr-Keeps, write_ptr-Keeps, write_ulong-Keeps, write_bytes-Keeps,
}
use dumpulator.Native.Rounding.{round_to_pages}
use dumpulator.Syscalls.Virtual.{
  page_of_ptr, mem_commit_flag, mem_reserve_flag, mem_decommit_flag, mem_release_flag, free_base,
  query_info, region_at, write_range, allocate_commit, allocate_reserve, allocate_both,
  zw_allocate_virtual_memory, free_range, zw_free_virtual_memory, zw_protect_virtual_memory,
  query_basic, query_region, query_filename, zw_query_virtual_memory,
}

module _ (guest : MemoryAccess) where
  -- `find_free` and the other reads of the manager
  reads_manager-Keeps :
      {A : Type 0} (f : MemoryManager → Result A) → Keeps guest (on_manager guest (reads f))
  reads_manager-Keeps f = on_manager-Keeps guest (reads f) λ m v. v

  reserve-Keeps :
      (base size : ℕ) (prot : MemoryProtect)
      → Keeps guest (on_manager guest (reserve base size prot mem_private none))
  reserve-Keeps base size prot =
      on_manager-Keeps guest (reserve base size prot mem_private none)
        λ m v. reserve-IsValid m v base size prot mem_private none

  commit-Keeps :
      (base size : ℕ) (prot : MemoryProtect)
      → Keeps guest (on_manager guest (commit base size prot))
  commit-Keeps base size prot =
      on_manager-Keeps guest (commit base size prot) λ m v. commit-IsValid m base size prot v

  write_range-Keeps :
      (base_address region_size base size : ℕ)
      → Keeps guest (write_range guest base_address region_size base size)
  write_range-Keeps base_address region_size base size =
      bind-Keeps guest _ _ (write_ptr-Keeps guest base_address base)
        λ u. write_ptr-Keeps guest region_size size

  -- `if base == 0: base = find_free(size)`
  base-Keeps :
      (base size : ℕ)
      → Keeps guest (if base == 0 then on_manager guest (reads (free_base size)) else pure base)
  base-Keeps base size =
      if-Keeps guest (base == 0) (on_manager guest (reads (free_base size))) (pure base)
        (reads_manager-Keeps (free_base size)) (pure-Keeps guest base)

  range-Keeps :
      (base_address region_size base base' size : ℕ)
      → Keeps guest
          (if base == 0 then write_range guest base_address region_size base' size else pure tt)
  range-Keeps base_address region_size base base' size =
      if-Keeps guest (base == 0) (write_range guest base_address region_size base' size) (pure tt)
        (write_range-Keeps base_address region_size base' size) (pure-Keeps guest tt)

  allocate_commit-Keeps :
      (base_address region_size base size : ℕ) (prot : MemoryProtect)
      → Keeps guest (allocate_commit guest base_address region_size base size prot)
  unfolding allocate_commit
  allocate_commit-Keeps base_address region_size base size prot =
      if-Keeps guest (base == 0) _ (on_manager guest (commit base size prot))
        (bind-Keeps guest _ _ (reads_manager-Keeps (free_base size)) λ base'.
          bind-Keeps guest _ _ (reserve-Keeps base' size prot) λ r.
            bind-Keeps guest _ _ (write_range-Keeps base_address region_size base' size)
              λ u. commit-Keeps base' size prot)
        (commit-Keeps base size prot)

  allocate_reserve-Keeps :
      (base_address region_size base size : ℕ) (prot : MemoryProtect)
      → Keeps guest (allocate_reserve guest base_address region_size base size prot)
  unfolding allocate_reserve
  allocate_reserve-Keeps base_address region_size base size prot =
      bind-Keeps guest _ _ (base-Keeps base size) λ base'.
        bind-Keeps guest _ _ (range-Keeps base_address region_size base base' size)
          λ u. bind-Keeps guest _ _ (reserve-Keeps base' size prot) λ r. pure-Keeps guest tt

  allocate_both-Keeps :
      (base_address region_size base size : ℕ) (prot : MemoryProtect)
      → Keeps guest (allocate_both guest base_address region_size base size prot)
  unfolding allocate_both
  allocate_both-Keeps base_address region_size base size prot =
      bind-Keeps guest _ _ (base-Keeps base size) λ base'.
        bind-Keeps guest _ _ (range-Keeps base_address region_size base base' size) λ u.
          bind-Keeps guest _ _ (reserve-Keeps base' size prot)
            λ r. commit-Keeps base' size undefined

  kind-Keeps :
      (base_address region_size base size type : ℕ) (prot : MemoryProtect)
      → Keeps guest (
          if type == mem_commit_flag
          then allocate_commit guest base_address region_size base size prot
          else (if type == mem_reserve_flag
              then allocate_reserve guest base_address region_size base size prot
              else (if type == mem_commit_flag + mem_reserve_flag
                  then allocate_both guest base_address region_size base size prot
                  else throw not_implemented)))
  kind-Keeps base_address region_size base size type prot =
      if-Keeps guest (type == mem_commit_flag) _ _
        (allocate_commit-Keeps base_address region_size base size prot)
        (if-Keeps guest (type == mem_reserve_flag) _ _
          (allocate_reserve-Keeps base_address region_size base size prot)
          (if-Keeps guest (type == mem_commit_flag + mem_reserve_flag) _ _
            (allocate_both-Keeps base_address region_size base size prot)
            (throw-Keeps guest (Unit {0}) not_implemented)))

  pub allocate-Keeps :
      (handle base_address zero_bits region_size type prot : ℕ)
      → Keeps guest
          (zw_allocate_virtual_memory guest handle base_address zero_bits region_size type prot)
  unfolding zw_allocate_virtual_memory
  allocate-Keeps handle base_address zero_bits region_size type prot =
      bind-Keeps guest _ _ (assert-Keeps guest (zero_bits == 0)) λ u.
        bind-Keeps guest _ _ (gets-Keeps guest (λ p. p)) λ p.
          bind-Keeps guest _ _ (assert-Keeps guest (handle == nt_current_process guest p)) λ u.
            bind-Keeps guest _ _ (read_ptr-Keeps guest base_address) λ base.
              bind-Keeps guest _ _ (assert-Keeps guest (base % 0x1000 == 0)) λ u.
                bind-Keeps guest _ _ (read_ptr-Keeps guest region_size) λ asked.
                  bind-Keeps guest _ _ (assert-Keeps guest (not (round_to_pages asked == 0))) λ u.
                    bind-Keeps guest _ _ (reads-Keeps guest (λ p. memory_protect prot)) λ prot'.
                      bind-Keeps guest _ _
                        (kind-Keeps base_address region_size base (round_to_pages asked) type prot')
                        λ u. pure-Keeps guest status_success

  free_range-Keeps :
      (base : ℕ) (call : Action MemoryManager (Unit {0}))
      → ((m : MemoryManager) → IsValid m → IsValid (call m).1)
      → Keeps guest (free_range guest base call)
  unfolding free_range
  free_range-Keeps base call h = bind-Keeps guest _ _ (gets-Keeps guest (λ p. p)) λ p.
      if-Keeps guest (is_some (find_region_at p.manager.regions base)) _
        (pure status_memory_not_allocated)
        (bind-Keeps guest _ _ (on_manager-Keeps guest call h) λ u. pure-Keeps guest status_success)
        (pure-Keeps guest status_memory_not_allocated)

  pub free-Keeps :
      (handle base_address region_size free_type : ℕ)
      → Keeps guest (zw_free_virtual_memory guest handle base_address region_size free_type)
  unfolding zw_free_virtual_memory
  free-Keeps handle base_address region_size free_type =
      bind-Keeps guest _ _ (read_ptr-Keeps guest base_address) λ base.
        bind-Keeps guest _ _ (read_ptr-Keeps guest region_size) λ size.
          if-Keeps guest (free_type == mem_release_flag) _ _
            (free_range-Keeps base (release base size) λ m v. release-IsValid m base size v)
            (if-Keeps guest (free_type == mem_decommit_flag) _ (throw not_implemented)
              (free_range-Keeps base (decommit base size) λ m v. decommit-IsValid m base size v)
              (throw-Keeps guest ℕ not_implemented))

  pub protect-Keeps :
      (handle base_address region_size new_protect old_protect : ℕ)
      → Keeps guest
          (zw_protect_virtual_memory guest handle base_address region_size new_protect old_protect)
  unfolding zw_protect_virtual_memory
  protect-Keeps handle base_address region_size new_protect old_protect =
      bind-Keeps guest _ _ (read_ptr-Keeps guest base_address) λ addr.
        bind-Keeps guest _ _ (read_ptr-Keeps guest region_size) λ asked.
          bind-Keeps guest _ _ (reads-Keeps guest (λ p. memory_protect new_protect)) λ prot.
            bind-Keeps guest _ _
              (on_manager-Keeps guest (protect (page_of_ptr addr) (round_to_pages asked) prot)
                λ m v. protect-IsValid m (page_of_ptr addr) (round_to_pages asked) prot v)
              λ old.
                bind-Keeps guest _ _ (write_ulong-Keeps guest old_protect old)
                  λ u. pure-Keeps guest status_success

  return_length-Keeps :
      (pointer size : ℕ)
      → Keeps guest (if pointer == 0 then pure tt else write_ulong guest pointer size)
  return_length-Keeps pointer size =
      if-Keeps guest (pointer == 0) (pure tt) (write_ulong guest pointer size) (pure-Keeps guest tt)
        (write_ulong-Keeps guest pointer size)

  query_basic-Keeps :
      (addr info_ptr info_length length_ptr : ℕ)
      → Keeps guest (query_basic guest addr info_ptr info_length length_ptr)
  unfolding query_basic
  query_basic-Keeps addr info_ptr info_length length_ptr =
      bind-Keeps guest _ _ (reads_manager-Keeps (query_info addr)) λ info.
        bind-Keeps guest _ _ (gets-Keeps guest (λ p. p)) λ p.
          bind-Keeps guest _ _ (assert-Keeps guest _) λ u.
            bind-Keeps guest _ _ (write_bytes-Keeps guest info_ptr _) λ u.
              bind-Keeps guest _ _ (return_length-Keeps length_ptr _)
                λ u. pure-Keeps guest status_success

  query_region-Keeps :
      (addr info_ptr info_length length_ptr : ℕ)
      → Keeps guest (query_region guest addr info_ptr info_length length_ptr)
  unfolding query_region
  query_region-Keeps addr info_ptr info_length length_ptr =
      bind-Keeps guest _ _ (reads_manager-Keeps (region_at addr)) λ r.
        bind-Keeps guest _ _ (gets-Keeps guest (λ p. p)) λ p.
          bind-Keeps guest _ _ (assert-Keeps guest _) λ u.
            bind-Keeps guest _ _ (write_bytes-Keeps guest info_ptr _) λ u.
              bind-Keeps guest _ _
                (if-Keeps guest _ _ _ (write_bytes-Keeps guest _ _) (pure-Keeps guest tt))
                λ u.
                  bind-Keeps guest _ _ (return_length-Keeps length_ptr info_length)
                    λ u. pure-Keeps guest status_success

  query_filename-Keeps :
      (info_ptr info_length length_ptr : ℕ)
      → Keeps guest (query_filename guest info_ptr info_length length_ptr)
  unfolding query_filename
  query_filename-Keeps info_ptr info_length length_ptr =
      bind-Keeps guest _ _ (gets-Keeps guest (λ p. p)) λ p.
        bind-Keeps guest _ _ (assert-Keeps guest _) λ u.
          bind-Keeps guest _ _ (write_bytes-Keeps guest info_ptr _) λ u.
            bind-Keeps guest _ _ (return_length-Keeps length_ptr _)
              λ u. pure-Keeps guest status_success

  pub query-Keeps :
      (handle addr class info_ptr info_length length_ptr : ℕ)
      → Keeps guest
          (zw_query_virtual_memory guest handle addr class info_ptr info_length length_ptr)
  unfolding zw_query_virtual_memory
  query-Keeps handle addr class info_ptr info_length length_ptr =
      bind-Keeps guest _ _ (gets-Keeps guest (λ p. p)) λ p.
        bind-Keeps guest _ _ (assert-Keeps guest (handle == nt_current_process guest p)) λ u.
          if-Keeps guest (class == 0) _ _ (query_basic-Keeps addr info_ptr info_length length_ptr) (
            if-Keeps guest (class == 3) _ _
              (query_region-Keeps addr info_ptr info_length length_ptr)
              (if-Keeps guest (class == 2) _ _
                (query_filename-Keeps info_ptr info_length length_ptr)
                (pure-Keeps guest status_not_implemented)))
