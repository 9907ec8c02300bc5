-- ===== src/Syscalls/Files.antt =====
-- ntsyscalls.py: the system calls for handles and files. Pointers are addresses.
use dumpulator.Prelude.{
  ℕ, ◌+◌, ◌%◌, ◌^◌, Bool, not, List, ◌++◌, length, leb, ◌==◌, ◌||◌, if◌then◌else◌,
}
use dumpulator.Outcome.{
  not_implemented, struct_error, ok, Action, pure, throw, gets, assert, raise_if, ◌>>=◌, ◌>>◌,
}
use dumpulator.Primitives.Control.{ptr_size, unpack}
use dumpulator.Primitives.Fields.{pack}
use dumpulator.Primitives.Architecture.{MemoryAccess}
use dumpulator.Handles.Manager.{valid, close, duplicate}
use dumpulator.Syscalls.Process.{status_success}
use dumpulator.Syscalls.Kernel.{
  process_token, Kernel, on_memory, get_file, attribute_of, new_object, write_ptr, write_io_status,
  read_object, write_object, offset_of, set_offset, end_of_file,
}

abbrev pub status_invalid_handle : ℕ
status_invalid_handle = 0xC0000008

-- `FILE_INFORMATION_CLASS`
abbrev pub file_standard_information : ℕ
file_standard_information = 5

abbrev pub file_position_information : ℕ
file_position_information = 14

abbrev pub file_attribute_tag_information : ℕ
file_attribute_tag_information = 35

abbrev pub file_disposition_information : ℕ
file_disposition_information = 13

abbrev pub file_disposition_information_ex : ℕ
file_disposition_information_ex = 64

-- The arguments that `ZwReadFile` and `ZwWriteFile` share
pub record Transfer : Type 0 where
  pub file_handle : ℕ
  pub event : ℕ
  pub apc_routine : ℕ
  pub apc_context : ℕ
  pub io_status_block : ℕ
  pub buffer : ℕ
  pub size : ℕ
  pub byte_offset : ℕ
  pub key : ℕ

module _ {guest : MemoryAccess} where
  -- `dp.NtCurrentProcess()`
  abbrev pub current_process : Kernel guest → ℕ
  current_process k = if k.x64 then 0xFFFFFFFFFFFFFFFF else 0xFFFFFFFF

  abbrev pub is_valid : (handle : ℕ) → Kernel guest → Bool
  is_valid handle k = valid ℕ handle k.handles

  -- `struct.pack` of 64 bits
  abbrev pub fits_64 : (value : ℕ) → Action (Kernel guest) (Unit {0})
  fits_64 value = raise_if (leb (2 ^ 64) value) struct_error

  unfoldable pub zw_close : (handle : ℕ) → Action (Kernel guest) ℕ
  unfolding valid close
  zw_close handle k =
      if is_valid handle k
      then (ok status_success, record k { handles = (close ℕ handle k.handles).1 })
      else (ok status_invalid_handle, k)

  unfoldable pub zw_duplicate_object :
      (source_process source target_process target desired_access attributes options : ℕ)
      → Action (Kernel guest) ℕ
  unfolding valid duplicate write_ptr
  zw_duplicate_object source_process source target_process target desired_access attributes
        options =
      do
        k ← gets (λ k. k)
        assert (source_process == current_process k)
        assert (target_process == current_process k)
        if not (is_valid source k) then pure status_invalid_handle else (do
          dup_handle ← (λ k.
              let (r, handles) = duplicate ℕ source k.handles in
              (r, record k { handles = handles }))
          write_ptr target dup_handle
          pure status_success)

  unfoldable pub zw_open_process_token :
      (process_handle desired_access token_handle : ℕ) → Action (Kernel guest) ℕ
  unfolding new_object write_ptr
  zw_open_process_token process_handle desired_access token_handle = do
    k ← gets (λ k. k)
    assert (process_handle == current_process k)
    assert (desired_access == 0x20)
    handle ← new_object (process_token process_handle)
    write_ptr token_handle handle
    pure status_success

  -- The assertions that both transfers begin with
  unfoldable pub check_transfer : Transfer → Action (Kernel guest) (Unit {0})
  check_transfer t = do
    assert (t.event == 0)
    assert (t.apc_routine == 0)
    assert (t.apc_context == 0)
    assert (t.byte_offset == 0)
    assert (t.key == 0)

  -- The status and the number of bytes, where the transfers write them
  unfoldable pub report_transfer : Transfer → (count : ℕ) → Action (Kernel guest) (Unit {0})
  unfolding write_ptr
  report_transfer t count = do
    write_ptr t.io_status_block status_success
    k ← gets (λ k. k)
    write_ptr (t.io_status_block + ptr_size k.x64) count

  module _ (input : List ℕ) where
    unfoldable pub zw_read_file : Transfer → Action (Kernel guest) ℕ
    unfolding check_transfer valid get_file attribute_of read_object on_memory report_transfer
    zw_read_file t = do
      check_transfer t
      k ← gets (λ k. k)
      if is_valid t.file_handle k
          then (do
            assert (not (t.buffer == 0))
            file ← get_file t.file_handle
            reference ← attribute_of file
            bytes ← read_object input reference t.size
            assert (leb (length bytes) t.size)
            on_memory (guest.write t.buffer bytes)
            report_transfer t (length bytes)
            pure status_success)
          else throw not_implemented

  unfoldable pub zw_write_file : Transfer → Action (Kernel guest) ℕ
  unfolding check_transfer valid get_file attribute_of write_object on_memory report_transfer
  zw_write_file t = do
    check_transfer t
    k ← gets (λ k. k)
    if is_valid t.file_handle k
        then (do
          assert (not (t.buffer == 0))
          file ← get_file t.file_handle
          bytes ← on_memory (guest.read t.buffer t.size)
          reference ← attribute_of file
          write_object reference bytes t.size
          report_transfer t (length bytes)
          pure status_success)
        else throw not_implemented

  -- `FileInformation.write(info)` and the status block
  unfoldable pub give_information :
      (io_status_block file_information : ℕ) → List ℕ → Action (Kernel guest) ℕ
  unfolding on_memory write_io_status
  give_information io_status_block file_information info = do
    on_memory (guest.write file_information info)
    write_io_status io_status_block status_success (length info)
    pure status_success

  -- The assertions on the arguments of one class
  unfoldable pub check_information :
      (io_status_block file_information size expected : ℕ) → Action (Kernel guest) (Unit {0})
  check_information io_status_block file_information size expected = do
    assert (size == expected)
    assert (not (file_information == 0))
    assert (not (io_status_block == 0))

  -- What does not need a valid handle
  unfoldable pub query_attribute_tag :
      (io_status_block file_information size class : ℕ) → Action (Kernel guest) ℕ
  unfolding check_information give_information
  query_attribute_tag io_status_block file_information size class =
      if class == file_attribute_tag_information
      then (do
        check_information io_status_block file_information size 8
        k ← gets (λ k. k)
        assert k.x64
        give_information io_status_block file_information (pack 4 0x80 ++ pack 4 0))
      else throw not_implemented

  unfoldable pub zw_query_information_file :
      (file_handle io_status_block file_information size class : ℕ) → Action (Kernel guest) ℕ
  unfolding valid get_file attribute_of end_of_file offset_of check_information give_information
      query_attribute_tag
  zw_query_information_file file_handle io_status_block file_information size class = do
    k ← gets (λ k. k)
    if is_valid file_handle k
        then (if class == file_standard_information
            then (do
              check_information io_status_block file_information size 0x18
              file ← get_file file_handle
              reference ← attribute_of file
              end ← end_of_file reference
              fits_64 (end + end % 0x1000)
              give_information io_status_block file_information (
                  pack 8 (end + end % 0x1000)
                  ++ (pack 8 end ++ (pack 4 1 ++ (pack 1 0 ++ (pack 1 0 ++ pack 2 0))))))
            else if class == file_position_information
            then (do
              check_information io_status_block file_information size 8
              file ← get_file file_handle
              reference ← attribute_of file
              offset ← offset_of reference
              fits_64 offset
              give_information io_status_block file_information (pack 8 offset))
            else query_attribute_tag io_status_block file_information size class)
        else query_attribute_tag io_status_block file_information size class

  -- What does not need a valid handle: the file is not deleted.
  unfoldable pub set_disposition :
      (io_status_block file_information size class : ℕ) → Action (Kernel guest) ℕ
  set_disposition io_status_block file_information size class = do
    let expected = if class == file_disposition_information_ex then 4 else 1
    if class == file_disposition_information_ex || class == file_disposition_information
        then (do
          assert (not (io_status_block == 0))
          assert (not (file_information == 0))
          assert (size == expected)
          pure status_success)
        else throw not_implemented

  unfoldable pub zw_set_information_file :
      (file_handle io_status_block file_information size class : ℕ) → Action (Kernel guest) ℕ
  unfolding valid get_file attribute_of on_memory set_offset set_disposition
  zw_set_information_file file_handle io_status_block file_information size class = do
    k ← gets (λ k. k)
    if is_valid file_handle k
        then (if class == file_position_information
            then (do
              assert (not (io_status_block == 0))
              assert (not (file_information == 0))
              assert (size == 8)
              file ← get_file file_handle
              info ← on_memory (guest.read file_information size)
              reference ← attribute_of file
              set_offset reference (unpack info)
              pure status_success)
            else set_disposition io_status_block file_information size class)
        else set_disposition io_status_block file_information size class
