-- ===== src/Syscalls/Kernel.antt =====
-- handles.py: the objects behind the handles, which handles share by reference, and what the system calls of
-- ntsyscalls.py for them act on. The texts of a console are bytes in UTF-8; what `input` returns is a parameter.
use dumpulator.Prelude.{
  ℕ, ◌+◌, ◌*◌, ◌/◌, ◌^◌, Bool, true, false, Option, none, some, List, [], ◌∷◌, ◌++◌, length,
  get_elem?, ltb, ◌==◌, if◌then◌else◌,
}
use dumpulator.Outcome.{
  assertion_error, not_implemented, attribute_error, ok, raise, Action, pure, throw, gets, assert,
  ◌>>=◌, ◌>>◌,
}
use dumpulator.Primitives.Control.{ptr_size}
use dumpulator.Primitives.Architecture.{MemoryAccess}
use dumpulator.Primitives.Architecture
use dumpulator.Handles.Manager.{HandleManager, get}
use dumpulator.Handles.Manager
use dumpulator.Handles.File.{FileObject}
use dumpulator.Handles.File

pub data ConsoleType : Type 0 where
  console_in console_out console_err : ConsoleType

abbrev pub is_input : ConsoleType → Bool
is_input console_in = true
is_input _ = false

-- `file_offset` is an attribute once it was set.
pub record Console : Type 0 where
  pub console_type : ConsoleType
  pub lines : List (List ℕ)
  pub current_line : ℕ
  pub offset : Option ℕ

-- `bare_file` is an `AbstractFileObject` that is of no subclass, as handles of the minidump have.
pub data KernelObject : Type 0 where
  file_object : FileObject → KernelObject
  bare_file : (offset : Option ℕ) → KernelObject
  console_file : Console → KernelObject
  process_token : (process_handle : ℕ) → KernelObject
  other_object : KernelObject

-- `isinstance(data, AbstractFileObject)`
abbrev pub is_file : KernelObject → Bool
is_file (file_object f) = true
is_file (bare_file offset) = true
is_file (console_file c) = true
is_file _ = false

pub record Kernel (guest : MemoryAccess) : Type 0 where
  pub handles : HandleManager ℕ
  pub objects : ℕ → KernelObject
  pub next_reference : ℕ
  pub memory : guest.State
  pub x64 : Bool

-- `text + "\r\n"`, with the console after that
unfoldable pub read_console : (input : List ℕ) (size : ℕ) → Action Console (List ℕ)
read_console input size = do
  c ← gets (λ c. c)
  assert (is_input c.console_type)
  text ← (λ c. elim c.lines [
    | [] ↦ (ok input, c)
    | line ∷ lines ↦ elim (get_elem? c.lines c.current_line) [
      | none ↦ (raise assertion_error, c)
      | some text ↦ (ok text, record c { current_line = c.current_line + 1 })
    ]
  ])
  assert (ltb (length text + 2) size)
  pure (text ++ (13 ∷ 10 ∷ []))

module _ {guest : MemoryAccess} where
  unfoldable pub on_memory : {A : Type 0} → Action guest.State A → Action (Kernel guest) A
  on_memory f k = let (r, s) = f k.memory in (r, record k { memory = s })

  abbrev pub set_object : ℕ → KernelObject → Kernel guest → Kernel guest
  set_object reference object k = record k {
    objects = λ other. if reference == other then object else k.objects other;
  }

  -- `dp.handles.get(handle, AbstractFileObject)`
  unfoldable pub get_file : (handle : ℕ) → Action (Kernel guest) (Option ℕ)
  unfolding get
  get_file handle k =
      (get ℕ handle (some (λ reference. is_file (k.objects reference))) k.handles, k)

  -- `None` has no attribute of a file.
  unfoldable pub attribute_of : Option ℕ → Action (Kernel guest) ℕ
  attribute_of none = throw attribute_error
  attribute_of (some reference) = pure reference

  -- `dp.handles.new(object)` of a new object
  unfoldable pub new_object : KernelObject → Action (Kernel guest) ℕ
  new_object object k =
      let (r, handles) = Manager.new ℕ k.next_reference k.handles in
      (
        r,
        record (set_object k.next_reference object k) {
          handles = handles;
          next_reference = k.next_reference + 1;
        },
      )

  unfoldable pub write_ptr : (addr value : ℕ) → Action (Kernel guest) (Unit {0})
  unfolding on_memory
  write_ptr addr value k = on_memory (Architecture.write_ptr guest k.x64 addr value) k

  unfoldable pub read_ptr : (addr : ℕ) → Action (Kernel guest) ℕ
  unfolding on_memory
  read_ptr addr k = on_memory (Architecture.read_ptr guest k.x64 addr) k

  -- `IO_STATUS_BLOCK.write`; `&` clears the low 32 bits, where `|` puts the status.
  unfoldable pub write_io_status : (ptr status information : ℕ) → Action (Kernel guest) (Unit {0})
  unfolding read_ptr write_ptr
  write_io_status ptr status information = do
    pointer_data ← read_ptr ptr
    k ← gets (λ k. k)
    write_ptr ptr (pointer_data / 2 ^ 32 * 2 ^ 32 + status)
    write_ptr (ptr + ptr_size k.x64) information

  module _ (input : List ℕ) where
    -- `file.read(size)`
    unfoldable pub read_object : (reference size : ℕ) → Action (Kernel guest) (List ℕ)
    unfolding File.read read_console
    read_object reference size k = elim (k.objects reference) [
      | file_object f ↦
          let (bytes, f') = File.read (some size) f in
          (ok bytes, set_object reference (file_object f') k)
      | console_file c ↦
          let (r, c') = read_console input size c in (r, set_object reference (console_file c') k)
      | bare_file offset ↦ (raise not_implemented, k)
      | _ ↦ (raise attribute_error, k)
    ]

  -- `file.write(buffer, size)`; a console prints it.
  unfoldable pub write_object :
      (reference : ℕ) (buffer : List ℕ) (size : ℕ) → Action (Kernel guest) (Unit {0})
  unfolding File.write
  write_object reference buffer size k = elim (k.objects reference) [
    | file_object f ↦
        (ok tt, set_object reference (file_object (File.write buffer (some size) f)) k)
    | console_file c ↦ (if is_input c.console_type then (raise assertion_error, k) else (ok tt, k))
    | bare_file offset ↦ (raise not_implemented, k)
    | _ ↦ (raise attribute_error, k)
  ]

  -- `file.file_offset`
  unfoldable pub offset_of : (reference : ℕ) → Action (Kernel guest) ℕ
  offset_of reference k = elim (k.objects reference) [
    | file_object f ↦ (ok f.file_offset, k)
    | bare_file (some offset) ↦ (ok offset, k)
    | console_file c ↦ elim c.offset [
      | some offset ↦ (ok offset, k)
      | none ↦ (raise attribute_error, k)
    ]
    | _ ↦ (raise attribute_error, k)
  ]

  -- `file.file_offset = offset`
  unfoldable pub set_offset : (reference offset : ℕ) → Action (Kernel guest) (Unit {0})
  set_offset reference offset k = elim (k.objects reference) [
    | file_object f ↦
        (ok tt, set_object reference (file_object (record f { file_offset = offset })) k)
    | bare_file old ↦ (ok tt, set_object reference (bare_file (some offset)) k)
    | console_file c ↦
        (ok tt, set_object reference (console_file (record c { offset = some offset })) k)
    | _ ↦ (raise attribute_error, k)
  ]

  -- `0 if file.data is None else len(file.data)`
  unfoldable pub end_of_file : (reference : ℕ) → Action (Kernel guest) ℕ
  end_of_file reference k = elim (k.objects reference) [
    | file_object f ↦ (ok (elim f.bytes [ none ↦ 0 | some bytes ↦ length bytes ]), k)
    | _ ↦ (raise attribute_error, k)
  ]
