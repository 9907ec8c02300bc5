-- ===== src/Emulator/Frame.antt =====
-- dumpulator.py, native.py: what `handle_exception` writes to the stack for KiUserExceptionDispatcher. The bytes of
-- `CONTEXT` and `WOW64_CONTEXT` are laid out by ctypes, which is a parameter.
use dumpulator.Prelude.{
  ℕ, ◌+◌, ◌-◌, ◌%◌, ◌^◌, Bool, true, false, not, ◌&&◌, List, [], ◌∷◌, ◌++◌, replicate, length, ◌==◌,
  if◌then◌else◌,
}
use dumpulator.Outcome.{key_error, not_implemented, Result, ok, raise, Action, pure, ◌>>=◌, ◌>>◌}
use dumpulator.Native.Text.{Name, codes, set_attr}
use dumpulator.Native.Context.{Context, set_field}
use dumpulator.Native.Context
use dumpulator.Native.Wow64
use dumpulator.Native.Structs.{field, struct_bytes}
use dumpulator.Primitives.Control.{ptr_size}
use dumpulator.Primitives.Fields.{pack}
use dumpulator.Primitives.Architecture.{MemoryAccess, write_ulong, write_unsigned}
use dumpulator.Emulator.Exceptions.{
  ExceptionInfo, type_number, MemoryViolation, read_unmapped, write_unmapped, execute_unmapped,
  read_protect, write_protect, execute_protect, read_unaligned, write_unaligned, execute_unaligned,
}
use dumpulator.Registers.Access.{Cpu}

-- `from_buffer` and `bytes` of the two structures
pub record Ctypes : Type 0 where
  pub load_context : List ℕ → Context
  pub context_bytes : Context → List ℕ
  pub load_wow64 : List ℕ → Name → ℕ
  pub wow64_bytes : (Name → ℕ) → List ℕ

-- A `CONTEXT` or a `WOW64_CONTEXT`
pub data Thread : Type 0 where
  context64 : (context : Context) → Thread
  context32 : (fields : Name → ℕ) → Thread

abbrev pub context_size : (x64 : Bool) → ℕ
context_size x64 = if x64 then 0x4d0 else 0x2cc

abbrev pub allocation_size : (x64 : Bool) → ℕ
allocation_size x64 = if x64 then 0x720 else 0x4b8

module _ (ctypes : Ctypes) where
  -- The context in the bytes of the stack, with its flags and the registers
  unfoldable pub capture : (x64 : Bool) → List ℕ → (regs : Name → ℕ) → Thread
  unfolding Context.from_regs Wow64.from_regs set_attr
  capture x64 bytes regs =
      if x64
      then context64
          (Context.from_regs regs (record (ctypes.load_context bytes) { context_flags = 0x10005F }))
      else context32
          (Wow64.from_regs regs (set_attr (codes "ContextFlags") 0x1007F (ctypes.load_wow64 bytes)))

-- `Rip` or `Eip`
unfoldable pub instruction : Thread → ℕ
instruction (context64 c) = c.fields (codes "Rip")
instruction (context32 fields) = fields (codes "Eip")

-- `context.Rip -= 1` or `context.Eip -= 1`, in the width of the field
unfoldable pub step_back : Thread → Thread
unfolding set_attr
step_back (context64 c) =
    context64 (set_field (codes "Rip") (c.fields (codes "Rip") + (2 ^ 64 - 1)) c)
step_back (context32 fields) =
    context32 (set_attr (codes "Eip") ((fields (codes "Eip") + (2 ^ 32 - 1)) % 2 ^ 32) fields)

-- `CONTEXT_EX`, with an offset as `-context_size & 0xFFFFFFFF`
unfoldable pub context_ex : (x64 : Bool) → List ℕ
unfolding struct_bytes
context_ex x64 = struct_bytes (
    field 4 (2 ^ 32 - context_size x64)
    ∷ field 4 (if x64 then allocation_size true else 0x42C)
    ∷ field 4 (2 ^ 32 - context_size x64)
    ∷ field 4 (context_size x64)
    ∷ field 4 (if x64 then 0xF0 else 0x20)
    ∷ field 4 (if x64 then 0x160 else 0x140)
    ∷ [])

-- `EXCEPTION_RECORD64` or `EXCEPTION_RECORD32`; the other fields are 0.
pub record ExceptionRecord : Type 0 where
  pub code : ℕ
  pub address : ℕ
  pub number_parameters : ℕ
  pub first : ℕ
  pub second : ℕ

-- The address is cut to the field.
unfoldable pub record_bytes : (x64 : Bool) → ExceptionRecord → List ℕ
unfolding struct_bytes
record_bytes x64 r =
    let word = λ (value : ℕ). field (ptr_size x64) (value % 256 ^ ptr_size x64) in
    struct_bytes (
      field 4 r.code
      ∷ field 4 0
      ∷ word 0
      ∷ word r.address
      ∷ field 4 r.number_parameters
      ∷ word r.first
      ∷ word r.second
      ∷ replicate 13 (word 0))

-- `types[memory_violation]`
abbrev pub fault_kind : MemoryViolation → Result ℕ
fault_kind read_unmapped = ok 0
fault_kind write_unmapped = ok 1
fault_kind execute_unmapped = ok 0
fault_kind read_protect = ok 0
fault_kind write_protect = ok 1
fault_kind execute_protect = ok 8
fault_kind _ = raise key_error

-- `memory_violation in alignment_violations`
abbrev pub is_alignment : MemoryViolation → Bool
is_alignment read_unaligned = true
is_alignment write_unaligned = true
is_alignment execute_unaligned = true
is_alignment _ = false

module _ {cpu : Cpu} where
  -- The record of an exception, and the context with it
  unfoldable pub describe :
      ExceptionInfo cpu → (cip : ℕ) → Thread → Result (ExceptionRecord × Thread)
  unfolding step_back instruction
  describe x cip thread =
      if type_number x.type == 1 && not (is_alignment x.violation)
      then elim (fault_kind x.violation) [
        | raise e ↦ raise e
        | ok kind ↦ ok (
          record {
            code = 0xC0000005;
            address = cip;
            number_parameters = 2;
            first = kind;
            second = x.address;
          },
          thread,
        )
      ]
      else if type_number x.type == 2 && x.interrupt_number == 3
      then ok (
        record {
          code = 0x80000003;
          address = instruction (step_back thread);
          number_parameters = 1;
          first = 0;
          second = 0;
        },
        step_back thread,
      )
      else raise not_implemented

module _ (guest : MemoryAccess) (ctypes : Ctypes) where
  -- `write_stack`
  unfoldable pub write_stack : (cur_ptr : ℕ) → List ℕ → Action guest.State ℕ
  write_stack cur_ptr bytes = do guest.write cur_ptr bytes; pure (cur_ptr + length bytes)

  -- `Rsp` of a context is a number of 64 bits, as the address of a record for 64 bits.
  unfoldable pub write_frame64 :
      (csp : ℕ) → Context → ExceptionRecord → Action guest.State (Unit {0})
  unfolding write_stack context_ex record_bytes
  write_frame64 csp context r = do
    p₁ ← write_stack csp (ctypes.context_bytes context)
    p₂ ← write_stack p₁ (context_ex true)
    p₃ ← write_stack (p₂ + 8) (record_bytes true r)
    p₄ ← write_stack (p₃ + 8) (pack 8 r.address)
    p₅ ← write_stack (p₄ + 16) (pack 8 (context.fields (codes "Rsp")))
    p₆ ← write_stack (p₅ + 16) (pack 8 0 ++ (pack 4 4 ++ (pack 4 8 ++ replicate 48 0)))
    pure tt

  unfoldable pub write_frame32 :
      (csp : ℕ) → (fields : Name → ℕ) → ExceptionRecord → Action guest.State (Unit {0})
  unfolding write_stack context_ex record_bytes write_unsigned
  write_frame32 csp fields r = do
    write_ulong guest csp (csp + 8)
    p₁ ← write_stack (csp + 8) (record_bytes false r)
    write_ulong guest (csp + 4) p₁
    p₂ ← write_stack p₁ (ctypes.wow64_bytes fields)
    p₃ ← write_stack p₂ (context_ex false)
    pure tt

  unfoldable pub write_frame : (csp : ℕ) → Thread → ExceptionRecord → Action guest.State (Unit {0})
  unfolding write_frame64 write_frame32
  write_frame csp (context64 c) r = write_frame64 csp c r
  write_frame csp (context32 fields) r = write_frame32 csp fields r
