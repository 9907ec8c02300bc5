-- ===== src/Primitives/Architecture.antt =====
-- ntprimitives.py: the numbers that `Architecture` reads from and writes to memory. Its `read` and
-- `write` are those of a subclass, so they are a parameter.
use dumpulator.Prelude.{
  ℕ, ◌^◌, ◌<◌, ◌≡◌, refl, sym, ◌∙◌, ap, Bool, true, List, length, ltb, if◌then◌else◌, arith,
}
use dumpulator.Outcome.{ok, struct_error, Action, pure, throw, ◌>>=◌}
use dumpulator.Primitives.Control.{unpack, ptr_size}
use dumpulator.Primitives.Fields.{pack, length-pack, unpack-pack}

pub record MemoryAccess : Type 1 where
  pub State : Type 0
  pub read : (addr size : ℕ) → Action State (List ℕ)
  pub write : (addr : ℕ) → List ℕ → Action State (Unit {0})

module _ (memory : MemoryAccess) where
  open memory use {State}

  -- `struct.unpack("<…", self.read(addr, size))` for an unsigned number of `size` bytes
  unfoldable pub read_unsigned : (size addr : ℕ) → Action State ℕ
  read_unsigned size addr = do bytes ← memory.read addr size; pure (unpack bytes)

  -- `self.write(addr, struct.pack("<…", value))`; `pack` refuses a value that does not fit.
  unfoldable pub write_unsigned : (size addr value : ℕ) → Action State (Unit {0})
  write_unsigned size addr value =
      if ltb value (256 ^ size) then memory.write addr (pack size value) else throw struct_error

  abbrev pub read_byte : (addr : ℕ) → Action State ℕ
  read_byte = read_unsigned 1

  abbrev pub read_ushort : (addr : ℕ) → Action State ℕ
  read_ushort = read_unsigned 2

  abbrev pub read_ulong : (addr : ℕ) → Action State ℕ
  read_ulong = read_unsigned 4

  unfoldable pub read_ptr : (x64 : Bool) (addr : ℕ) → Action State ℕ
  unfolding read_unsigned
  read_ptr x64 = read_unsigned (ptr_size x64)

  abbrev pub write_byte : (addr value : ℕ) → Action State (Unit {0})
  write_byte = write_unsigned 1

  abbrev pub write_ushort : (addr value : ℕ) → Action State (Unit {0})
  write_ushort = write_unsigned 2

  abbrev pub write_ulong : (addr value : ℕ) → Action State (Unit {0})
  write_ulong = write_unsigned 4

  unfoldable pub write_ptr : (x64 : Bool) (addr value : ℕ) → Action State (Unit {0})
  unfolding write_unsigned
  write_ptr x64 = write_unsigned (ptr_size x64)

  -- Bytes that were written are read at their address.
  unfoldable pub IsMemory : Type 0
  IsMemory =
      (addr : ℕ) (bytes : List ℕ) (s s' : State)
      → memory.write addr bytes s ≡ (ok tt, s')
      → (memory.read addr (length bytes) s').0 ≡ ok bytes

  module _ (law : IsMemory) where
    read_packed :
        (size addr value : ℕ) (s s' : State)
        → value < 256 ^ size
        → memory.write addr (pack size value) s ≡ (ok tt, s')
        → (read_unsigned size addr s').0 ≡ ok value
    unfolding read_unsigned IsMemory
    read_packed size addr value s s' fits written =
        let bytes : (memory.read addr size s').0 ≡ ok (pack size value) =
          ap (λ (n : ℕ). (memory.read addr n s').0) (sym (length-pack size value))
          ∙ law addr (pack size value) s s' written in
        rw (bytes, unpack-pack size value fits) refl

    -- If memory gives back what was written: after a write of a number that fits a pointer of the
    -- architecture, and that succeeds, `read_ptr` at the address gives the number back.
    pub read_ptr-write_ptr :
        (x64 : Bool) (addr value : ℕ) (s s' : State)
        → value < 256 ^ ptr_size x64
        → write_ptr x64 addr value s ≡ (ok tt, s')
        → (read_ptr x64 addr s').0 ≡ ok value
    unfolding write_ptr write_unsigned read_ptr
    read_ptr-write_ptr x64 addr value s s' fits written =
        let small : ltb value (256 ^ ptr_size x64) ≡ true = ground arith in
        read_packed (ptr_size x64) addr value s s' fits (rw small at written)
