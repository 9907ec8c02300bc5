-- ===== src/Emulator/Syscall.antt =====
-- dumpulator.py: `_hook_syscall`. An entry of a table has what `inspect` tells of the arguments of its
-- implementation, and the implementation, which is a function of the system-call modules.
use dumpulator.Prelude.{
  ℕ, ◌+◌, ◌/◌, ◌%◌, ◌^◌, Bool, true, false, ◌&&◌, Option, none, some, List, [], ◌∷◌, ◌==◌,
  get_elem?, if◌then◌else◌,
}
use dumpulator.Prelude.Int.{ℤ, pos}
use dumpulator.Outcome.{
  index_error, not_implemented, uc_error, value_error, Result, ok, raise, Action, pure, throw,
  reads, modify, ◌>>=◌, ◌>>◌,
}
use dumpulator.Native.Text.{codes}
use dumpulator.Primitives.Architecture.{MemoryAccess}
use dumpulator.Registers.Access.{Cpu}
use dumpulator.Registers.Stack.{get_reg, set_reg, get_argument}
use dumpulator.Emulator.Exceptions.{ExceptionInfo, Emulator, on_machine}
use dumpulator.Emulator.Hooks.{raise_kill}

-- The type of an argument: a pointer, an `Enum` with its values, or a type of numbers, which converts
pub data Kind : Type 0 where
  pointer : Kind
  enumeration : (values : List ℕ) → Kind
  number : (convert : ℕ → ℤ) → Kind

-- What an implementation returns: a status, or an `ExceptionInfo`
pub data Answer (cpu : Cpu) : Type 0 where
  status : (value : ℕ) → Answer cpu
  switches : (info : ExceptionInfo cpu) → Answer cpu

pub record Service (cpu : Cpu) (guest : MemoryAccess) : Type 0 where
  pub kinds : List Kind
  pub implementation : Option (List ℤ → Action (Emulator cpu guest) (Answer cpu))

-- `syscalls` and `win32k_syscalls`
pub record Tables (cpu : Cpu) (guest : MemoryAccess) : Type 0 where
  pub syscalls : List (Service cpu guest)
  pub win32k_syscalls : List (Service cpu guest)

unfoldable pub is_value : List ℕ → (value : ℕ) → Bool
is_value [] value = false
is_value (v ∷ vs) value = let rest = is_value vs value in if v == value then true else rest

-- An `Enum` raises ValueError for a number that is none of its values, and the handler is for KeyError.
unfoldable pub convert_argument : Kind → (value : ℕ) → Result ℤ
unfolding is_value
convert_argument pointer value = ok (pos value)
convert_argument (enumeration values) value =
    if is_value values (value % 2 ^ 32) then ok (pos (value % 2 ^ 32)) else raise value_error
convert_argument (number convert) value = ok (convert value)

module _ {cpu : Cpu} {guest : MemoryAccess} where
  abbrev pub table_of : Tables cpu guest → (table_number : ℕ) → List (Service cpu guest)
  table_of tables table_number =
      if table_number == 0
      then tables.syscalls
      else if table_number == 1
      then tables.win32k_syscalls
      else []

module _ (cpu : Cpu) (guest : MemoryAccess) (x64 old wow64 : Bool) where
  unfoldable pub syscall_arg : (index : ℕ) → Action (Emulator cpu guest) ℕ
  unfolding on_machine get_reg get_argument
  syscall_arg i =
      let index = if wow64 then i + 1 else i in
      if index == 0 && x64
      then on_machine (get_reg cpu guest x64 old (codes "r10"))
      else on_machine (get_argument cpu guest x64 old index)

  unfoldable pub syscall_args : (index : ℕ) → List Kind → Action (Emulator cpu guest) (List ℤ)
  unfolding syscall_arg convert_argument
  syscall_args index [] = pure []
  syscall_args index (kind ∷ kinds) = do
    value ← syscall_arg index
    arg ← reads (λ _. convert_argument kind value)
    args ← syscall_args (index + 1) kinds
    pure (arg ∷ args)

  -- The status for the emulated program
  unfoldable pub set_status : (value : ℕ) → Action (Emulator cpu guest) (Unit {0})
  unfolding on_machine get_reg set_reg
  set_status value = do
    on_machine (set_reg cpu guest x64 old (codes "cax") value)
    if x64
        then (do
          cip ← on_machine (get_reg cpu guest x64 old (codes "cip"))
          on_machine (set_reg cpu guest x64 old (codes "rcx") (cip + 2))
          eflags ← on_machine (get_reg cpu guest x64 old (codes "eflags"))
          on_machine (set_reg cpu guest x64 old (codes "r11") eflags))
        else (do
          eip ← on_machine (get_reg cpu guest x64 old (codes "eip"))
          on_machine (set_reg cpu guest x64 old (codes "eip") (eip + 2)))

  unfoldable pub give_answer : Answer cpu → Action (Emulator cpu guest) (Unit {0})
  unfolding set_status
  give_answer (status value) = set_status value
  give_answer (switches info) = do modify (λ e. record e { pending = info }); throw uc_error

  -- `except`: an error of the engine is raised again, any other ends the emulation.
  unfoldable pub leave_call : Result (Unit {0}) → Action (Emulator cpu guest) (Unit {0})
  unfolding raise_kill
  leave_call (ok _) = pure tt
  leave_call (raise uc_error) = throw uc_error
  leave_call (raise exc) = raise_kill cpu guest x64 old exc

  -- The `try` with its `finally`
  unfoldable pub run_service :
      (List ℤ → Action (Emulator cpu guest) (Answer cpu))
      → List ℤ
      → Action (Emulator cpu guest) (Unit {0})
  unfolding give_answer leave_call
  run_service implementation args e =
      let (r, e₁) = (implementation args >>= give_answer) e in
      let (r', e₂) = leave_call r e₁ in (r', record e₂ { sequence_id = e₂.sequence_id + 1 })

  unfoldable pub serve : Service cpu guest → Action (Emulator cpu guest) (Unit {0})
  unfolding syscall_args run_service raise_kill
  serve service = elim service.implementation [
    | none ↦ raise_kill cpu guest x64 old not_implemented
    | some implementation ↦ (do
      args ← syscall_args 0 service.kinds
      run_service implementation args)
  ]

  unfoldable pub hook_syscall : Tables cpu guest → Action (Emulator cpu guest) (Unit {0})
  unfolding on_machine get_reg serve raise_kill
  hook_syscall tables = do
    cax ← on_machine (get_reg cpu guest x64 old (codes "cax"))
    elim (get_elem? (table_of tables (cax % 2 ^ 16 / 2 ^ 12 % 16)) (cax % 2 ^ 16 % 2 ^ 12)) [
      | none ↦ raise_kill cpu guest x64 old index_error
      | some service ↦ serve service
    ]
