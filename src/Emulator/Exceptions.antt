-- ===== src/Emulator/Exceptions.antt =====
-- dumpulator.py: `ExceptionInfo`, and the parts of `Dumpulator` that the emulation loop and the engine's hooks
-- act on. `context_save` of unicorn saves the registers, `context_restore` sets them.
use dumpulator.Prelude.{ℕ, Bool, false, Option, none, List, ◌∷◌}
use dumpulator.Outcome.{Error, ok, Action}
use dumpulator.Primitives.Architecture.{MemoryAccess}
use dumpulator.Registers.Access.{Cpu}
use dumpulator.Registers.Stack.{Machine}

pub data ExceptionType : Type 0 where
  no_exception memory_exception interrupt_exception context_switch terminate : ExceptionType

pub data MemoryViolation : Type 0 where
  unknown read_unmapped write_unmapped execute_unmapped read_protect write_protect execute_protect
        read_unaligned write_unaligned execute_unaligned :
      MemoryViolation

-- Their values in the source.
abbrev pub type_number : ExceptionType → ℕ
type_number no_exception = 0
type_number memory_exception = 1
type_number interrupt_exception = 2
type_number context_switch = 3
type_number terminate = 4

abbrev pub violation_number : MemoryViolation → ℕ
violation_number unknown = 0
violation_number read_unmapped = 1
violation_number write_unmapped = 2
violation_number execute_unmapped = 3
violation_number read_protect = 4
violation_number write_protect = 5
violation_number execute_protect = 6
violation_number read_unaligned = 7
violation_number write_unaligned = 8
violation_number execute_unaligned = 9

-- A translation block of the engine: `pc`, `size` and `icount` of `ctl_request_cache`.
pub record Block : Type 0 where
  pub start : ℕ
  pub size : ℕ
  pub count : ℕ

-- `UnicornExceptionInfo`
pub record ExceptionInfo (cpu : Cpu) : Type 0 where
  pub type : ExceptionType
  pub violation : MemoryViolation
  pub address : ℕ
  pub size : ℕ
  pub value : ℕ
  pub interrupt_number : ℕ
  pub handling : Bool
  pub final : Bool
  pub code_hook : Option ℕ
  pub context : Option cpu.State
  pub block : Block
  pub step_count : ℕ

abbrev pub no_block : Block
no_block = record { start = 0; size = 0; count = 0 }

-- `UnicornExceptionInfo()`
abbrev pub no_info : (cpu : Cpu) → ExceptionInfo cpu
no_info cpu = record {
  type = no_exception;
  violation = unknown;
  address = 0;
  size = 0;
  value = 0;
  interrupt_number = 0;
  handling = false;
  final = false;
  code_hook = none;
  context = none;
  block = no_block;
  step_count = 0;
}

-- What the hooks ask of the engine.
pub data EngineCall : Type 0 where
  hook_add : (handle : ℕ) → EngineCall
  hook_del : (handle : ℕ) → EngineCall
  remove_cache : (first last : ℕ) → EngineCall
  emu_stop : EngineCall

-- `pending` is `_exception`, `last` is `_last_exception`; `tracing` says whether there is a `trace`. The
-- exception hook is a reference. The calls of the engine are recorded, the newest first.
pub record Emulator (cpu : Cpu) (guest : MemoryAccess) : Type 0 where
  pub machine : Machine cpu guest
  pub pending : ExceptionInfo cpu
  pub last : ExceptionInfo cpu
  pub stopped : Bool
  pub kill_exception : Option Error
  pub exit_code : Option ℕ
  pub exception_hook : Option ℕ
  pub tracing : Bool
  pub sequence_id : ℕ
  pub calls : List EngineCall

module _ {cpu : Cpu} {guest : MemoryAccess} where
  -- Registers and memory, with the rest as it is.
  unfoldable pub on_machine :
      {A : Type 0} → Action (Machine cpu guest) A → Action (Emulator cpu guest) A
  on_machine f e = let (r, m) = f e.machine in (r, record e { machine = m })

  abbrev pub ask : EngineCall → Emulator cpu guest → Emulator cpu guest
  ask call e = record e { calls = call ∷ e.calls }

  -- `set_exception_hook`
  unfoldable pub set_exception_hook : Option ℕ → Action (Emulator cpu guest) (Option ℕ)
  set_exception_hook hook e = (ok e.exception_hook, record e { exception_hook = hook })
