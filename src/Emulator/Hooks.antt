-- ===== src/Emulator/Hooks.antt =====
-- dumpulator.py: `stop`, `raise_kill` and the hooks that the engine calls. What the engine and other
-- libraries answer is an argument: the translation block, the handle of a new hook, and whether an unsupported
-- instruction was emulated. So is `handle_lazy_page`.
use dumpulator.Prelude.{
  ℕ, ◌+◌, ◌-◌, Bool, true, false, not, ◌&&◌, ◌||◌, Option, none, some, is_some, ◌∷◌, leb, ◌==◌,
  if◌then◌else◌,
}
use dumpulator.Outcome.{
  Error, not_implemented, uc_error, exception, Result, ok, raise, Action, pure, throw, gets, modify,
  assert, ◌>>=◌, ◌>>◌,
}
use dumpulator.Native.Text.{codes}
use dumpulator.Memory.Protect.{page_size}
use dumpulator.Pages.Lazy.{smaller}
use dumpulator.Primitives.Architecture.{MemoryAccess}
use dumpulator.Registers.Access.{Cpu}
use dumpulator.Registers.Stack.{on_memory, set_reg, user_cave}
use dumpulator.Emulator.Exceptions.{
  memory_exception, interrupt_exception, context_switch, type_number, MemoryViolation, unknown,
  read_unmapped, write_unmapped, execute_unmapped, read_protect, write_protect, execute_protect,
  violation_number, Block, no_block, ExceptionInfo, no_info, hook_add, hook_del, remove_cache,
  emu_stop, Emulator, on_machine, ask,
}

-- `UC_MEM_READ` and its kin
pub data Access : Type 0 where
  mem_read mem_write mem_fetch mem_read_unmapped mem_write_unmapped mem_fetch_unmapped
        mem_write_prot mem_read_prot mem_fetch_prot mem_read_after :
      Access

abbrev pub is_fetch : Access → Bool
is_fetch mem_fetch = true
is_fetch mem_fetch_prot = true
is_fetch mem_fetch_unmapped = true
is_fetch _ = false

abbrev pub is_fetch_unmapped : Access → Bool
is_fetch_unmapped mem_fetch_unmapped = true
is_fetch_unmapped _ = false

abbrev pub violation_of : Access → MemoryViolation
violation_of mem_read_unmapped = read_unmapped
violation_of mem_write_unmapped = write_unmapped
violation_of mem_fetch_unmapped = execute_unmapped
violation_of mem_read_prot = read_protect
violation_of mem_write_prot = write_protect
violation_of mem_fetch_prot = execute_protect
violation_of _ = unknown

-- `FORCE_KILL_ADDR`
abbrev pub force_kill_addr : ℕ
force_kill_addr = user_cave - 0x20

-- The arguments of `_hook_mem`.
pub record Fault : Type 0 where
  pub access : Access
  pub address : ℕ
  pub size : ℕ
  pub value : ℕ

module _ {cpu : Cpu} where
  abbrev pub is_idle : ExceptionInfo cpu → Bool
  is_idle x = type_number x.type == 0

  -- The assertions that the second report is of the same access
  abbrev pub same_fault : ExceptionInfo cpu → ExceptionInfo cpu → Bool
  same_fault x y =
      violation_number x.violation == violation_number y.violation
      && (x.address == y.address && (x.size == y.size && x.value == y.value))

module _ {cpu : Cpu} {guest : MemoryAccess} where
  unfoldable pub stop : (exit_code : Option ℕ) → Emulator cpu guest → Emulator cpu guest
  stop exit_code e = ask emu_stop (record e { exit_code = exit_code; stopped = true })

  -- The exception that `_hook_mem` reports
  abbrev pub fault_info : Fault → Block → Emulator cpu guest → ExceptionInfo cpu
  fault_info f block e = record (no_info cpu) {
    type = memory_exception;
    violation = violation_of f.access;
    address = f.address;
    size = f.size;
    value = f.value;
    context = some e.machine.registers;
    block = if is_fetch f.access then no_block else block;
  }

  -- `uc.hook_del(code_hook_h)` and `code_hook_h = None`
  abbrev pub delete_hook : Emulator cpu guest → Emulator cpu guest
  delete_hook e = elim e.pending.code_hook [ none ↦ e | some handle ↦ ask (hook_del handle) e ]

  -- The report of an access at the second chance, or when there is a trace
  unfoldable pub report_final : ExceptionInfo cpu → Action (Emulator cpu guest) Bool
  report_final x = do
    e ← gets (λ e. e)
    assert (e.tracing || same_fault x e.pending)
    modify (λ e. if e.tracing then e else delete_hook e)
    modify (λ e. ask emu_stop (record e { pending = record x { final = true } }))
    pure false

  abbrev pub drop_cache : Block → Emulator cpu guest → Emulator cpu guest
  drop_cache b e = record e {
    calls = if b.start == 0 then e.calls else remove_cache b.start (b.start + b.size) ∷ e.calls;
  }

  -- The report of an access at the first chance
  unfoldable pub report_first : (handle : ℕ) → ExceptionInfo cpu → Action (Emulator cpu guest) Bool
  report_first handle x = do
    e ← gets (λ e. e)
    assert (is_idle e.pending)
    modify (λ e. ask (hook_add handle) (drop_cache x.block e))
    modify (λ e. ask emu_stop (record e { pending = record x { code_hook = some handle } }))
    pure false

  -- `_hook_mem`, when the access is not of a lazy page
  unfoldable pub report_fault : Fault → Block → (handle : ℕ) → Action (Emulator cpu guest) Bool
  unfolding report_final report_first
  report_fault f block handle = do
    e ← gets (λ e. e)
    if e.stopped
          && (is_fetch_unmapped f.access
              && (leb (force_kill_addr - 0x10) f.address && leb f.address (force_kill_addr + 0x10)))
        then pure false
        else (if e.pending.final && is_fetch f.access then pure false else (do
          assert (not (violation_number (violation_of f.access) == 0))
          if e.tracing || is_some e.pending.code_hook
              then report_final (fault_info f block e)
              else report_first handle (fault_info f block e)))

  -- `_hook_code_exception`
  unfoldable pub hook_code_exception : Action (Emulator cpu guest) (Unit {0})
  hook_code_exception = do
    modify (λ e. record e { pending = record e.pending { step_count = e.pending.step_count + 1 } })
    e ← gets (λ e. e)
    if leb e.pending.block.count e.pending.step_count then throw exception else pure tt

  -- The exception that `_hook_interrupt` reports
  abbrev pub interrupt_info : (number : ℕ) → Block → Emulator cpu guest → ExceptionInfo cpu
  interrupt_info number block e = record (no_info cpu) {
    type = interrupt_exception;
    interrupt_number = number;
    context = some e.machine.registers;
    block = block;
    final = true;
  }

  -- `_hook_interrupt` always raises.
  unfoldable pub hook_interrupt : (number : ℕ) → Block → Action (Emulator cpu guest) Bool
  hook_interrupt number block = do
    e ← gets (λ e. e)
    assert (is_idle e.pending)
    modify (λ e. record e { pending = interrupt_info number block e })
    throw uc_error

  -- `_hook_invalid`, for an instruction whose emulation has the outcome `emulated`
  unfoldable pub hook_invalid : (emulated : Result Bool) → Action (Emulator cpu guest) Bool
  hook_invalid emulated e = if e.stopped then (ok false, e) else elim emulated [
    | raise x ↦ (raise not_implemented, e)
    | ok false ↦ (raise not_implemented, e)
    | ok true ↦
        (if is_idle e.pending
          then (
            ok false,
            record e { pending = record (no_info cpu) { type = context_switch; final = true } },
          )
          else (raise not_implemented, e))
  ]

module _ {cpu : Cpu} {guest : MemoryAccess}
    (commit_lazy : (address size : ℕ) → Action guest.State Bool) where
  -- `_hook_mem`
  unfoldable pub hook_mem : Fault → Block → (handle : ℕ) → Action (Emulator cpu guest) Bool
  unfolding on_machine on_memory report_fault
  hook_mem f block handle = do
    committed ← on_machine (on_memory (commit_lazy f.address (smaller f.size page_size)))
    if committed then pure true else report_fault f block handle

module _ (cpu : Cpu) (guest : MemoryAccess) (x64 old : Bool) where
  -- `raise dp.raise_kill(exc)`
  unfoldable pub raise_kill : {A : Type 0} → Error → Action (Emulator cpu guest) A
  unfolding on_machine set_reg stop
  raise_kill exc = do
    on_machine (set_reg cpu guest x64 old (codes "cip") force_kill_addr)
    modify (stop none)
    modify (λ e. record e { kill_exception = some exc })
    throw exc
