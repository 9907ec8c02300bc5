-- ===== src/Emulator/Run.antt =====
-- dumpulator.py: `start`, over what the engine does. One call of `emu_start` is a round: the events that happen while
-- the engine emulates, in their order, and how it ends. A hook that raises ends the round with its exception.
use dumpulator.Prelude.{
  ℕ, ◌+◌, ◌-◌, ◌^◌, Bool, false, Option, none, some, List, [], ◌∷◌, is_some, ◌==◌, if◌then◌else◌,
}
use dumpulator.Outcome.{
  uc_error, Result, ok, raise, Action, pure, throw, gets, modify, assert, ◌>>=◌, ◌>>◌,
}
use dumpulator.Native.Text.{codes}
use dumpulator.Primitives.Architecture.{MemoryAccess}
use dumpulator.Registers.Access.{Cpu}
use dumpulator.Registers.Stack.{Machine, get_reg}
use dumpulator.Emulator.Exceptions.{Block, no_info, Emulator, on_machine, type_number}
use dumpulator.Emulator.Hooks.{
  Fault, is_idle, hook_mem, hook_code_exception, hook_interrupt, hook_invalid,
}
use dumpulator.Emulator.Syscall.{Tables, hook_syscall}

-- What happens while the engine emulates: instructions that change the machine, and the calls of the hooks.
pub data Event (cpu : Cpu) (guest : MemoryAccess) : Type 0 where
  executes : (machine : Machine cpu guest) → Event cpu guest
  faults : (fault : Fault) (block : Block) (handle : ℕ) → Event cpu guest
  steps : Event cpu guest
  interrupts : (interrupt_number : ℕ) (block : Block) → Event cpu guest
  calls_system : Event cpu guest
  is_invalid : (emulated : Result Bool) → Event cpu guest

-- `engine_error` if the engine raises UcError.
pub record Round (cpu : Cpu) (guest : MemoryAccess) : Type 0 where
  pub events : List (Event cpu guest)
  pub engine_error : Bool

-- How `start` returns, or that it still runs when the given rounds are over
pub data Ending : Type 0 where
  returned still_running : Ending

-- What to do before the engine starts: `break`, or the arguments of `emu_start`
pub data Plan : Type 0 where
  leave : Plan
  emulate : (begin until count : ℕ) → Plan

-- The parts of the emulator that other components and libraries are: lazy pages, the system calls, and
-- `handle_exception`.
pub record Parts (cpu : Cpu) (guest : MemoryAccess) : Type 0 where
  pub commit_lazy : (address size : ℕ) → Action guest.State Bool
  pub tables : Tables cpu guest
  pub handle_exception : Action (Emulator cpu guest) (Option ℕ)

module _ (cpu : Cpu) (guest : MemoryAccess) (x64 old wow64 : Bool) (parts : Parts cpu guest) where
  unfoldable pub happen : Event cpu guest → Action (Emulator cpu guest) (Unit {0})
  unfolding hook_mem hook_code_exception hook_interrupt hook_syscall hook_invalid
  happen (executes machine) = modify (λ e. record e { machine = machine })
  happen (faults fault block handle) = do hook_mem parts.commit_lazy fault block handle; pure tt
  happen steps = hook_code_exception
  happen (interrupts interrupt_number block) = do hook_interrupt interrupt_number block; pure tt
  happen calls_system = hook_syscall cpu guest x64 old wow64 parts.tables
  happen (is_invalid emulated) = do hook_invalid emulated; pure tt

  unfoldable pub happen_all : List (Event cpu guest) → Action (Emulator cpu guest) (Unit {0})
  unfolding happen
  happen_all [] = pure tt
  happen_all (event ∷ events) = do happen event; happen_all events

  unfoldable pub emu_start : Round cpu guest → Action (Emulator cpu guest) (Unit {0})
  unfolding happen_all
  emu_start round = do
    happen_all round.events
    if round.engine_error then throw uc_error else pure tt

  -- `context_restore`
  abbrev pub context_restore : cpu.State → Emulator cpu guest → Emulator cpu guest
  context_restore context e = record e { machine = record e.machine { registers = context } }

  abbrev pub restore_if : Option cpu.State → Emulator cpu guest → Emulator cpu guest
  restore_if none e = e
  restore_if (some context) e = context_restore context e

  -- The inner `try`: `except Exception` takes every exception, and the loop ends.
  unfoldable pub dispatch : (end : ℕ) → Emulator cpu guest → Plan × Emulator cpu guest
  dispatch end e =
      let (r, e') = parts.handle_exception e in
      (
        elim r [
          | raise x ↦ leave
          | ok none ↦ leave
          | ok (some begin) ↦ (if e'.stopped then leave else emulate begin end 0)
        ],
        e',
      )

  -- A pending exception that is final
  unfoldable pub plan_final : (end : ℕ) → Action (Emulator cpu guest) Plan
  unfolding dispatch
  plan_final end = do
    modify (λ e. restore_if e.pending.context e)
    e ← gets (λ e. e)
    if type_number e.pending.type == 4
        then pure leave
        else (λ e. let (p, e') = dispatch end e in (ok p, e'))

  -- A pending exception whose block is emulated once more
  unfoldable pub plan_restart : Action (Emulator cpu guest) Plan
  unfolding on_machine get_reg
  plan_restart = do
    e ← gets (λ e. e)
    assert (e.pending.step_count == 0)
    assert (is_some e.pending.code_hook)
    assert (is_some e.pending.context)
    modify (restore_if e.pending.context)
    cip ← on_machine (get_reg cpu guest x64 old (codes "cip"))
    pure (emulate cip (2 ^ 64 - 1) (e.pending.block.count + 1))

  -- The body of the loop up to `emu_start`, with the arguments of `emu_start` so far
  unfoldable pub plan : (end : ℕ) → Plan → Action (Emulator cpu guest) Plan
  unfolding plan_final plan_restart
  plan end so_far = do
    e ← gets (λ e. e)
    if is_idle e.pending
        then pure so_far
        else if e.pending.final
        then plan_final end
        else plan_restart

  -- `except UcError`: none goes on with the loop.
  unfoldable pub after_error : Action (Emulator cpu guest) (Option Ending)
  after_error = do
    e ← gets (λ e. e)
    elim e.kill_exception [
      | some uc_error ↦ pure (if is_idle e.pending then some returned else none)
      | some exc ↦ throw exc
      | none ↦ pure (if is_idle e.pending then some returned else none)
    ]

  -- How a round ends, by what the engine returned or raised
  unfoldable pub settle : Result (Unit {0}) → Action (Emulator cpu guest) (Option Ending)
  unfolding after_error
  settle (ok _) = pure (some returned)
  settle (raise uc_error) = after_error
  settle (raise exc) = throw exc

  -- `try` around the engine
  unfoldable pub run_round : Round cpu guest → Action (Emulator cpu guest) (Option Ending)
  unfolding emu_start settle
  run_round round e = let (r, e') = emu_start round e in settle r e'

  -- The test of the loop, and its body up to `emu_start`
  unfoldable pub turn : (end : ℕ) → Plan → Action (Emulator cpu guest) Plan
  unfolding plan
  turn end so_far = do e ← gets (λ e. e); if e.stopped then pure leave else plan end so_far

  -- `break`, or what follows
  abbrev pub unless_left :
      Plan → Action (Emulator cpu guest) Ending → Action (Emulator cpu guest) Ending
  unless_left leave f = pure returned
  unless_left (emulate begin until count) f = f

  abbrev pub unless_ended :
      Option Ending → Action (Emulator cpu guest) Ending → Action (Emulator cpu guest) Ending
  unless_ended (some ending) f = pure ending
  unless_ended none f = f

  -- The loop; what is left of the rounds is not used.
  unfoldable pub run_rounds :
      (end : ℕ) → Plan → List (Round cpu guest) → Action (Emulator cpu guest) Ending
  unfolding turn run_round
  run_rounds end so_far [] = do next ← turn end so_far; unless_left next (pure still_running)
  run_rounds end so_far (round ∷ rounds) = do
    next ← turn end so_far
    unless_left next
        (do outcome ← run_round round; unless_ended outcome (run_rounds end next rounds))

  unfoldable pub start :
      (begin end count : ℕ) → List (Round cpu guest) → Action (Emulator cpu guest) Ending
  unfolding run_rounds
  start begin end count rounds = do
    modify (λ e. record e {
      stopped = false;
      kill_exception = none;
      exit_code = none;
      pending = no_info cpu;
    })
    run_rounds end (emulate begin end count) rounds
