-- ===== src/Emulator/Dispatch.antt =====
-- dumpulator.py: `handle_exception`, which gives a pending exception to the user's hook or to the emulated
-- program, whose KiUserExceptionDispatcher finds it on its stack. The exception hook is called by its reference.
use dumpulator.Prelude.{
  ℕ, ◌-◌, Bool, true, not, Option, none, some, replicate, ltb, ◌==◌, if◌then◌else◌,
}
use dumpulator.Outcome.{
  uc_error, ok, raise, Action, pure, throw, gets, reads, modify, assert, ◌>>=◌, ◌>>◌,
}
use dumpulator.Native.Text.{Name, codes}
use dumpulator.Primitives.Architecture.{MemoryAccess}
use dumpulator.Registers.Access.{Cpu, get_attr}
use dumpulator.Registers.Stack.{Machine, on_memory, get_reg, set_reg}
use dumpulator.Emulator.Exceptions.{type_number, ExceptionInfo, no_info, Emulator, on_machine}
use dumpulator.Emulator.Frame.{
  Ctypes, Thread, capture, context_size, allocation_size, describe, write_frame,
}

module _ {cpu : Cpu} {guest : MemoryAccess} where
  -- `self._last_exception = self._exception` and `self._exception = UnicornExceptionInfo()`
  abbrev pub clear_pending : Emulator cpu guest → Emulator cpu guest
  clear_pending e = record e { last = e.pending; pending = no_info cpu }

  abbrev pub set_handling : Emulator cpu guest → Emulator cpu guest
  set_handling e = record e { pending = record e.pending { handling = true } }

-- `Registers.__getitem__`, for a name that is known
unfoldable pub register_value : (cpu : Cpu) (x64 old : Bool) → cpu.State → Name → ℕ
unfolding get_attr
register_value cpu x64 old s name = elim (get_attr cpu x64 old name s) [
  | raise e ↦ 0
  | ok value ↦ value
]

module _ (cpu : Cpu) (guest : MemoryAccess) (ctypes : Ctypes) (x64 old : Bool)
    (dispatcher : ℕ) where
  -- The stack pointer of the frame. Below address 0 there is no memory to write to.
  unfoldable pub open_frame : Action (Machine cpu guest) ℕ
  unfolding get_reg on_memory
  open_frame = do
    top ← get_reg cpu guest x64 old (codes "csp")
    if ltb top (allocation_size x64) then throw uc_error else pure tt
    on_memory (guest.write (top - allocation_size x64) (replicate (allocation_size x64) 0x69))
    pure (top - allocation_size x64)

  -- The context that the frame at `csp` begins with
  unfoldable pub capture_thread : (csp : ℕ) → Action (Machine cpu guest) Thread
  unfolding on_memory capture register_value
  capture_thread csp = do
    bytes ← on_memory (guest.read csp (context_size x64))
    m ← gets (λ m. m)
    pure (capture ctypes x64 bytes (register_value cpu x64 old m.registers))

  -- From the message on: the frame for the emulated program
  unfoldable pub deliver : Action (Emulator cpu guest) (Option ℕ)
  unfolding on_machine open_frame capture_thread get_reg describe on_memory write_frame set_reg
  deliver = do
    csp ← on_machine open_frame
    thread ← on_machine (capture_thread csp)
    cip ← on_machine (get_reg cpu guest x64 old (codes "cip"))
    e ← gets (λ e. e)
    described ← reads (λ _. describe e.pending cip thread)
    modify clear_pending
    on_machine (on_memory (write_frame guest ctypes csp described.1 described.0))
    on_machine (set_reg cpu guest x64 old (codes "csp") csp)
    pure (some dispatcher)

  -- What follows the exception hook
  unfoldable pub switch_or_deliver : Action (Emulator cpu guest) (Option ℕ)
  unfolding on_machine get_reg deliver
  switch_or_deliver = do
    e ← gets (λ e. e)
    if type_number e.pending.type == 3
        then (do
          modify clear_pending
          cip ← on_machine (get_reg cpu guest x64 old (codes "cip"))
          pure (some cip))
        else deliver

  module _ (call_hook : ℕ → ExceptionInfo cpu → Action (Emulator cpu guest) (Option ℕ)) where
    -- The call of the exception hook and what its result decides
    unfoldable pub ask_hook : (hook : ℕ) → Action (Emulator cpu guest) (Option ℕ)
    unfolding switch_or_deliver
    ask_hook hook = do
      e ← gets (λ e. e)
      result ← call_hook hook e.pending
      e' ← gets (λ e. e)
      if e'.stopped then pure none else elim result [
        | some cip ↦ (do modify clear_pending; pure (some cip))
        | none ↦ switch_or_deliver
      ]

    unfoldable pub handle_exception : Action (Emulator cpu guest) (Option ℕ)
    unfolding ask_hook switch_or_deliver
    handle_exception = do
      e ← gets (λ e. e)
      assert (not e.pending.handling)
      modify set_handling
      elim e.exception_hook [ some hook ↦ ask_hook hook | none ↦ switch_or_deliver ]
