-- ===== src/Emulator/Terminate.antt =====
-- ntsyscalls.py: `ZwTerminateProcess`, and how it ends `start`.
use dumpulator.Prelude.{
  ℕ, ◌+◌, ◌/◌, ◌%◌, ◌^◌, ◌≡◌, refl, ◌∙◌, inl, inr, Bool-cases, Bool, true, none, some, List, [],
  ◌∷◌, get_elem?, ◌==◌, ◌||◌, if◌then◌else◌,
}
use dumpulator.Prelude.Int.{ℤ}
use dumpulator.Outcome.{
  uc_error, ok, raise, Action, pure, gets, modify, assert, bind_ok, ◌>>=◌, ◌>>◌,
}
use dumpulator.Native.Text.{codes}
use dumpulator.Primitives.Architecture.{MemoryAccess}
use dumpulator.Registers.Access.{Cpu, get_attr}
use dumpulator.Registers.Stack.{Machine, get_reg}
use dumpulator.Emulator.Exceptions.{
  terminate, ExceptionInfo, no_info, emu_stop, Emulator, on_machine,
}
use dumpulator.Emulator.Hooks.{stop}
use dumpulator.Emulator.Syscall.{
  Answer, switches, Service, table_of, syscall_args, give_answer, leave_call, run_service, serve,
  hook_syscall,
}
use dumpulator.Emulator.Run.{
  executes, calls_system, Round, returned, emulate, Parts, happen, happen_all, emu_start,
  after_error, settle, run_round, turn, plan, run_rounds, start,
}
use dumpulator.Emulator.Ready.{IsReady, final-IsReady}
use dumpulator.Emulator.Looping.{AnswersReady}
use dumpulator.Emulator.Chances.{begun}

module _ (cpu : Cpu) (guest : MemoryAccess) (x64 : Bool) where
  -- `dp.NtCurrentProcess()`
  abbrev pub current_process : ℕ
  current_process = if x64 then 0xFFFFFFFFFFFFFFFF else 0xFFFFFFFF

  -- The exception that ends the emulation
  abbrev pub terminate_info : Emulator cpu guest → ExceptionInfo cpu
  terminate_info e = record (no_info cpu) {
    type = terminate;
    final = true;
    context = some e.machine.registers;
  }

  unfoldable pub zw_terminate_process :
      (process_handle exit_status : ℕ) → Action (Emulator cpu guest) (Answer cpu)
  unfolding stop
  zw_terminate_process process_handle exit_status = do
    assert (process_handle == 0 || process_handle == current_process)
    modify (stop (some exit_status))
    e ← gets (λ e. e)
    pure (switches (terminate_info e))

  -- The emulator when `start` returns because of it
  abbrev pub terminated : (exit_status : ℕ) → Emulator cpu guest → Emulator cpu guest
  terminated exit_status e = record e {
    pending = terminate_info e;
    exit_code = some exit_status;
    stopped = true;
    sequence_id = e.sequence_id + 1;
    calls = emu_stop ∷ e.calls;
  }

  -- The exception that it returns is ready, and so is the pending one if it was before.
  pub zw_terminate_process-IsReady :
      (process_handle exit_status : ℕ) (e : Emulator cpu guest)
      → IsReady e.pending
      → IsReady (zw_terminate_process process_handle exit_status e).1.pending
        × AnswersReady (zw_terminate_process process_handle exit_status e).0
  unfolding zw_terminate_process stop
  zw_terminate_process-IsReady process_handle exit_status e v =
      elim (Bool-cases (process_handle == 0 || process_handle == current_process)) [
        | inl own ↦ rw own (v, final-IsReady (terminate_info e) refl)
        | inr other ↦ rw other (v, tt)
      ]

  module _ (old wow64 : Bool) where
    service_ends :
        (f : List ℤ → Action (Emulator cpu guest) (Answer cpu)) (args : List ℤ)
        (process_handle exit_status : ℕ) (e : Emulator cpu guest)
        → f args ≡ zw_terminate_process process_handle exit_status
        → (process_handle == 0 || process_handle == current_process) ≡ true
        → run_service cpu guest x64 old wow64 f args e ≡ (raise uc_error, terminated exit_status e)
    unfolding run_service give_answer leave_call zw_terminate_process stop
    service_ends f args process_handle exit_status e is_this own = rw (is_this, own) refl

    -- A system call of the program whose implementation is that call, for the service and arguments that the tables
    -- and registers give
    pub record Terminates (parts : Parts cpu guest) (e e' : Emulator cpu guest)
        (service : Service cpu guest) (args : List ℤ) (exit_status : ℕ) : Type 0 where
      pub cax : ℕ
      pub process_handle : ℕ
      pub f : List ℤ → Action (Emulator cpu guest) (Answer cpu)
      pub number : get_attr cpu x64 old (codes "cax") e.machine.registers ≡ ok cax
      pub found :
          get_elem? (table_of parts.tables (cax % 2 ^ 16 / 2 ^ 12 % 16)) (cax % 2 ^ 16 % 2 ^ 12)
          ≡ some service
      pub implemented : service.implementation ≡ some f
      pub arguments : syscall_args cpu guest x64 old wow64 0 service.kinds e ≡ (ok args, e')
      pub is_this : f args ≡ zw_terminate_process process_handle exit_status
      pub own : (process_handle == 0 || process_handle == current_process) ≡ true

    hook_ends :
        (parts : Parts cpu guest) (e e' : Emulator cpu guest) (service : Service cpu guest)
        (args : List ℤ) (exit_status : ℕ)
        → Terminates parts e e' service args exit_status
        → hook_syscall cpu guest x64 old wow64 parts.tables e
          ≡ (raise uc_error, terminated exit_status e')
    unfolding hook_syscall on_machine get_reg serve
    hook_ends parts e e' service args exit_status t =
        bind_ok (on_machine (get_reg cpu guest x64 old (codes "cax"))) _ e e t.cax
          (rw t.number refl)
        ∙ rw (t.found, t.implemented)
            (bind_ok (syscall_args cpu guest x64 old wow64 0 service.kinds) _ e e' args t.arguments
              ∙ service_ends t.f args t.process_handle exit_status e' t.is_this t.own)

    round_ends :
        (parts : Parts cpu guest) (m : Machine cpu guest) (engine_error : Bool)
        (e e' : Emulator cpu guest) (service : Service cpu guest) (args : List ℤ) (exit_status : ℕ)
        → Terminates parts (begun m e) e' service args exit_status
        → e'.kill_exception ≡ none
        → run_round cpu guest x64 old wow64 parts
            (record { events = executes m ∷ calls_system ∷ []; engine_error = engine_error })
            (begun e.machine e)
          ≡ (ok none, terminated exit_status e')
    unfolding run_round emu_start happen_all happen settle after_error
    round_ends parts m engine_error e e' service args exit_status t alive =
        rw (hook_ends parts (begun m e) e' service args exit_status t, alive) refl

    -- When the program calls ZwTerminateProcess for itself, through tables, registers and arguments that
    -- lead to it, and no exception to end with is set, start returns after that round, stopped and with
    -- the exit status, whatever the engine would do after it.
    pub start-terminated :
        (parts : Parts cpu guest) (m : Machine cpu guest) (engine_error : Bool)
        (e e' : Emulator cpu guest) (service : Service cpu guest) (args : List ℤ)
        (exit_status begin end count : ℕ) (rounds : List (Round cpu guest))
        → Terminates parts (begun m e) e' service args exit_status
        → e'.kill_exception ≡ none
        → start cpu guest x64 old wow64 parts begin end count
            (record { events = executes m ∷ calls_system ∷ []; engine_error = engine_error }
              ∷ rounds)
            e
          ≡ (ok returned, terminated exit_status e')
    unfolding start run_rounds turn plan
    start-terminated parts m engine_error e e' service args exit_status begin end count rounds t
          alive =
        rw (round_ends parts m engine_error e e' service args exit_status t alive) (stops rounds)
      where
        stops :
            (rs : List (Round cpu guest))
            → run_rounds cpu guest x64 old wow64 parts end
                (emulate begin end count)
                rs
                (terminated exit_status e')
              ≡ (ok returned, terminated exit_status e')
        stops [] = refl
        stops (r ∷ rs) = refl
