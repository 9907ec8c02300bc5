-- ===== src/Emulator/Reporting.antt =====
-- dumpulator.py: the hooks and the loop of `start` keep the pending exception ready.
use dumpulator.Prelude.{
  ℕ, ◌+◌, ◌≡◌, refl, arith, Bool, true, false, not, some, is_some, leb, ◌==◌, ◌||◌, if◌then◌else◌,
}
use dumpulator.Outcome.{
  uc_error, exception, Result, ok, raise, Action, pure, throw, gets, modify, assert,
}
use dumpulator.Primitives.Architecture.{MemoryAccess}
use dumpulator.Registers.Access.{Cpu}
use dumpulator.Emulator.Exceptions.{
  Block, violation_number, ExceptionInfo, Emulator, on_machine, ask, hook_add, emu_stop,
}
use dumpulator.Emulator.Hooks.{
  Fault, is_idle, violation_of, fault_info, delete_hook, drop_cache, same_fault, report_final,
  report_first, report_fault, hook_code_exception, interrupt_info, hook_interrupt, hook_invalid,
  hook_mem,
}
use dumpulator.Emulator.Ready.{
  IsReady, final-IsReady, hooked-IsReady, Keeps, modify_same-Keeps, pure-Keeps, throw-Keeps,
  gets-Keeps, on_machine-Keeps, if-Keeps, assert-Keeps, modify-Keeps, store-Keeps, bind-Keeps,
}

module _ (cpu : Cpu) (guest : MemoryAccess) where
  delete_hook-same :
      (e : Emulator cpu guest) → (if e.tracing then e else delete_hook e).pending ≡ e.pending
  delete_hook-same e = ground arith

  drop_cache-same : (b : Block) (e : Emulator cpu guest) → (drop_cache b e).pending ≡ e.pending
  drop_cache-same b e = refl

  report_final-Keeps : (x : ExceptionInfo cpu) → Keeps cpu guest (report_final x)
  unfolding report_final
  report_final-Keeps x = bind-Keeps cpu guest (gets (λ e. e)) _ (gets-Keeps cpu guest (λ e. e)) λ e.
      bind-Keeps cpu guest (assert (e.tracing || same_fault x e.pending)) _
        (assert-Keeps cpu guest _)
        λ _.
          bind-Keeps cpu guest (modify (λ e. if e.tracing then e else delete_hook e)) _
            (modify_same-Keeps cpu guest (λ e. if e.tracing then e else delete_hook e)
              delete_hook-same)
            λ _.
              bind-Keeps cpu guest
                (modify (λ e. ask emu_stop (record e { pending = record x { final = true } }))) _
                (store-Keeps cpu guest _ (record x { final = true }) (final-IsReady _ refl)
                  λ e. refl)
                λ _. pure-Keeps cpu guest false

  report_first-Keeps :
      (handle : ℕ) (x : ExceptionInfo cpu)
      → is_some x.context ≡ true
      → Keeps cpu guest (report_first handle x)
  unfolding report_first
  report_first-Keeps handle x saved =
      bind-Keeps cpu guest (gets (λ e. e)) _ (gets-Keeps cpu guest (λ e. e)) λ e.
        bind-Keeps cpu guest (assert (is_idle e.pending)) _ (assert-Keeps cpu guest _) λ _.
          bind-Keeps cpu guest (modify (λ e. ask (hook_add handle) (drop_cache x.block e))) _
            (modify_same-Keeps cpu guest (λ e. ask (hook_add handle) (drop_cache x.block e))
              (drop_cache-same x.block))
            λ _.
              bind-Keeps cpu guest
                (modify
                  (λ e. ask emu_stop (record e { pending = record x { code_hook = some handle } })))
                _
                (store-Keeps cpu guest _ (record x { code_hook = some handle })
                  (hooked-IsReady _ refl saved) λ e. refl)
                λ _. pure-Keeps cpu guest false

  report_fault-Keeps :
      (f : Fault) (block : Block) (handle : ℕ) → Keeps cpu guest (report_fault f block handle)
  unfolding report_fault
  report_fault-Keeps f block handle =
      bind-Keeps cpu guest (gets (λ e. e)) _ (gets-Keeps cpu guest (λ e. e)) λ e.
        if-Keeps cpu guest _ _ _ (pure-Keeps cpu guest false) (
          if-Keeps cpu guest _ _ _ (pure-Keeps cpu guest false) (
            bind-Keeps cpu guest (assert (not (violation_number (violation_of f.access) == 0))) _
              (assert-Keeps cpu guest _)
              λ _.
                if-Keeps cpu guest _ _ _ (report_final-Keeps (fault_info f block e))
                  (report_first-Keeps handle (fault_info f block e) refl)))

  pub hook_mem-Keeps :
      (commit_lazy : (address size : ℕ) → Action guest.State Bool) (f : Fault) (block : Block)
      (handle : ℕ)
      → Keeps cpu guest (hook_mem commit_lazy f block handle)
  unfolding hook_mem
  hook_mem-Keeps commit_lazy f block handle =
      bind-Keeps cpu guest (on_machine _) _ (on_machine-Keeps cpu guest _) λ committed.
        if-Keeps cpu guest committed _ _ (pure-Keeps cpu guest true)
          (report_fault-Keeps f block handle)

  stepped-IsReady :
      (e : Emulator cpu guest)
      → IsReady e.pending
      → IsReady (record e.pending { step_count = e.pending.step_count + 1 })
  unfolding IsReady
  stepped-IsReady e v = v

  pub hook_code_exception-Keeps : Keeps cpu guest hook_code_exception
  unfolding hook_code_exception
  hook_code_exception-Keeps =
      bind-Keeps cpu guest
        (modify
          (λ e. record e { pending = record e.pending { step_count = e.pending.step_count + 1 } }))
        _ (modify-Keeps cpu guest _ stepped-IsReady)
        λ _. bind-Keeps cpu guest (gets (λ e. e)) _ (gets-Keeps cpu guest (λ e. e)) λ e.
          if-Keeps cpu guest (leb e.pending.block.count e.pending.step_count) (throw exception)
            (pure tt) (throw-Keeps cpu guest (Unit {0}) exception) (pure-Keeps cpu guest tt)

  pub hook_interrupt-Keeps : (n : ℕ) (block : Block) → Keeps cpu guest (hook_interrupt n block)
  unfolding hook_interrupt
  hook_interrupt-Keeps n block =
      bind-Keeps cpu guest (gets (λ e. e)) _ (gets-Keeps cpu guest (λ e. e)) λ e.
        bind-Keeps cpu guest (assert (is_idle e.pending)) _ (assert-Keeps cpu guest _) λ _.
          bind-Keeps cpu guest (modify (λ e. record e { pending = interrupt_info n block e })) _
            (modify-Keeps cpu guest _ λ e v. final-IsReady (interrupt_info n block e) refl)
            λ _. throw-Keeps cpu guest Bool uc_error

  pub hook_invalid-Keeps : (emulated : Result Bool) → Keeps cpu guest (hook_invalid emulated)
  unfolding hook_invalid Keeps IsReady
  hook_invalid-Keeps (raise x) e v idle now = ground (arith, v)
  hook_invalid-Keeps (ok false) e v idle now = ground (arith, v)
  hook_invalid-Keeps (ok true) e v idle now = ground (arith, v)
