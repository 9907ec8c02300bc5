-- ===== src/Emulator/Delivering.antt =====
-- dumpulator.py: `handle_exception` keeps a waiting exception ready, and gives a fault to the emulated program.
use dumpulator.Prelude.{ℕ, refl, Bool, not, Option, none, some, ◌==◌}
use dumpulator.Outcome.{Action, pure, gets, reads, modify, assert, ◌>>◌}
use dumpulator.Native.Text.{codes}
use dumpulator.Primitives.Architecture.{MemoryAccess}
use dumpulator.Registers.Access.{Cpu}
use dumpulator.Registers.Stack.{get_reg, set_reg, on_memory}
use dumpulator.Emulator.Exceptions.{ExceptionInfo, type_number, no_info, Emulator, on_machine}
use dumpulator.Emulator.Frame.{Ctypes, describe, write_frame}
use dumpulator.Emulator.Dispatch.{
  clear_pending, set_handling, open_frame, capture_thread, deliver, switch_or_deliver, ask_hook,
  handle_exception,
}
use dumpulator.Emulator.Ready.{
  IsReady, idle-IsReady, Keeps, pure-Keeps, gets-Keeps, reads-Keeps, on_machine-Keeps, if-Keeps,
  assert-Keeps, modify-Keeps, store-Keeps, bind-Keeps,
}

module _ (cpu : Cpu) (guest : MemoryAccess) where
  clear-Keeps : Keeps cpu guest (modify clear_pending)
  clear-Keeps =
      store-Keeps cpu guest clear_pending (no_info cpu) (idle-IsReady (no_info cpu) refl) λ e. refl

  handling-IsReady : (e : Emulator cpu guest) → IsReady e.pending → IsReady (set_handling e).pending
  unfolding IsReady
  handling-IsReady e v = v

  module _ (ctypes : Ctypes) (x64 old : Bool) (dispatcher : ℕ) where
    deliver-Keeps : Keeps cpu guest (deliver cpu guest ctypes x64 old dispatcher)
    unfolding deliver
    deliver-Keeps =
        bind-Keeps cpu guest (on_machine (open_frame cpu guest ctypes x64 old dispatcher)) _
          (on_machine-Keeps cpu guest _)
          λ csp.
            bind-Keeps cpu guest
              (on_machine (capture_thread cpu guest ctypes x64 old dispatcher csp)) _
              (on_machine-Keeps cpu guest _)
              λ thread.
                bind-Keeps cpu guest (on_machine (get_reg cpu guest x64 old (codes "cip"))) _
                  (on_machine-Keeps cpu guest _)
                  λ cip. bind-Keeps cpu guest (gets (λ e. e)) _ (gets-Keeps cpu guest (λ e. e)) λ e.
                    bind-Keeps cpu guest (reads (λ _. describe e.pending cip thread)) _
                      (reads-Keeps cpu guest (λ _. describe e.pending cip thread))
                      λ described. bind-Keeps cpu guest (modify clear_pending) _ clear-Keeps λ _.
                        bind-Keeps cpu guest
                          (on_machine
                            (on_memory (write_frame guest ctypes csp described.1 described.0)))
                          _ (on_machine-Keeps cpu guest _)
                          λ _.
                            bind-Keeps cpu guest
                              (on_machine (set_reg cpu guest x64 old (codes "csp") csp)) _
                              (on_machine-Keeps cpu guest _)
                              λ _. pure-Keeps cpu guest (some dispatcher)

    switch_or_deliver-Keeps :
        Keeps cpu guest (switch_or_deliver cpu guest ctypes x64 old dispatcher)
    unfolding switch_or_deliver
    switch_or_deliver-Keeps =
        bind-Keeps cpu guest (gets (λ e. e)) _ (gets-Keeps cpu guest (λ e. e)) λ e.
          if-Keeps cpu guest (type_number e.pending.type == 3) _ _
            (bind-Keeps cpu guest (modify clear_pending) _ clear-Keeps λ _.
              bind-Keeps cpu guest (on_machine (get_reg cpu guest x64 old (codes "cip"))) _
                (on_machine-Keeps cpu guest (get_reg cpu guest x64 old (codes "cip")))
                λ cip. pure-Keeps cpu guest (some cip))
            deliver-Keeps

    module _ (call_hook : ℕ → ExceptionInfo cpu → Action (Emulator cpu guest) (Option ℕ)) where
      by_hook-Keeps :
          (result : Option ℕ)
          → Keeps cpu guest {A = Option ℕ} (elim result [
            | some cip ↦ (do modify clear_pending; pure (some cip))
            | none ↦ switch_or_deliver cpu guest ctypes x64 old dispatcher
          ])
      by_hook-Keeps (some cip) =
          bind-Keeps cpu guest (modify clear_pending) _ clear-Keeps
            λ _. pure-Keeps cpu guest (some cip)
      by_hook-Keeps none = switch_or_deliver-Keeps

      -- If the exception hook keeps a waiting exception ready, so does `handle_exception`.
      pub handle_exception-Keeps :
          ((hook : ℕ) (x : ExceptionInfo cpu) → Keeps cpu guest (call_hook hook x))
          → Keeps cpu guest (handle_exception cpu guest ctypes x64 old dispatcher call_hook)
      unfolding handle_exception ask_hook
      handle_exception-Keeps h =
          bind-Keeps cpu guest (gets (λ e. e)) _ (gets-Keeps cpu guest (λ e. e)) λ e.
            bind-Keeps cpu guest (assert (not e.pending.handling)) _
              (assert-Keeps cpu guest (not e.pending.handling))
              λ _.
                bind-Keeps cpu guest (modify set_handling) _
                  (modify-Keeps cpu guest set_handling handling-IsReady)
                  λ _. hooked e.exception_hook
        where
          hooked :
              (o : Option ℕ)
              → Keeps cpu guest {A = Option ℕ} (elim o [
                | some hook ↦ ask_hook cpu guest ctypes x64 old dispatcher call_hook hook
                | none ↦ switch_or_deliver cpu guest ctypes x64 old dispatcher
              ])
          hooked none = switch_or_deliver-Keeps
          hooked (some hook) =
              bind-Keeps cpu guest (gets (λ e. e)) _ (gets-Keeps cpu guest (λ e. e)) λ e₁.
                bind-Keeps cpu guest (call_hook hook e₁.pending) _ (h hook e₁.pending) λ result.
                  bind-Keeps cpu guest (gets (λ e. e)) _ (gets-Keeps cpu guest (λ e. e)) λ e₂.
                    if-Keeps cpu guest e₂.stopped _ _ (pure-Keeps cpu guest none)
                      (by_hook-Keeps result)
