-- ===== src/Native/Examples.antt =====
-- Contexts and sizes at inputs that meet the hypotheses of the theorems.
use dumpulator.Prelude.{ℕ, ◌+◌, ◌^◌, ◌≡◌, [], ◌++◌, if◌then◌else◌}
use dumpulator.Outcome.{assertion_error, ok, raise}
use dumpulator.Native.Text.{Name}
use dumpulator.Native.Context.{Context}
use dumpulator.Native.Restoring.{
  Exchanges, control_slots, integer_slots, segment_slots, debug_slots, no_stack, no_stack_control,
  to_regs-from_regs,
}
use dumpulator.Native.Wow64
use dumpulator.Native.Wow64Restoring

-- Registers that hold a number of more than 32 bits, and others that hold 0.
abbrev some_regs : Name → ℕ
some_regs name = 2 ^ 40 + 7

abbrev no_regs : Name → ℕ
no_regs name = 0

abbrev blank : Context
blank = record { context_flags = 0; fields = no_regs; xmm = λ name. record { high = 0; low = 0 } }

to_regs-from_regs_example :
    Exchanges 0x00100001 blank some_regs no_regs control_slots
      (no_stack ++ (segment_slots ++ debug_slots))
    × (Exchanges 0x00100002 blank some_regs no_regs integer_slots
          (no_stack_control ++ (segment_slots ++ debug_slots))
        × (Exchanges 0x00100004 blank some_regs no_regs segment_slots
              (control_slots ++ (integer_slots ++ debug_slots))
            × (Exchanges 0x00100010 blank some_regs no_regs debug_slots
                  (control_slots ++ (integer_slots ++ segment_slots))
                × Exchanges 0x0010001f blank some_regs no_regs
                    (control_slots ++ (integer_slots ++ (segment_slots ++ debug_slots)))
                    [])))
to_regs-from_regs_example = to_regs-from_regs blank some_regs no_regs

to_regs-Restored_example :
    ((Wow64.to_regs (Wow64.from_regs some_regs no_regs) no_regs).0
      ≡ (if Wow64Restoring.same_segments some_regs no_regs then ok tt else raise assertion_error))
    × Wow64Restoring.Restored some_regs
        (Wow64.to_regs (Wow64.from_regs some_regs no_regs) no_regs).1
        Wow64Restoring.restorable
to_regs-Restored_example = Wow64Restoring.to_regs-Restored no_regs some_regs no_regs
