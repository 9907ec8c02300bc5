-- ===== src/Emulator/RunExamples.antt =====
-- A fault that `start` delivers, on a processor and a memory for tests.
use mathlib.Core.Path.{subst}
use dumpulator.Emulator.Inside.{write_frame-Leaves}
use dumpulator.Emulator.Terminate.{
  zw_terminate_process, zw_terminate_process-IsReady, terminated, start-terminated,
}
use dumpulator.Emulator.Looping.{Behaves, TablesBehave}
use dumpulator.Emulator.Syscall.{
  Answer, Service, number, syscall_args, syscall_arg, convert_argument,
}
use dumpulator.Registers.Stack.{Machine, get_reg, get_argument}
use dumpulator.Prelude.{
  sym, ◌∙◌, ap, zero, suc, Bool, get_elem?, if◌then◌else◌, ◌==◌, ℕ, ◌-◌, ◌^◌, ◌≡◌, refl, arith,
  true, false, Option, none, some, List, [], ◌∷◌, replicate,
}
use dumpulator.Outcome.{type_error, throw, ok, Action, pure}
use dumpulator.Registers.Access.{get_attr}
use dumpulator.Registers.Samples.{byte_map-IsSeparate, some_cpu, byte_map, machine}
use dumpulator.Emulator.Exceptions.{on_machine, Block, ExceptionInfo, no_info, Emulator}
use dumpulator.Emulator.Hooks.{mem_read_unmapped, Fault}
use dumpulator.Emulator.Frame.{
  Ctypes, Thread, context64, ExceptionRecord, write_stack, write_frame64, write_frame,
}
use dumpulator.Emulator.Dispatch.{handle_exception}
use dumpulator.Emulator.Delivering.{handle_exception-Keeps}
use dumpulator.Emulator.Ready.{IsReady, pure-Keeps}
use dumpulator.Prelude.Int.{ℤ, pos, negsuc}
use dumpulator.Emulator.Run.{
  executes, calls_system, returned, Parts, Round, Plan, emulate, start, run_rounds, turn, dispatch,
}
use dumpulator.Emulator.Restart.{PartsBehave, start-IsReady}
use dumpulator.Emulator.Chances.{begun, reported, faulting, start-delivers}

abbrev some_ctypes : Ctypes
some_ctypes = record {
  load_context = λ bytes. record {
    context_flags = 0;
    fields = λ name. 0;
    xmm = λ name. record { high = 0; low = 0 };
  };
  context_bytes = λ c. replicate 0x4d0 0;
  load_wow64 = λ bytes name. 0;
  wow64_bytes = λ fields. replicate 0x2cc 0;
}

abbrev no_answer : ℕ → ExceptionInfo some_cpu → Action (Emulator some_cpu byte_map) (Option ℕ)
no_answer hook x = pure none

abbrev dispatcher : ℕ
dispatcher = 0x7000

-- The first system call is `ZwTerminateProcess`.
abbrev terminate_call : List ℤ → Action (Emulator some_cpu byte_map) (Answer some_cpu)
terminate_call (pos process_handle ∷ pos exit_status ∷ []) =
    zw_terminate_process some_cpu byte_map true process_handle exit_status
terminate_call _ = throw type_error

abbrev terminate_service : Service some_cpu byte_map
terminate_service = record {
  kinds = number pos ∷ number pos ∷ [];
  implementation = some terminate_call;
}

abbrev some_parts : Parts some_cpu byte_map
some_parts = record {
  commit_lazy = λ address size. pure false;
  tables = record { syscalls = terminate_service ∷ []; win32k_syscalls = [] };
  handle_exception = handle_exception some_cpu byte_map some_ctypes true false dispatcher no_answer;
}

abbrev some_fault : Fault
some_fault = record { access = mem_read_unmapped; address = 0x1000; size = 4; value = 0 }

abbrev some_block : Block
some_block = record { start = 0x30000; size = 12; count = 3 }

abbrev quiet : Emulator some_cpu byte_map
quiet = record {
  machine = machine;
  pending = no_info some_cpu;
  last = no_info some_cpu;
  stopped = true;
  kill_exception = none;
  exit_code = none;
  exception_hook = none;
  tracing = false;
  sequence_id = 0;
  calls = [];
}

abbrev two_rounds : List (Round some_cpu byte_map)
two_rounds =
    faulting some_fault some_block 1 0 machine ∷ faulting some_fault some_block 2 2 machine ∷ []

terminate_call-Behaves : Behaves some_cpu byte_map terminate_call
unfolding Behaves
terminate_call-Behaves (pos process_handle ∷ pos exit_status ∷ []) e v =
    zw_terminate_process-IsReady some_cpu byte_map true process_handle exit_status e v
terminate_call-Behaves (pos process_handle ∷ pos exit_status ∷ _ ∷ _) e v = (v, tt)
terminate_call-Behaves (pos process_handle ∷ negsuc _ ∷ _) e v = (v, tt)
terminate_call-Behaves (pos process_handle ∷ []) e v = (v, tt)
terminate_call-Behaves (negsuc _ ∷ _) e v = (v, tt)
terminate_call-Behaves [] e v = (v, tt)

only_service :
    (first second : Bool) (index : ℕ) (service : Service some_cpu byte_map)
    → get_elem? (if first then terminate_service ∷ [] else if second then [] else []) index
      ≡ some service
    → some service ≡ some terminate_service
only_service true second zero service found = sym found
only_service true second (suc index) service found = absurd (ground (arith, found))
only_service false true index service found = absurd (ground (arith, found))
only_service false false index service found = absurd (ground (arith, found))

abbrev implementation_of :
    Option (Service some_cpu byte_map)
    → Option (List ℤ → Action (Emulator some_cpu byte_map) (Answer some_cpu))
implementation_of none = none
implementation_of (some service) = service.implementation

tables-Behave : TablesBehave some_cpu byte_map some_parts.tables
unfolding TablesBehave
tables-Behave table_number index service f found implemented =
    let same : some f ≡ some terminate_call =
      sym implemented
      ∙ ap implementation_of
          (only_service (table_number == 0) (table_number == 1) index service found) in
    subst (λ o. elim o [ none ↦ Unit {0} | some g ↦ Behaves some_cpu byte_map g ]) (sym same)
      terminate_call-Behaves

start-IsReady_example :
    IsReady
      (start some_cpu byte_map true false false some_parts 0x30000 0 0 two_rounds quiet).1.pending
unfolding PartsBehave
start-IsReady_example =
    start-IsReady some_cpu byte_map true false false some_parts
      (
        tables-Behave,
        handle_exception-Keeps some_cpu byte_map some_ctypes true false dispatcher no_answer
            λ hook x. pure-Keeps some_cpu byte_map {A = Option ℕ} none,
      )
      0x30000 0 0 two_rounds quiet

abbrev after : Emulator some_cpu byte_map
after = reported some_fault some_block some_block 1 machine machine quiet

start-delivers_example :
    (start some_cpu byte_map true false false some_parts 0x30000 0 0 two_rounds quiet
      ≡ run_rounds some_cpu byte_map true false false some_parts 0
          (emulate 0x20000 (2 ^ 64 - 1) 4)
          []
          after)
    × ((so_far : Plan)
        → turn some_cpu byte_map true false false some_parts 0 so_far after ≡ (
            let (p, e') = dispatch some_cpu byte_map true false false some_parts 0 after in
            (ok p, e')))
unfolding get_attr
start-delivers_example =
    start-delivers some_cpu byte_map true false false some_parts some_fault some_block some_block 1
      2 2 machine machine 0x30000 0 0 0x20000 [] quiet (record { known = refl; not_lazy = refl })
      (record { known = refl; not_lazy = refl }) refl (omega arith) refl

abbrev zeros : Machine some_cpu byte_map
zeros = record { registers = λ r. 0; memory = λ address. 0 }

abbrev last_round : Round some_cpu byte_map
last_round = record { events = executes zeros ∷ calls_system ∷ []; engine_error = false }

start-terminated_example :
    start some_cpu byte_map true false false some_parts 0x30000 0 0 (last_round ∷ []) quiet
    ≡ (ok returned, terminated some_cpu byte_map true 0 (begun zeros quiet))
unfolding get_attr syscall_args syscall_arg convert_argument on_machine get_reg get_argument
start-terminated_example =
    start-terminated some_cpu byte_map true false false some_parts zeros false quiet
      (begun zeros quiet) terminate_service (pos 0 ∷ pos 0 ∷ []) 0 0x30000 0 0 []
      (record {
        cax = 0;
        process_handle = 0;
        f = terminate_call;
        number = refl;
        found = refl;
        implemented = refl;
        arguments = refl;
        is_this = refl;
        own = refl;
      })
      refl

abbrev some_thread : Thread
some_thread = context64 (some_ctypes.load_context [])

abbrev some_record : ExceptionRecord
some_record = record {
  code = 0xC0000005;
  address = 0x20000;
  number_parameters = 2;
  first = 0;
  second = 0x1000;
}

abbrev framed : ℕ → ℕ
framed = (write_frame byte_map some_ctypes 0x1f8e0 some_thread some_record (λ address. 1)).1

write_frame-Leaves_example :
    (byte_map.read 0x20000 8 framed).0 ≡ (byte_map.read 0x20000 8 (λ address. 1)).0
unfolding write_frame write_frame64 write_stack
write_frame-Leaves_example =
    write_frame-Leaves byte_map some_ctypes true 0x20000 8 0x1f8e0 some_thread some_record
      (λ address. 1) framed byte_map-IsSeparate refl (omega arith) refl
