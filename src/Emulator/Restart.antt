-- ===== src/Emulator/Restart.antt =====
-- dumpulator.py: whatever happens while `start` runs, an exception that waits for its second chance is ready.
use dumpulator.Prelude.{
  ℕ, ◌+◌, ◌^◌, ◌-◌, ◌≡◌, refl, arith, Bool, false, Option, none, some, is_some, List, [], ◌∷◌, ◌==◌,
}
use dumpulator.Outcome.{uc_error, Result, ok, raise, Action, pure, throw, gets, modify, assert}
use dumpulator.Native.Text.{codes}
use dumpulator.Primitives.Architecture.{MemoryAccess}
use dumpulator.Registers.Access.{Cpu}
use dumpulator.Registers.Stack.{get_reg}
use dumpulator.Emulator.Exceptions.{type_number, no_info, Emulator, on_machine}
use dumpulator.Emulator.Hooks.{is_idle, hook_mem, hook_interrupt, hook_invalid}
use dumpulator.Emulator.Run.{
  Event, executes, faults, steps, interrupts, calls_system, is_invalid, Round, Ending, returned,
  still_running, Plan, leave, emulate, Parts, happen, happen_all, emu_start, restore_if, dispatch,
  plan_final, plan_restart, plan, after_error, settle, run_round, turn, unless_left, unless_ended,
  run_rounds, start,
}
use dumpulator.Emulator.Ready.{
  IsReady, idle-IsReady, Keeps, pure-Keeps, throw-Keeps, gets-Keeps, if-Keeps, assert-Keeps,
  modify_same-Keeps, bind-Keeps,
}
use dumpulator.Emulator.Reporting.{
  hook_mem-Keeps, hook_code_exception-Keeps, hook_interrupt-Keeps, hook_invalid-Keeps,
}
use dumpulator.Emulator.Looping.{TablesBehave, get_reg-Keeps, hook_syscall-Keeps}

module _ (cpu : Cpu) (guest : MemoryAccess) (x64 old wow64 : Bool) where
  module _ (parts : Parts cpu guest) where
    -- What the other components do keeps the pending exception ready.
    unfoldable pub PartsBehave : Type 0
    unfolding TablesBehave Keeps
    PartsBehave = TablesBehave cpu guest parts.tables × Keeps cpu guest parts.handle_exception

    happen-Keeps :
        PartsBehave
        → (event : Event cpu guest) → Keeps cpu guest (happen cpu guest x64 old wow64 parts event)
    unfolding happen PartsBehave
    happen-Keeps h (executes machine) =
        modify_same-Keeps cpu guest (λ e. record e { machine = machine }) λ e. refl
    happen-Keeps h (faults fault block handle) =
        bind-Keeps cpu guest (hook_mem parts.commit_lazy fault block handle) _
          (hook_mem-Keeps cpu guest parts.commit_lazy fault block handle)
          λ _. pure-Keeps cpu guest tt
    happen-Keeps h steps = hook_code_exception-Keeps cpu guest
    happen-Keeps h (interrupts n block) =
        bind-Keeps cpu guest (hook_interrupt n block) _ (hook_interrupt-Keeps cpu guest n block)
          λ _. pure-Keeps cpu guest tt
    happen-Keeps h calls_system = hook_syscall-Keeps cpu guest x64 old wow64 parts.tables h.0
    happen-Keeps h (is_invalid emulated) =
        bind-Keeps cpu guest (hook_invalid emulated) _ (hook_invalid-Keeps cpu guest emulated)
          λ _. pure-Keeps cpu guest tt

    happen_all-Keeps :
        PartsBehave
        → (events : List (Event cpu guest))
        → Keeps cpu guest (happen_all cpu guest x64 old wow64 parts events)
    unfolding happen_all
    happen_all-Keeps h [] = pure-Keeps cpu guest tt
    happen_all-Keeps h (event ∷ events) =
        bind-Keeps cpu guest (happen cpu guest x64 old wow64 parts event) _ (happen-Keeps h event)
          λ _. happen_all-Keeps h events

    emu_start-Keeps :
        PartsBehave
        → (round : Round cpu guest)
        → Keeps cpu guest (emu_start cpu guest x64 old wow64 parts round)
    unfolding emu_start
    emu_start-Keeps h round =
        bind-Keeps cpu guest (happen_all cpu guest x64 old wow64 parts round.events) _
          (happen_all-Keeps h round.events)
          λ _.
            if-Keeps cpu guest round.engine_error (throw uc_error) (pure tt)
              (throw-Keeps cpu guest (Unit {0}) uc_error) (pure-Keeps cpu guest tt)

    restore_if-same :
        (o : Option cpu.State) (e : Emulator cpu guest)
        → (restore_if cpu guest x64 old wow64 parts o e).pending ≡ e.pending
    restore_if-same none e = refl
    restore_if-same (some context) e = refl

    dispatch-Keeps :
        PartsBehave
        → (end : ℕ)
        → Keeps cpu guest
            (λ e. let (p, e') = dispatch cpu guest x64 old wow64 parts end e in (ok p, e'))
    unfolding dispatch Keeps PartsBehave
    dispatch-Keeps h end e v = h.1 e v

    plan_final-Keeps :
        PartsBehave → (end : ℕ) → Keeps cpu guest (plan_final cpu guest x64 old wow64 parts end)
    unfolding plan_final
    plan_final-Keeps h end =
        bind-Keeps cpu guest
          (modify (λ e. restore_if cpu guest x64 old wow64 parts e.pending.context e)) _
          (modify_same-Keeps cpu guest
            (λ e. restore_if cpu guest x64 old wow64 parts e.pending.context e)
            λ e. restore_if-same e.pending.context e)
          λ _. bind-Keeps cpu guest (gets (λ e. e)) _ (gets-Keeps cpu guest (λ e. e)) λ e.
            if-Keeps cpu guest (type_number e.pending.type == 4) (pure leave) _
              (pure-Keeps cpu guest leave) (dispatch-Keeps h end)

    plan_restart-Keeps : Keeps cpu guest (plan_restart cpu guest x64 old wow64 parts)
    unfolding plan_restart
    plan_restart-Keeps = bind-Keeps cpu guest (gets (λ e. e)) _ (gets-Keeps cpu guest (λ e. e)) λ e.
        bind-Keeps cpu guest (assert (e.pending.step_count == 0)) _
          (assert-Keeps cpu guest (e.pending.step_count == 0))
          λ _.
            bind-Keeps cpu guest (assert (is_some e.pending.code_hook)) _
              (assert-Keeps cpu guest (is_some e.pending.code_hook))
              λ _.
                bind-Keeps cpu guest (assert (is_some e.pending.context)) _
                  (assert-Keeps cpu guest (is_some e.pending.context))
                  λ _.
                    bind-Keeps cpu guest
                      (modify (restore_if cpu guest x64 old wow64 parts e.pending.context)) _
                      (modify_same-Keeps cpu guest
                        (restore_if cpu guest x64 old wow64 parts e.pending.context)
                        (restore_if-same e.pending.context))
                      λ _.
                        bind-Keeps cpu guest (on_machine (get_reg cpu guest x64 old (codes "cip")))
                          _ (get_reg-Keeps cpu guest x64 old wow64 (codes "cip"))
                          λ cip.
                            pure-Keeps cpu guest
                              (emulate cip (2 ^ 64 - 1) (e.pending.block.count + 1))

    turn-Keeps :
        PartsBehave
        → (end : ℕ) (so_far : Plan)
        → Keeps cpu guest (turn cpu guest x64 old wow64 parts end so_far)
    unfolding turn plan
    turn-Keeps h end so_far =
        bind-Keeps cpu guest (gets (λ e. e)) _ (gets-Keeps cpu guest (λ e. e)) λ e₁.
          if-Keeps cpu guest e₁.stopped (pure leave) _ (pure-Keeps cpu guest leave) (
            bind-Keeps cpu guest (gets (λ e. e)) _ (gets-Keeps cpu guest (λ e. e)) λ e.
              if-Keeps cpu guest (is_idle e.pending) (pure so_far) _ (pure-Keeps cpu guest so_far) (
                if-Keeps cpu guest e.pending.final _ _ (plan_final-Keeps h end) plan_restart-Keeps))

    after_error-same :
        (e : Emulator cpu guest) → (after_error cpu guest x64 old wow64 parts e).1 ≡ e
    unfolding after_error
    after_error-same e = ground arith

    settle-Keeps :
        (r : Result (Unit {0})) → Keeps cpu guest (settle cpu guest x64 old wow64 parts r)
    unfolding settle Keeps
    settle-Keeps (ok _) e v = v
    settle-Keeps (raise uc_error) e v = rw (after_error-same e) v
    settle-Keeps (raise _) e v = v

    run_round-Keeps :
        PartsBehave
        → (round : Round cpu guest)
        → Keeps cpu guest (run_round cpu guest x64 old wow64 parts round)
    unfolding run_round Keeps
    run_round-Keeps h round e v =
        settle-Keeps (emu_start cpu guest x64 old wow64 parts round e).0
          (emu_start cpu guest x64 old wow64 parts round e).1 (emu_start-Keeps h round e v)

    unless_left-Keeps :
        (next : Plan) (f : Action (Emulator cpu guest) Ending)
        → Keeps cpu guest f
        → Keeps cpu guest (unless_left cpu guest x64 old wow64 parts next f)
    unless_left-Keeps leave f h = pure-Keeps cpu guest returned
    unless_left-Keeps (emulate begin until count) f h = h

    unless_ended-Keeps :
        (outcome : Option Ending) (f : Action (Emulator cpu guest) Ending)
        → Keeps cpu guest f
        → Keeps cpu guest (unless_ended cpu guest x64 old wow64 parts outcome f)
    unless_ended-Keeps (some ending) f h = pure-Keeps cpu guest ending
    unless_ended-Keeps none f h = h

    run_rounds-Keeps :
        PartsBehave
        → (end : ℕ) (so_far : Plan) (rounds : List (Round cpu guest))
        → Keeps cpu guest (run_rounds cpu guest x64 old wow64 parts end so_far rounds)
    unfolding run_rounds
    run_rounds-Keeps h end so_far [] =
        bind-Keeps cpu guest (turn cpu guest x64 old wow64 parts end so_far) _
          (turn-Keeps h end so_far)
          λ next. unless_left-Keeps next (pure still_running) (pure-Keeps cpu guest still_running)
    run_rounds-Keeps h end so_far (round ∷ rounds) =
        bind-Keeps cpu guest (turn cpu guest x64 old wow64 parts end so_far) _
          (turn-Keeps h end so_far)
          λ next. unless_left-Keeps next _ (
            bind-Keeps cpu guest (run_round cpu guest x64 old wow64 parts round) _
              (run_round-Keeps h round)
              λ outcome. unless_ended-Keeps outcome _ (run_rounds-Keeps h end next rounds))

    -- If the system calls return only exceptions that are ready, and they and `handle_exception` keep the pending one
    -- ready: whatever rounds of events happen while `start` runs, however it ends, a pending exception that is not
    -- final has its code hook and its saved registers, which `start` asserts before the second chance.
    pub start-IsReady :
        PartsBehave
        → (begin end count : ℕ) (rounds : List (Round cpu guest)) (e : Emulator cpu guest)
        → IsReady (start cpu guest x64 old wow64 parts begin end count rounds e).1.pending
    unfolding start Keeps
    start-IsReady h begin end count rounds e =
        run_rounds-Keeps h end (emulate begin end count) rounds
          (record e {
            stopped = false;
            kill_exception = none;
            exit_code = none;
            pending = no_info cpu;
          })
          (idle-IsReady (no_info cpu) refl)
