-- ===== src/Emulator/Chances.antt =====
-- dumpulator.py: a fault is reported twice before `handle_exception` sees it: first the block is emulated again step by
-- step, then the registers are those of the faulting instruction.
use dumpulator.Prelude.{
  ℕ, zero, suc, ◌+◌, ◌-◌, ◌^◌, ◌≤◌, ◌≡◌, refl, ◌∙◌, ap, arith, Bool, true, false, none, some, List,
  [], ◌∷◌, ◌++◌, replicate, leb, ◌==◌,
}
use dumpulator.Outcome.{ok, bind_ok}
use dumpulator.Native.Text.{codes}
use dumpulator.Memory.Protect.{page_size}
use dumpulator.Pages.Lazy.{smaller}
use dumpulator.Primitives.Architecture.{MemoryAccess}
use dumpulator.Registers.Access.{Cpu, get_attr}
use dumpulator.Registers.Stack.{Machine, get_reg, on_memory}
use dumpulator.Emulator.Exceptions.{
  Block, no_info, hook_del, emu_stop, hook_add, Emulator, on_machine,
}
use dumpulator.Emulator.Hooks.{
  Fault, violation_of, fault_info, drop_cache, same_fault, report_final, report_first, report_fault,
  hook_code_exception, hook_mem,
}
use dumpulator.Emulator.Exceptions.{violation_number}
use dumpulator.Emulator.Run.{
  Event, executes, faults, steps, Round, Plan, emulate, Parts, happen, happen_all, emu_start,
  dispatch, plan_final, plan_restart, plan, after_error, settle, run_round, turn, run_rounds, start,
}

module _ {cpu : Cpu} {guest : MemoryAccess} where
  -- `start` has cleared the state, and the engine has brought the machine to `m`.
  abbrev pub begun : Machine cpu guest → Emulator cpu guest → Emulator cpu guest
  begun m e = record e {
    machine = m;
    stopped = false;
    kill_exception = none;
    exit_code = none;
    pending = no_info cpu;
  }

  -- After the first report of a fault at `m₁` with the hook `h`, and `n` steps of the hook, with the machine at `m`
  abbrev pub waiting :
      Fault
      → Block
      → (h : ℕ) → (m₁ : Machine cpu guest) → (n : ℕ) → (m : Machine cpu guest) → Emulator cpu guest
      → Emulator cpu guest
  waiting f block h m₁ n m e =
      let x = fault_info f block (begun m₁ e) in
      record (begun m e) {
        pending = record x { code_hook = some h; step_count = n };
        calls = emu_stop ∷ hook_add h ∷ (drop_cache x.block e).calls;
      }

  -- After the second report at `m₂`
  abbrev pub reported :
      Fault
      → (block₁ block₂ : Block) → (h : ℕ) → (m₁ m₂ : Machine cpu guest) → Emulator cpu guest
      → Emulator cpu guest
  reported f block₁ block₂ h m₁ m₂ e = record (begun m₂ e) {
    pending = record (fault_info f block₂ (begun m₂ e)) { final = true };
    calls = emu_stop ∷ hook_del h ∷ (waiting f block₁ h m₁ 0 m₂ e).calls;
  }

  -- The engine brings the machine to `m` in `n` steps of the hook, and the access faults.
  abbrev pub faulting : Fault → Block → (h n : ℕ) → Machine cpu guest → Round cpu guest
  faulting f block h n m = record {
    events = executes m ∷ (replicate n steps ++ (faults f block h ∷ []));
    engine_error = true;
  }

module _ (cpu : Cpu) (guest : MemoryAccess) (x64 old wow64 : Bool) (parts : Parts cpu guest) where
  -- A fault that `_hook_mem` knows, of memory that is not lazy
  pub record IsFault (f : Fault) (m : Machine cpu guest) : Type 0 where
    pub known : (violation_number (violation_of f.access) == 0) ≡ false
    pub not_lazy :
        parts.commit_lazy f.address (smaller f.size page_size) m.memory ≡ (ok false, m.memory)

  first_report :
      (f : Fault) (block : Block) (h : ℕ) (m : Machine cpu guest) (e : Emulator cpu guest)
      → IsFault f m
      → e.tracing ≡ false
      → happen cpu guest x64 old wow64 parts (faults f block h) (begun m e)
        ≡ (ok tt, waiting f block h m 0 m e)
  unfolding happen hook_mem on_machine on_memory report_fault report_first
  first_report f block h m e fault quiet = rw (fault.not_lazy, fault.known, quiet) refl

  second_report :
      (f : Fault) (block₁ block₂ : Block) (h₁ h₂ n : ℕ) (m₁ m₂ : Machine cpu guest)
      (e : Emulator cpu guest)
      → IsFault f m₂
      → e.tracing ≡ false
      → happen cpu guest x64 old wow64 parts (faults f block₂ h₂) (waiting f block₁ h₁ m₁ n m₂ e)
        ≡ (ok tt, reported f block₁ block₂ h₁ m₁ m₂ e)
  unfolding happen hook_mem on_machine on_memory report_fault report_final
  second_report f block₁ block₂ h₁ h₂ n m₁ m₂ e fault quiet =
      let same : same_fault (fault_info f block₂ (begun m₂ e)) (fault_info f block₁ (begun m₁ e))
          ≡ true =
        ground arith in
      rw (fault.not_lazy, fault.known, quiet, same) refl

  one_step :
      (f : Fault) (block : Block) (h k : ℕ) (m₁ m₂ : Machine cpu guest) (e : Emulator cpu guest)
      → k + 1 ≤ (fault_info f block (begun m₁ e)).block.count - 1
      → happen cpu guest x64 old wow64 parts steps (waiting f block h m₁ k m₂ e)
        ≡ (ok tt, waiting f block h m₁ (k + 1) m₂ e)
  unfolding happen hook_code_exception
  one_step f block h k m₁ m₂ e few =
      let within : leb (fault_info f block (begun m₁ e)).block.count (k + 1) ≡ false =
        ground (arith, few) in
      rw within refl

  single_steps :
      (f : Fault) (block : Block) (h n k : ℕ) (m₁ m₂ : Machine cpu guest) (e : Emulator cpu guest)
      (events : List (Event cpu guest))
      → k + n ≤ (fault_info f block (begun m₁ e)).block.count - 1
      → happen_all cpu guest x64 old wow64 parts
          (replicate n steps ++ events)
          (waiting f block h m₁ k m₂ e)
        ≡ happen_all cpu guest x64 old wow64 parts events (waiting f block h m₁ (k + n) m₂ e)
  unfolding happen_all
  single_steps f block h zero k m₁ m₂ e events few =
      ap (λ (j : ℕ). happen_all cpu guest x64 old wow64 parts events (waiting f block h m₁ j m₂ e))
        (omega arith)
  single_steps f block h (suc n) k m₁ m₂ e events few =
      bind_ok (happen cpu guest x64 old wow64 parts steps) _ (waiting f block h m₁ k m₂ e)
        (waiting f block h m₁ (k + 1) m₂ e) tt (one_step f block h k m₁ m₂ e (omega (arith, few)))
      ∙ single_steps f block h n (k + 1) m₁ m₂ e events (omega (arith, few))
      ∙ ap
          (λ (j : ℕ). happen_all cpu guest x64 old wow64 parts events (waiting f block h m₁ j m₂ e))
          (omega arith)

  first_round :
      (f : Fault) (block : Block) (h : ℕ) (m : Machine cpu guest) (e : Emulator cpu guest)
      → IsFault f m
      → e.tracing ≡ false
      → run_round cpu guest x64 old wow64 parts (faulting f block h 0 m) (begun e.machine e)
        ≡ (ok none, waiting f block h m 0 m e)
  unfolding run_round emu_start happen_all settle after_error
  first_round f block h m e fault quiet = rw (first_report f block h m e fault quiet) refl

  second_round :
      (f : Fault) (block₁ block₂ : Block) (h₁ h₂ n : ℕ) (m₁ m₂ m : Machine cpu guest)
      (e : Emulator cpu guest)
      → IsFault f m₂
      → e.tracing ≡ false
      → n ≤ (fault_info f block₁ (begun m₁ e)).block.count - 1
      → run_round cpu guest x64 old wow64 parts
          (faulting f block₂ h₂ n m₂)
          (waiting f block₁ h₁ m₁ 0 m e)
        ≡ (ok none, reported f block₁ block₂ h₁ m₁ m₂ e)
  unfolding run_round emu_start happen_all settle after_error
  second_round f block₁ block₂ h₁ h₂ n m₁ m₂ m e fault quiet few =
      rw
        (
          single_steps f block₁ h₁ n 0 m₁ m₂ e (faults f block₂ h₂ ∷ []) (omega (arith, few)),
          second_report f block₁ block₂ h₁ h₂ (0 + n) m₁ m₂ e fault quiet,
        )
        refl

  restarted :
      (f : Fault) (block : Block) (h end cip : ℕ) (m : Machine cpu guest) (e : Emulator cpu guest)
      (so_far : Plan)
      → get_attr cpu x64 old (codes "cip") m.registers ≡ ok cip
      → turn cpu guest x64 old wow64 parts end so_far (waiting f block h m 0 m e) ≡ (
        ok (emulate cip (2 ^ 64 - 1) ((fault_info f block (begun m e)).block.count + 1)),
        waiting f block h m 0 m e,
      )
  unfolding turn plan plan_restart on_machine get_reg
  restarted f block h end cip m e so_far at_cip = rw at_cip refl

  -- A fault that _hook_mem knows, of memory that is not lazy, without a trace, at an instruction pointer
  -- that can be read: when the engine runs into it, and again after no more steps than the block has
  -- instructions but one, start comes to call handle_exception with the registers of the second time,
  -- when the fault is pending and final, the hook is deleted, and the engine was stopped both times.
  pub start-delivers :
      (f : Fault) (block₁ block₂ : Block) (h₁ h₂ n : ℕ) (m₁ m₂ : Machine cpu guest)
      (begin end count cip : ℕ) (rounds : List (Round cpu guest)) (e : Emulator cpu guest)
      → IsFault f m₁
      → IsFault f m₂
      → e.tracing ≡ false
      → n ≤ (fault_info f block₁ (begun m₁ e)).block.count - 1
      → get_attr cpu x64 old (codes "cip") m₁.registers ≡ ok cip
      → (start cpu guest x64 old wow64 parts begin end count
            (faulting f block₁ h₁ 0 m₁ ∷ faulting f block₂ h₂ n m₂ ∷ rounds)
            e
          ≡ run_rounds cpu guest x64 old wow64 parts end
              (emulate cip (2 ^ 64 - 1) ((fault_info f block₁ (begun m₁ e)).block.count + 1))
              rounds
              (reported f block₁ block₂ h₁ m₁ m₂ e))
        × ((so_far : Plan)
            → turn cpu guest x64 old wow64 parts end so_far (reported f block₁ block₂ h₁ m₁ m₂ e)
              ≡ (let (p, e') =
                    dispatch cpu guest x64 old wow64 parts end
                      (reported f block₁ block₂ h₁ m₁ m₂ e) in
                  (ok p, e')))
  unfolding start run_rounds turn plan plan_final
  start-delivers f block₁ block₂ h₁ h₂ n m₁ m₂ begin end count cip rounds e fault₁ fault₂ quiet few
        at_cip =
      (
        rw
            (
              first_round f block₁ h₁ m₁ e fault₁ quiet,
              restarted f block₁ h₁ end cip m₁ e (emulate begin end count) at_cip,
              second_round f block₁ block₂ h₁ h₂ n m₁ m₂ m₁ e fault₂ quiet few,
            )
            refl,
        λ so_far. refl,
      )
