-- ===== src/Emulator/Looping.antt =====
-- dumpulator.py: system calls keep the pending exception ready.
use dumpulator.Prelude.{
  Option, ◌/◌, ◌%◌, ◌^◌, ℕ, ◌+◌, ◌≡◌, refl, Bool, ◌&&◌, none, some, List, [], ◌∷◌, get_elem?, ◌==◌,
  if◌then◌else◌,
}
use dumpulator.Prelude.Int.{ℤ}
use dumpulator.Outcome.{
  not_implemented, index_error, Error, uc_error, Result, ok, raise, Action, reads, modify, and_then,
  ◌>>=◌,
}
use dumpulator.Native.Text.{Name, codes}
use dumpulator.Primitives.Architecture.{MemoryAccess}
use dumpulator.Registers.Access.{Cpu}
use dumpulator.Registers.Stack.{get_reg, set_reg, get_argument}
use dumpulator.Emulator.Exceptions.{Emulator, on_machine}
use dumpulator.Emulator.Hooks.{force_kill_addr, stop, raise_kill}
use dumpulator.Emulator.Syscall.{
  serve, hook_syscall, Kind, Answer, status, switches, Service, Tables, convert_argument,
  syscall_arg, syscall_args, set_status, give_answer, leave_call, run_service, table_of,
}
use dumpulator.Emulator.Ready.{
  IsReady, Keeps, pure-Keeps, throw-Keeps, reads-Keeps, on_machine-Keeps, if-Keeps,
  modify_same-Keeps, bind-Keeps,
}

-- An exception that a system call returns is ready.
abbrev pub AnswersReady : {cpu : Cpu} → Result (Answer cpu) → Type 0
AnswersReady (ok (switches info)) = IsReady info
AnswersReady _ = Unit {0}

module _ (cpu : Cpu) (guest : MemoryAccess) where
  -- Such an implementation keeps the pending exception ready.
  unfoldable pub Behaves : (List ℤ → Action (Emulator cpu guest) (Answer cpu)) → Type 0
  Behaves f =
      (args : List ℤ) (e : Emulator cpu guest)
      → IsReady e.pending
      → IsReady (f args e).1.pending × AnswersReady (f args e).0

  unfoldable pub TablesBehave : Tables cpu guest → Type 0
  TablesBehave tables =
      (table_number index : ℕ) (service : Service cpu guest)
      (f : List ℤ → Action (Emulator cpu guest) (Answer cpu))
      → get_elem? (table_of tables table_number) index ≡ some service
      → service.implementation ≡ some f
      → Behaves f

  module _ (x64 old wow64 : Bool) where
    pub get_reg-Keeps :
        (name : Name) → Keeps cpu guest (on_machine (get_reg cpu guest x64 old name))
    get_reg-Keeps name = on_machine-Keeps cpu guest (get_reg cpu guest x64 old name)

    set_reg-Keeps :
        (name : Name) (value : ℕ)
        → Keeps cpu guest (on_machine (set_reg cpu guest x64 old name value))
    set_reg-Keeps name value = on_machine-Keeps cpu guest (set_reg cpu guest x64 old name value)

    pub raise_kill-Keeps :
        (A : Type 0) (exc : Error) → Keeps cpu guest (raise_kill cpu guest x64 old {A = A} exc)
    unfolding raise_kill stop
    raise_kill-Keeps A exc =
        bind-Keeps cpu guest (on_machine (set_reg cpu guest x64 old (codes "cip") force_kill_addr))
          _ (set_reg-Keeps (codes "cip") force_kill_addr)
          λ _.
            bind-Keeps cpu guest (modify (stop none)) _
              (modify_same-Keeps cpu guest (stop none) λ e. refl)
              λ _.
                bind-Keeps cpu guest (modify (λ e. record e { kill_exception = some exc })) _
                  (modify_same-Keeps cpu guest (λ e. record e { kill_exception = some exc })
                    λ e. refl)
                  λ _. throw-Keeps cpu guest A exc

    syscall_arg-Keeps : (index : ℕ) → Keeps cpu guest (syscall_arg cpu guest x64 old wow64 index)
    unfolding syscall_arg
    syscall_arg-Keeps index =
        let i = if wow64 then index + 1 else index in
        if-Keeps cpu guest (i == 0 && x64) (on_machine (get_reg cpu guest x64 old (codes "r10")))
          (on_machine (get_argument cpu guest x64 old i)) (get_reg-Keeps (codes "r10"))
          (on_machine-Keeps cpu guest (get_argument cpu guest x64 old i))

    pub syscall_args-Keeps :
        (index : ℕ) (kinds : List Kind)
        → Keeps cpu guest (syscall_args cpu guest x64 old wow64 index kinds)
    unfolding syscall_args
    syscall_args-Keeps index [] = pure-Keeps cpu guest []
    syscall_args-Keeps index (kind ∷ kinds) =
        bind-Keeps cpu guest (syscall_arg cpu guest x64 old wow64 index) _ (syscall_arg-Keeps index)
          λ value.
            bind-Keeps cpu guest (reads (λ _. convert_argument kind value)) _
              (reads-Keeps cpu guest (λ _. convert_argument kind value))
              λ arg.
                bind-Keeps cpu guest (syscall_args cpu guest x64 old wow64 (index + 1) kinds) _
                  (syscall_args-Keeps (index + 1) kinds) λ args. pure-Keeps cpu guest (arg ∷ args)

    set_status-Keeps : (value : ℕ) → Keeps cpu guest (set_status cpu guest x64 old wow64 value)
    unfolding set_status
    set_status-Keeps value =
        bind-Keeps cpu guest (on_machine (set_reg cpu guest x64 old (codes "cax") value)) _
          (set_reg-Keeps (codes "cax") value)
          λ _.
            if-Keeps cpu guest x64 _ _
              (bind-Keeps cpu guest (on_machine (get_reg cpu guest x64 old (codes "cip"))) _
                (get_reg-Keeps (codes "cip"))
                λ cip.
                  bind-Keeps cpu guest
                    (on_machine (set_reg cpu guest x64 old (codes "rcx") (cip + 2))) _
                    (set_reg-Keeps (codes "rcx") (cip + 2))
                    λ _.
                      bind-Keeps cpu guest (on_machine (get_reg cpu guest x64 old (codes "eflags")))
                        _ (get_reg-Keeps (codes "eflags")) (set_reg-Keeps (codes "r11")))
              (bind-Keeps cpu guest (on_machine (get_reg cpu guest x64 old (codes "eip"))) _
                (get_reg-Keeps (codes "eip")) λ eip. set_reg-Keeps (codes "eip") (eip + 2))

    leave_call-Keeps :
        (r : Result (Unit {0})) → Keeps cpu guest (leave_call cpu guest x64 old wow64 r)
    unfolding leave_call
    leave_call-Keeps (ok _) = pure-Keeps cpu guest tt
    leave_call-Keeps (raise uc_error) = throw-Keeps cpu guest (Unit {0}) uc_error
    leave_call-Keeps (raise _) = raise_kill-Keeps (Unit {0}) _

    give_answer-Ready :
        (r : Result (Answer cpu)) (e : Emulator cpu guest)
        → IsReady e.pending
        → AnswersReady r
        → IsReady (and_then r (give_answer cpu guest x64 old wow64) e).1.pending
    unfolding give_answer Keeps
    give_answer-Ready (raise x) e v a = v
    give_answer-Ready (ok (status value)) e v a = set_status-Keeps value e v
    give_answer-Ready (ok (switches info)) e v a = a

    pub run_service-Keeps :
        (f : List ℤ → Action (Emulator cpu guest) (Answer cpu)) (args : List ℤ)
        → Behaves f
        → Keeps cpu guest (run_service cpu guest x64 old wow64 f args)
    unfolding run_service Keeps Behaves
    run_service-Keeps f args h e v =
        let k = h args e v in
        leave_call-Keeps _ ((f args >>= give_answer cpu guest x64 old wow64) e).1
          (give_answer-Ready (f args e).0 (f args e).1 k.0 k.1)

    serve-Keeps :
        (service : Service cpu guest)
        → ((f : List ℤ → Action (Emulator cpu guest) (Answer cpu))
            → service.implementation ≡ some f
            → Behaves f)
        → Keeps cpu guest (serve cpu guest x64 old wow64 service)
    unfolding serve
    serve-Keeps service h = by_implementation service.implementation h
      where
        by_implementation :
            (i : Option (List ℤ → Action (Emulator cpu guest) (Answer cpu)))
            → ((f : List ℤ → Action (Emulator cpu guest) (Answer cpu)) → i ≡ some f → Behaves f)
            → Keeps cpu guest {A = Unit {0}} (elim i [
              | none ↦ raise_kill cpu guest x64 old not_implemented
              | some f ↦ (do
                args ← syscall_args cpu guest x64 old wow64 0 service.kinds
                run_service cpu guest x64 old wow64 f args)
            ])
        by_implementation none k = raise_kill-Keeps (Unit {0}) not_implemented
        by_implementation (some f) k =
            bind-Keeps cpu guest (syscall_args cpu guest x64 old wow64 0 service.kinds) _
              (syscall_args-Keeps 0 service.kinds) λ args. run_service-Keeps f args (k f refl)

    pub hook_syscall-Keeps :
        (tables : Tables cpu guest)
        → TablesBehave tables
        → Keeps cpu guest (hook_syscall cpu guest x64 old wow64 tables)
    unfolding hook_syscall TablesBehave
    hook_syscall-Keeps tables h =
        bind-Keeps cpu guest (on_machine (get_reg cpu guest x64 old (codes "cax"))) _
          (get_reg-Keeps (codes "cax"))
          λ cax.
            by_service
              (get_elem? (table_of tables (cax % 2 ^ 16 / 2 ^ 12 % 16)) (cax % 2 ^ 16 % 2 ^ 12))
              (h (cax % 2 ^ 16 / 2 ^ 12 % 16) (cax % 2 ^ 16 % 2 ^ 12))
      where
        by_service :
            (s : Option (Service cpu guest))
            → ((service : Service cpu guest) (f : List ℤ → Action (Emulator cpu guest) (Answer cpu))
                → s ≡ some service
                → service.implementation ≡ some f
                → Behaves f)
            → Keeps cpu guest {A = Unit {0}} (elim s [
              | none ↦ raise_kill cpu guest x64 old index_error
              | some service ↦ serve cpu guest x64 old wow64 service
            ])
        by_service none k = raise_kill-Keeps (Unit {0}) index_error
        by_service (some service) k = serve-Keeps service λ f. k service f refl
