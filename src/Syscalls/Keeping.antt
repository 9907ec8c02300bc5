-- ===== src/Syscalls/Keeping.antt =====
-- The system calls for memory keep the memory manager well-formed.
use dumpulator.Prelude.{ℕ, Bool, true, false, List, if◌then◌else◌}
use dumpulator.Outcome.{
  Error, Result, ok, raise, Action, pure, throw, gets, reads, assert, and_then, ◌>>=◌,
}
use dumpulator.Memory.Manager.{MemoryManager}
use dumpulator.Memory.Valid.{IsValid}
use dumpulator.Primitives.Architecture.{MemoryAccess}
use dumpulator.Syscalls.Process.{
  Process, on_manager, on_memory, read_ptr, write_ptr, write_ulong, write_bytes,
}

module _ (guest : MemoryAccess) where
  open guest use {State}

  -- Whatever it does and whether it raises, the memory manager is valid after it if it was before.
  unfoldable pub Keeps : {A : Type 0} → Action (Process guest) A → Type 0
  Keeps f = (p : Process guest) → IsValid p.manager → IsValid (f p).1.manager

  pub throw-Keeps : (A : Type 0) (e : Error) → Keeps {A = A} (throw e)
  unfolding Keeps
  throw-Keeps A e p v = v

  module _ {A : Type 0} where
    pub pure-Keeps : (a : A) → Keeps (pure a)
    unfolding Keeps
    pure-Keeps a p v = v

    pub gets-Keeps : (f : Process guest → A) → Keeps (gets f)
    unfolding Keeps
    gets-Keeps f p v = v

    pub reads-Keeps : (f : Process guest → Result A) → Keeps (reads f)
    unfolding Keeps
    reads-Keeps f p v = v

    pub if-Keeps :
        (b : Bool) (f g : Action (Process guest) A) → Keeps f → Keeps g → Keeps (if b then f else g)
    if-Keeps true f g hf hg = hf
    if-Keeps false f g hf hg = hg

    pub on_manager-Keeps :
        (f : Action MemoryManager A)
        → ((m : MemoryManager) → IsValid m → IsValid (f m).1)
        → Keeps (on_manager guest f)
    unfolding Keeps on_manager
    on_manager-Keeps f h p v = h p.manager v

    pub on_memory-Keeps : (f : Action State A) → Keeps (on_memory guest f)
    unfolding Keeps on_memory
    on_memory-Keeps f p v = v

  pub assert-Keeps : (b : Bool) → Keeps (assert b)
  unfolding Keeps
  assert-Keeps true p v = v
  assert-Keeps false p v = v

  module _ {A B : Type 0} where
    and_then-Keeps :
        (r : Result A) (g : A → Action (Process guest) B) (p : Process guest)
        → ((a : A) → Keeps (g a))
        → IsValid p.manager
        → IsValid (and_then r g p).1.manager
    unfolding Keeps
    and_then-Keeps (ok a) g p h v = h a p v
    and_then-Keeps (raise e) g p h v = v

    pub bind-Keeps :
        (f : Action (Process guest) A) (g : A → Action (Process guest) B)
        → Keeps f
        → ((a : A) → Keeps (g a))
        → Keeps (f >>= g)
    unfolding Keeps
    bind-Keeps f g hf hg p v = and_then-Keeps (f p).0 g (f p).1 hg (hf p v)

  pub read_ptr-Keeps : (addr : ℕ) → Keeps (read_ptr guest addr)
  unfolding Keeps read_ptr on_memory
  read_ptr-Keeps addr p v = v

  pub write_ptr-Keeps : (addr value : ℕ) → Keeps (write_ptr guest addr value)
  unfolding Keeps write_ptr on_memory
  write_ptr-Keeps addr value p v = v

  pub write_ulong-Keeps : (addr value : ℕ) → Keeps (write_ulong guest addr value)
  unfolding Keeps write_ulong on_memory
  write_ulong-Keeps addr value p v = v

  pub write_bytes-Keeps : (addr : ℕ) (bytes : List ℕ) → Keeps (write_bytes guest addr bytes)
  unfolding Keeps write_bytes on_memory
  write_bytes-Keeps addr bytes p v = v
