-- ===== src/Pages/Child.antt =====
-- dumpulator.py: `LazyPageManager` calls a child page manager, `UnicornPageManager`, which passes every
-- call on to the unicorn engine. The engine is not part of the program, so the child is a parameter.
use dumpulator.Prelude.{ℕ, List, Option}
use dumpulator.Memory.Protect.{MemoryProtect}

-- The methods of `PageManager`. `none` is an exception of the engine (`UcError`).
pub record PageManager : Type 1 where
  pub State : Type 0
  pub commit : (addr size : ℕ) → MemoryProtect → State → Option State
  pub decommit : (addr size : ℕ) → State → Option State
  pub protect : (addr size : ℕ) → MemoryProtect → State → Option State
  pub read : (addr size : ℕ) → State → Option (List ℕ)
  pub write : (addr : ℕ) → List ℕ → State → Option State
