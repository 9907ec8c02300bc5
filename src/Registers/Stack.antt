-- ===== src/Registers/Stack.antt =====
-- details.py: `Arguments`; dumpulator.py: the stack and calls. Registers, memory and the emulation itself
-- are parameters.
use dumpulator.Prelude.{ℕ, ◌+◌, ◌-◌, ◌*◌, Bool, List, [], ◌∷◌, ltb, ◌==◌, not, if◌then◌else◌}
use dumpulator.Outcome.{uc_error, exception, Action, pure, throw, ◌>>=◌, ◌>>◌}
use dumpulator.Native.Text.{Name, codes}
use dumpulator.Primitives.Control.{ptr_size}
use dumpulator.Primitives.Architecture.{MemoryAccess, read_unsigned, read_ptr, write_ptr}
use dumpulator.Registers.Names.{Entry}
use dumpulator.Registers.Access.{Cpu, get_attr, set_attr, load}

-- `USER_CAVE`
abbrev pub user_cave : ℕ
user_cave = 0x5000

-- The registers and the memory.
pub record Machine (cpu : Cpu) (guest : MemoryAccess) : Type 0 where
  pub registers : cpu.State
  pub memory : guest.State

module _ {cpu : Cpu} {guest : MemoryAccess} where
  -- What memory does, with the rest of the machine as it is.
  unfoldable pub on_memory : {A : Type 0} → Action guest.State A → Action (Machine cpu guest) A
  on_memory f m = let (r, s) = f m.memory in (r, record m { memory = s })

module _ (cpu : Cpu) (guest : MemoryAccess) (x64 old : Bool) where
  unfoldable pub get_reg : Name → Action (Machine cpu guest) ℕ
  unfolding get_attr
  get_reg name m = (get_attr cpu x64 old name m.registers, m)

  unfoldable pub set_reg : Name → (value : ℕ) → Action (Machine cpu guest) (Unit {0})
  unfolding set_attr
  set_reg name value m =
      let (r, s) = set_attr cpu x64 old name value m.registers in (r, record m { registers = s })

  -- `Arguments.__getitem__`
  unfoldable pub get_argument : (index : ℕ) → Action (Machine cpu guest) ℕ
  unfolding get_reg on_memory read_unsigned
  get_argument index =
      if not x64
      then (do
        esp ← get_reg (codes "esp")
        on_memory (read_unsigned guest 4 (esp + (index + 1) * 4)))
      else (if index == 0
          then get_reg (codes "rcx")
          else (if index == 1
              then get_reg (codes "rdx")
              else (if index == 2
                  then get_reg (codes "r8")
                  else (if index == 3
                      then get_reg (codes "r9")
                      else (if ltb index 20
                          then (do
                            rsp ← get_reg (codes "rsp")
                            on_memory (read_unsigned guest 8 (rsp + (index + 1) * 8)))
                          else throw exception)))))

  -- `Arguments.__setitem__`
  unfoldable pub set_argument : (index value : ℕ) → Action (Machine cpu guest) (Unit {0})
  unfolding set_reg
  set_argument index value =
      if not x64
      then throw exception
      else (if index == 0
          then set_reg (codes "rcx") value
          else (if index == 1
              then set_reg (codes "rdx") value
              else (if index == 2
                  then set_reg (codes "r8") value
                  else (if index == 3 then set_reg (codes "r9") value else throw exception))))

  -- Below address 0 there is no memory to write to.
  unfoldable pub push : (value : ℕ) → Action (Machine cpu guest) (Unit {0})
  unfolding get_reg set_reg on_memory write_ptr
  push value = do
    top ← get_reg (codes "csp")
    if ltb top (ptr_size x64) then throw uc_error else pure tt
    on_memory (write_ptr guest x64 (top - ptr_size x64) value)
    set_reg (codes "csp") (top - ptr_size x64)

  unfoldable pub pop : Action (Machine cpu guest) ℕ
  unfolding get_reg set_reg on_memory read_ptr
  pop = do
    csp ← get_reg (codes "csp")
    value ← on_memory (read_ptr guest x64 csp)
    set_reg (codes "csp") (csp + ptr_size x64)
    pure value

  -- The registers take numbers from 0 on; what an engine does with a negative one is not said.
  unfoldable pub ret : (imm : ℕ) → Action (Machine cpu guest) ℕ
  unfolding pop get_reg set_reg
  ret imm = do
    return_address ← pop
    csp ← get_reg (codes "csp")
    if ltb csp imm then throw uc_error else pure tt
    set_reg (codes "csp") (csp - imm)
    pure return_address

  -- `for index, value in enumerate(args): self.args[index] = value`
  unfoldable pub set_arguments : (index : ℕ) → List ℕ → Action (Machine cpu guest) (Unit {0})
  unfolding set_argument
  set_arguments index [] = pure tt
  set_arguments index (value ∷ values) = do
    set_argument index value
    set_arguments (index + 1) values

  -- `for value in reversed(args): self.push(value)`
  unfoldable pub push_arguments : List ℕ → Action (Machine cpu guest) (Unit {0})
  unfolding push
  push_arguments [] = pure tt
  push_arguments (value ∷ values) = do push_arguments values; push value

  unfoldable pub load_registers : List Entry → Action (Machine cpu guest) (Unit {0})
  unfolding load
  load_registers es m =
      let (r, s) = load cpu x64 old es m.registers in (r, record m { registers = s })

  -- `call`, up to the start of the emulation
  unfoldable pub prepare_call :
      (args : List ℕ) (regs : List Entry) → Action (Machine cpu guest) (Unit {0})
  unfolding load_registers set_arguments push_arguments push
  prepare_call args regs = do
    load_registers regs
    if x64 then set_arguments 0 args else push_arguments args
    push user_cave

  -- `start(addr, end=USER_CAVE, count=count)` is the emulation.
  module _ (start : (addr end count : ℕ) → Action (Machine cpu guest) (Unit {0})) where
    unfoldable pub call :
        (addr : ℕ) (args : List ℕ) (regs : List Entry) (count : ℕ) → Action (Machine cpu guest) ℕ
    unfolding prepare_call get_reg
    call addr args regs count = do
      prepare_call args regs
      start addr user_cave count
      get_reg (codes "cax")
