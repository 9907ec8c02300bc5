-- ===== src/Registers/Access.antt =====
-- details.py: `Registers`, over the registers of unicorn, which are a parameter.
use dumpulator.Prelude.{
  ℕ, zero, suc, ◌+◌, ◌-◌, ◌*◌, ◌/◌, ◌%◌, ◌++◌, Bool, true, false, List, [], ◌∷◌, ◌==◌,
  if◌then◌else◌, none, some,
}
use dumpulator.Outcome.{
  key_error, exception, Result, ok, raise, Action, pure, throw, reads, ◌>>=◌, ◌>>◌,
}
use dumpulator.Native.Text.{Name, codes, starts_with}
use dumpulator.Registers.Names.{Entry, entry, find_name, words, regmap, flag_positions}

-- unicorn's numbers for registers, `reg_read` and `reg_write`.
pub record Cpu : Type 1 where
  pub State : Type 0
  pub number : Name → ℕ
  pub reg_read : ℕ → State → ℕ
  pub reg_write : (register value : ℕ) → State → State

-- `(n >> i) & 1`
unfoldable pub bit_at : (i n : ℕ) → ℕ
bit_at zero n = n % 2
bit_at (suc i) n = bit_at i (n / 2)

-- `n & ~(1 << i)` for `value` 0, `n | (1 << i)` for `value` 1
unfoldable pub with_bit : (i value n : ℕ) → ℕ
with_bit zero value n = n - n % 2 + value
with_bit (suc i) value n = with_bit i value (n / 2) * 2 + n % 2

abbrev pub debug : List Name
debug = words (codes "dr0 dr1 dr2 dr6 dr7")

module _ (x64 : Bool) where
  abbrev pub volatile : List Name
  volatile = if x64 then words (codes "rax rcx rdx r8 r9 r10 r11") else words (codes "eax ecx edx")

  abbrev pub nonvolatile : List Name
  nonvolatile =
      if x64
      then words (codes "rbx rbp rsp rsi rdi r12 r13 r14 r15")
      else words (codes "ebx ebp esp esi edi")

  abbrev pub gp : List Name
  gp =
      if x64
      then words (codes "rax rbx rcx rdx rbp rsp rsi rdi r8 r9 r10 r11 r12 r13 r14 r15")
      else words (codes "eax ebx ecx edx ebp esp esi edi")

  abbrev pub integer : List Name
  integer =
      if x64
      then words (codes "rax rbx rcx rdx rbp rsi rdi r8 r9 r10 r11 r12 r13 r14 r15")
      else words (codes "eax ebx ecx edx ebp esi edi")

  abbrev pub control : List Name
  control = if x64 then words (codes "rip rsp rflags") else words (codes "eip esp eflags")

  abbrev pub fpu : List Name
  fpu =
      if x64
      then words (
          codes
            "ymm0 ymm1 ymm2 ymm3 ymm4 ymm5 ymm6 ymm7 ymm8 ymm9 ymm10 ymm11 ymm12 ymm13 ymm14 ymm15")
      else words (codes "ymm0 ymm1 ymm2 ymm3 ymm4 ymm5 ymm6 ymm7")

  -- What `save` takes where no registers are given.
  abbrev pub default_saved : List Name
  default_saved = gp ++ (if x64 then words (codes "rip rflags") else words (codes "eip eflags"))

-- Whether it is for a processor with 64 bits, and whether unicorn is older than version 2.
module _ (cpu : Cpu) (x64 old : Bool) where
  open cpu use {State}

  unfoldable pub resolve_reg : Name → Result ℕ
  unfolding regmap find_name
  resolve_reg name = elim (find_name (regmap cpu.number x64 old) name) [
    | none ↦ raise key_error
    | some r ↦ ok r
  ]

  -- `self._uc.reg_read(self._resolve_reg(name))` and `self._uc.reg_write(self._resolve_reg(name), value)`
  unfoldable pub read_reg : Name → State → Result ℕ
  unfolding resolve_reg
  read_reg name s = elim (resolve_reg name) [ raise e ↦ raise e | ok r ↦ ok (cpu.reg_read r s) ]

  unfoldable pub write_reg : Name → (value : ℕ) → Action State (Unit {0})
  unfolding resolve_reg
  write_reg name value s = elim (resolve_reg name) [
    | raise e ↦ (raise e, s)
    | ok r ↦ (ok tt, cpu.reg_write r value s)
  ]

  -- `__getattr__` and `__getitem__`
  unfoldable pub get_attr : Name → State → Result ℕ
  unfolding find_name read_reg bit_at
  get_attr name s = elim (find_name flag_positions name) [
    | some i ↦ elim (read_reg (codes "eflags") s) [
      | raise e ↦ raise e
      | ok flags ↦ ok (bit_at i flags)
    ]
    | none ↦ read_reg name s
  ]

  -- The branch of a flag
  unfoldable pub set_flag : (i value : ℕ) → Action State (Unit {0})
  unfolding read_reg write_reg with_bit
  set_flag i value = do
    holder ← reads (read_reg (codes "eflags"))
    if value == 0
        then write_reg (codes "eflags") (with_bit i 0 holder)
        else (if value == 1
            then write_reg (codes "eflags") (with_bit i 1 holder)
            else throw exception)

  -- `__setattr__` and `__setitem__`. A name with an underscore is an attribute of the object itself.
  unfoldable pub set_attr : Name → (value : ℕ) → Action State (Unit {0})
  unfolding starts_with find_name set_flag write_reg
  set_attr name value =
      if starts_with (codes "_") name then pure tt else elim (find_name flag_positions name) [
        | some i ↦ set_flag i value
        | none ↦ write_reg name value
      ]

  -- `__contains__`
  unfoldable pub contains : Name → Bool
  unfolding resolve_reg
  contains name = elim (resolve_reg name) [ ok r ↦ true | raise e ↦ false ]

  -- `{ reg: self[reg] for reg in regs }`, in the order of its keys
  unfoldable pub save : List Name → State → Result (List Entry)
  unfolding get_attr
  save [] s = ok []
  save (name ∷ names) s = elim (get_attr name s) [
    | raise e ↦ raise e
    | ok value ↦ elim (save names s) [ raise e ↦ raise e | ok es ↦ ok (entry name value ∷ es) ]
  ]

  unfoldable pub load : List Entry → Action State (Unit {0})
  unfolding set_attr
  load [] = pure tt
  load (e ∷ es) = do set_attr e.name e.value; load es
